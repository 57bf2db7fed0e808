-- ===== src/External/Table.antt =====
-- A table as the repositories reach it through gorm, and what is documented of the three calls
-- they make. `at` is the row under a primary key, `clock` the database's time, `up` says that the
-- database answers, `storable` which texts a column VARCHAR(n) takes, and `refers` that the rows are
-- there which a row's foreign keys name. The unique columns of a table are `clash` and the lengths of
-- its texts `fits`, from migrations/*.up.sql; no update touches a unique column or a foreign key.
use card_payment_service.Prelude.{
  ℕ, String, ◌≡◌, Option, none, some, Bool, true, false, ◌⊎◌, inl, inr, if◌then◌else◌, ◌==◌,
}
use card_payment_service.Domain.{Uuid, Time, Error, record_not_found, duplicated_key}

abbrev pub Reply : Type 0 → Type 0
Reply A = A ⊎ Error

pub record Table (Row Changes : Type 0) : Type 1 where
  pub State : Type 0
  -- `db.Create(&row)`, which also fills in the times of the row
  pub create : Row → State → Reply Row × State
  -- `db.Where(p).First(&row)`; the condition may read `NOW()`
  pub first : (Time → Row → Bool) → State → Reply Row × State
  -- `db.Model(&row).Clauses(clause.Returning{}).Where(p).Updates(changes)`; `row` stays nil-valued
  -- where no row is updated
  pub updates : (Row → Bool) → Changes → State → Reply (Option Row) × State

-- What a row is to the database: its key, its unique columns, the columns that its texts have to
-- fit, and how gorm writes it.
pub record Columns (Row Changes : Type 0) : Type 0 where
  pub key : Row → Uuid
  pub clash : Row → Row → Bool
  pub fits : (ℕ → String → Bool) → Row → Bool
  pub stamp : Time → Row → Row
  pub apply : Time → Changes → Row → Row

module _ {Row Changes : Type 0} (c : Columns Row Changes) {State : Type 0}
    (at : State → Uuid → Option Row) (clock : State → Time) where
  -- A refused insertion changes nothing; one that succeeds meets no clash and adds the row.
  abbrev pub Created : Row → State → Reply Row × State → Type 0
  Created r s (inl r', s') =
      (r' ≡ c.stamp (clock s) r)
      × ((k : Uuid) (q : Row) → at s k ≡ some q → c.clash q r ≡ false)
      × ((k : Uuid) → at s' k ≡ (if c.key r == k then some r' else at s k))
  Created r s (inr e, s') = (k : Uuid) → at s' k ≡ at s k

  -- A query changes nothing. The row that it finds is in the table and meets the condition, and no
  -- row does where the answer is `ErrRecordNotFound`.
  abbrev pub Found : (Time → Row → Bool) → State → Reply Row × State → Type 0
  Found p s (inl r, s') =
      (p (clock s) r ≡ true) × (at s (c.key r) ≡ some r) × ((k : Uuid) → at s' k ≡ at s k)
  Found p s (inr e, s') =
      (e ≡ record_not_found → (k : Uuid) (r : Row) → at s k ≡ some r → p (clock s) r ≡ false)
      × ((k : Uuid) → at s' k ≡ at s k)

  abbrev pub change : (Row → Bool) → Changes → State → Row → Row
  change p ch s r = if p r then c.apply (clock s) ch r else r

  abbrev pub changed : (Row → Bool) → Changes → State → Option Row → Option Row
  changed p ch s none = none
  changed p ch s (some r) = some (change p ch s r)

  -- An update changes the rows that meet the condition, and answers one of them as changed; one
  -- that fails changes nothing.
  abbrev pub Updated : (Row → Bool) → Changes → State → Reply (Option Row) × State → Type 0
  Updated p ch s (inl none, s') =
      ((k : Uuid) (r : Row) → at s k ≡ some r → p r ≡ false)
      × ((k : Uuid) → at s' k ≡ changed p ch s (at s k))
  Updated p ch s (inl (some r'), s') =
      ((r : Row) × (at s (c.key r) ≡ some r) × (p r ≡ true) × (r' ≡ c.apply (clock s) ch r))
      × ((k : Uuid) → at s' k ≡ changed p ch s (at s k))
  Updated p ch s (inr e, s') = (k : Uuid) → at s' k ≡ at s k

-- Why a database that answers refuses an insertion: a clash, a text that does not fit, or a row
-- that is not there; and an update: a text that does not fit.
module _ {Row Changes : Type 0} (c : Columns Row Changes) {State : Type 0}
    (at : State → Uuid → Option Row) where
  abbrev pub Refused : (ℕ → String → Bool) → (State → Row → Bool) → Row → State → Error → Type 0
  Refused storable refers r s e =
      ((e ≡ duplicated_key) × ((k : Uuid) × (q : Row) × (at s k ≡ some q) × (c.clash q r ≡ true)))
      ⊎ (c.fits storable r ≡ false)
      ⊎ (refers s r ≡ false)

  abbrev pub Unfitting :
      (State → Time) → (ℕ → String → Bool) → (Row → Bool) → Changes → State → Type 0
  Unfitting clock storable p ch s =
      (k : Uuid) × (r : Row) × (at s k ≡ some r)
      × (p r ≡ true)
      × (c.fits storable (c.apply (clock s) ch r) ≡ false)

-- The only failures of a database that answers.
module _ {State : Type 0} (up : State → Bool) where
  abbrev pub Answers : {A : Type 0} → (Error → Type 0) → State → Reply A × State → Type 0
  Answers E s (inl a, s') = up s' ≡ true
  Answers E s (inr e, s') = (up s' ≡ true) × E e

pub record TableLaws {Row Changes : Type 0} (t : Table Row Changes) (c : Columns Row Changes)
    : Type 0 where
  pub at : t.State → Uuid → Option Row
  pub clock : t.State → Time
  pub up : t.State → Bool
  pub storable : ℕ → String → Bool
  pub refers : t.State → Row → Bool
  pub at_key : (s : t.State) (k : Uuid) (r : Row) → at s k ≡ some r → c.key r ≡ k
  pub create_lem : (r : Row) (s : t.State) → Created c at clock r s (t.create r s)
  pub first_lem : (p : Time → Row → Bool) (s : t.State) → Found c at clock p s (t.first p s)
  pub updates_lem :
      (p : Row → Bool) (ch : Changes) (s : t.State) → Updated c at clock p ch s (t.updates p ch s)
  pub create_up :
      (r : Row) (s : t.State)
      → up s ≡ true
      → Answers up (Refused c at storable refers r s) s (t.create r s)
  pub first_up :
      (p : Time → Row → Bool) (s : t.State)
      → up s ≡ true
      → Answers up (λ e. e ≡ record_not_found) s (t.first p s)
  pub updates_up :
      (p : Row → Bool) (ch : Changes) (s : t.State)
      → up s ≡ true
      → Answers up (λ _. Unfitting c at clock storable p ch s) s (t.updates p ch s)
