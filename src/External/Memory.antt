-- ===== src/External/Memory.antt =====
-- A table in memory, which takes any text: a list of rows, where an earlier row hides a later one with its key. It meets
-- the laws that the theorems assume of a database.
use card_payment_service.Prelude.{
  ℕ, String, ◌≡◌, refl, Option, none, some, Bool, true, false, inl, inr, if◌then◌else◌, ◌==◌, List,
  [], ◌∷◌, map, arith, Option-cases,
}
use card_payment_service.Domain.{Uuid, Time, Error, record_not_found, duplicated_key, message}
use card_payment_service.External.Table.{
  Table, Columns, Reply, TableLaws, Created, Found, Updated, Answers, Refused, changed,
}

pub record Memory (Row : Type 0) : Type 0 where
  pub rows : List Row
  pub time : Time
  pub up : Bool

abbrev refused : Error
refused = message "connection refused"

module _ {Row Changes : Type 0} (c : Columns Row Changes) where
  unfoldable pub row_at : List Row → Uuid → Option Row
  row_at [] k = none
  row_at (r ∷ rs) k = if c.key r == k then some r else row_at rs k

  -- the first row, not hidden, that meets a condition
  unfoldable pub visible_match : (Row → Bool) → List Row → List Row → Option Row
  visible_match p all [] = none
  visible_match p all (r ∷ rs) = elim (row_at all (c.key r)) [
    | none ↦ visible_match p all rs
    | some q ↦ if p q then some q else visible_match p all rs
  ]

  abbrev first_reply : Option Row → Reply Row
  first_reply none = inr record_not_found
  first_reply (some r) = inl r

  abbrev insert_row : Option Row → Row → Memory Row → Reply Row × Memory Row
  insert_row (some q) r s = (inr duplicated_key, s)
  insert_row none r s = (inl r, record s { rows = r ∷ s.rows })

  abbrev apply_match : Time → Changes → Option Row → Option Row
  apply_match t ch none = none
  apply_match t ch (some r) = some (c.apply t ch r)

  abbrev update_row : (Row → Bool) → Changes → Time → Row → Row
  update_row p ch t r = if p r then c.apply t ch r else r

  abbrev pub memory_table : Table Row Changes
  memory_table = record {
    State = Memory Row;
    create = λ r s.
        if s.up
        then insert_row (visible_match (λ q. c.clash q r) s.rows s.rows) (c.stamp s.time r) s
        else (inr refused, s);
    first = λ p s.
        (if s.up then first_reply (visible_match (p s.time) s.rows s.rows) else inr refused, s);
    updates = λ p ch s.
        if s.up
        then (
          inl (apply_match s.time ch (visible_match p s.rows s.rows)),
          record s { rows = map (update_row p ch s.time) s.rows },
        )
        else (inr refused, s);
  }

  row_at-key : (rs : List Row) (k : Uuid) (r : Row) → row_at rs k ≡ some r → c.key r ≡ k
  unfolding row_at
  row_at-key [] k r h = cc
  row_at-key (q ∷ rs) k r h = ground (arith, row_at-key rs k r)

  visible_match_sound :
      (p : Row → Bool) (all rs : List Row) (q : Row)
      → visible_match p all rs ≡ some q
      → (p q ≡ true) × (row_at all (c.key q) ≡ some q)
  unfolding visible_match
  visible_match_sound p all [] q h = cc
  visible_match_sound p all (r ∷ rs) q h = elim (Option-cases (row_at all (c.key r))) [
    | inl hidden ↦ ground (arith, visible_match_sound p all rs q)
    | inr (q', e) ↦ ground (arith, visible_match_sound p all rs q, row_at-key all (c.key r) q' e)
  ]

  visible_match_complete :
      (p : Row → Bool) (all rs : List Row) (k : Uuid) (r q : Row)
      → visible_match p all rs ≡ none
      → row_at rs k ≡ some r
      → row_at all k ≡ some q
      → p q ≡ false
  unfolding visible_match row_at
  visible_match_complete p all [] k r q h e f = cc
  visible_match_complete p all (r' ∷ rs) k r q h e f =
      ground (arith, visible_match_complete p all rs k r q)

  module _ (key_stamp : (t : Time) (r : Row) → c.key (c.stamp t r) ≡ c.key r)
      (key_apply : (t : Time) (ch : Changes) (r : Row) → c.key (c.apply t ch r) ≡ c.key r) where
    row_at-update :
        (p : Row → Bool) (ch : Changes) (s : Memory Row) (rs : List Row) (k : Uuid)
        → row_at (map (update_row p ch s.time) rs) k
          ≡ changed c (λ (s : Memory Row). row_at s.rows) (λ s. s.time) p ch s (row_at rs k)
    unfolding row_at
    row_at-update p ch s [] k = refl
    row_at-update p ch s (r ∷ rs) k =
        ground (arith, row_at-update p ch s rs k, key_apply s.time ch r)

    create_memory :
        (r : Row) (s : Memory Row) (u : Bool) (o : Option Row)
        → visible_match (λ q. c.clash q r) s.rows s.rows ≡ o
        → Created c
            (λ (s : Memory Row). row_at s.rows)
            (λ s. s.time)
            r
            s
            (if u then insert_row o (c.stamp s.time r) s else (inr refused, s))
    unfolding row_at
    create_memory r s false o e = λ k. refl
    create_memory r s true (some q) e = λ k. refl
    create_memory r s true none e = (
      refl,
      λ k q h. visible_match_complete (λ q. c.clash q r) s.rows s.rows k q q e h h,
      λ k. rw (key_stamp s.time r),
    )

    first_memory :
        (p : Time → Row → Bool) (s : Memory Row) (u : Bool) (o : Option Row)
        → visible_match (p s.time) s.rows s.rows ≡ o
        → Found c
            (λ (s : Memory Row). row_at s.rows)
            (λ s. s.time)
            p
            s
            (if u then first_reply o else inr refused, s)
    first_memory p s false o e = (λ f. cc, λ k. refl)
    first_memory p s true none e =
        (λ f k r h. visible_match_complete (p s.time) s.rows s.rows k r r e h h, λ k. refl)
    first_memory p s true (some q) e =
        let (holds, here) = visible_match_sound (p s.time) s.rows s.rows q e in
        (holds, here, λ k. refl)

    updates_memory :
        (p : Row → Bool) (ch : Changes) (s : Memory Row) (u : Bool) (o : Option Row)
        → visible_match p s.rows s.rows ≡ o
        → Updated c
            (λ (s : Memory Row). row_at s.rows)
            (λ s. s.time)
            p
            ch
            s
            (if u
              then (
                inl (apply_match s.time ch o),
                record s { rows = map (update_row p ch s.time) s.rows },
              )
              else (inr refused, s))
    updates_memory p ch s false o e = λ k. refl
    updates_memory p ch s true none e =
        (λ k r h. visible_match_complete p s.rows s.rows k r r e h h, row_at-update p ch s s.rows)
    updates_memory p ch s true (some q) e =
        let (holds, here) = visible_match_sound p s.rows s.rows q e in
        ((q, here, holds, refl), row_at-update p ch s s.rows)

    create_memory_up :
        (r : Row) (s : Memory Row) (o : Option Row)
        → visible_match (λ q. c.clash q r) s.rows s.rows ≡ o
        → s.up ≡ true
        → Answers
            (λ (s : Memory Row). s.up)
            (Refused c (λ (s : Memory Row). row_at s.rows) (λ _ _. true) (λ _ _. true) r s)
            s
            (insert_row o (c.stamp s.time r) s)
    create_memory_up r s none e up = up
    create_memory_up r s (some q) e up =
        let (holds, here) = visible_match_sound (λ q. c.clash q r) s.rows s.rows q e in
        (up, inl (refl, (c.key q, q, here, holds)))

    first_memory_up :
        (s : Memory Row) (o : Option Row)
        → s.up ≡ true
        → Answers
            (λ (s : Memory Row). s.up)
            {A = Row}
            (λ e. e ≡ record_not_found)
            s
            (first_reply o, s)
    first_memory_up s none up = (up, refl)
    first_memory_up s (some q) up = up

    pub memory_table-TableLaws : TableLaws memory_table c
    memory_table-TableLaws = record {
      at = λ s. row_at s.rows;
      clock = λ s. s.time;
      up = λ s. s.up;
      storable = λ _ _. true;
      refers = λ _ _. true;
      at_key = λ s. row_at-key s.rows;
      create_lem = λ r s. create_memory r s s.up _ refl;
      first_lem = λ p s. first_memory p s s.up _ refl;
      updates_lem = λ p ch s. updates_memory p ch s s.up _ refl;
      create_up = λ r s up. simp up (create_memory_up r s _ refl up);
      first_up = λ p s up. simp up (first_memory_up s _ up);
      updates_up = λ p ch s up. simp up;
    }

    pub memory_table-at :
        (s : Memory Row) (k : Uuid) → memory_table-TableLaws.at s k ≡ row_at s.rows k
    unfolding memory_table-TableLaws
    memory_table-at s k = refl

    pub memory_table-clock : (s : Memory Row) → memory_table-TableLaws.clock s ≡ s.time
    unfolding memory_table-TableLaws
    memory_table-clock s = refl

    pub memory_table-up : (s : Memory Row) → memory_table-TableLaws.up s ≡ s.up
    unfolding memory_table-TableLaws
    memory_table-up s = refl

    pub memory_table-storable : (n : ℕ) (s : String) → memory_table-TableLaws.storable n s ≡ true
    unfolding memory_table-TableLaws
    memory_table-storable n s = refl

    pub memory_table-refers : (s : Memory Row) (r : Row) → memory_table-TableLaws.refers s r ≡ true
    unfolding memory_table-TableLaws
    memory_table-refers s r = refl
