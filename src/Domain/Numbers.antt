-- ===== src/Domain/Numbers.antt =====
-- `int64` amounts, identifiers and times. The program compares amounts and does no arithmetic on
-- them, so nothing wraps around.
use card_payment_service.Prelude.{ℕ, Bool, false, leb, ◌==◌}

abbrev pub Uuid : Type 0
Uuid = ℕ

abbrev pub nil_uuid : Uuid
nil_uuid = 0

abbrev pub Time : Type 0
Time = ℕ

-- `negsuc n` is -(n + 1).
pub data ℤ : Type 0 where
  pos : ℕ → ℤ
  negsuc : ℕ → ℤ

-- `amount <= 0`
abbrev pub is_nonpositive : ℤ → Bool
is_nonpositive (pos n) = leb n 0
is_nonpositive (negsuc n) = leb 0 n

-- `amount == n` for a constant n that is not negative
abbrev pub equals : ℤ → ℕ → Bool
equals (pos n) k = n == k
equals (negsuc n) k = false
