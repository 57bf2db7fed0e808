-- ===== src/Webhook/Simulator/Decimal.antt =====
-- The decimal text of a status code reads back as the code: the rounds are enough.
use Prim.Native.String
use Prim.Native.String.append
use card_payment_service.Prelude.{
  ℕ, zero, suc, ◌+◌, ◌*◌, ◌/◌, ◌%◌, ◌<◌, String, ◌≡◌, refl, ◌∙◌, ap, ltb, Bool-cases, inl, inr,
  arith,
}
use card_payment_service.Crypto.{hex_digit}
use card_payment_service.Crypto.Hex.{hex_value, hex_digit-IsDigit}
use card_payment_service.Webhook.Simulator.{decimal_rounds, decimal}

-- The number that a text of digits stands for, after the digits so far.
pub read_decimal : ℕ → String → ℕ
read_decimal so_far String.[] = so_far
read_decimal so_far (String.◌∷◌ c s) = read_decimal (so_far * 10 + hex_value c) s

read_decimal-append :
    (n : ℕ) (s r : String) → read_decimal n (String.◌++◌ s r) ≡ read_decimal (read_decimal n s) r
unfolding read_decimal
read_decimal-append n String.[] r = rw (append.nil r) refl
read_decimal-append n (String.◌∷◌ c s) r =
    rw (append.cons c s r) (read_decimal-append (n * 10 + hex_value c) s r)

read_decimal-digit : (n d : ℕ) → d < 16 → read_decimal n (hex_digit d) ≡ n * 10 + d
unfolding read_decimal
read_decimal-digit n d lt = let digit = hex_digit-IsDigit d lt in rw (digit.same, digit.value) refl

read_decimal-rounds : (fuel n : ℕ) → n < fuel → read_decimal 0 (decimal_rounds fuel n) ≡ n
unfolding decimal_rounds
read_decimal-rounds zero n lt = absurd (omega arith)
read_decimal-rounds (suc fuel) n lt = elim (Bool-cases (ltb n 10)) [
  | inl e ↦ rw e (read_decimal-digit 0 n (ground arith) ∙ omega arith)
  | inr e ↦
      let big : 10 < n + 1 = ground arith in
      rw e (
        read_decimal-append 0 (decimal_rounds fuel (n / 10)) (hex_digit (n % 10))
        ∙ ap (λ k. read_decimal k (hex_digit (n % 10)))
            (read_decimal-rounds fuel (n / 10) (omega arith))
        ∙ read_decimal-digit (n / 10) (n % 10) (omega arith)
        ∙ omega arith)
]

-- The decimal text of a number reads back as the number.
pub read_decimal-decimal : (n : ℕ) → read_decimal 0 (decimal n) ≡ n
unfolding decimal
read_decimal-decimal n = read_decimal-rounds (n + 1) n (omega arith)
