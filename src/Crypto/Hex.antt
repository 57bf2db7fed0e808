-- ===== src/Crypto/Hex.antt =====
-- The digits of hexadecimal text, and its length.
use Prim.Native.Char.{Char, code, len_utf8}
use Prim.Native.String
use Prim.Native.String.append
use Prim.Native.String.len
use card_payment_service.Prelude.{
  ℕ, zero, suc, ◌+◌, ◌-◌, ◌*◌, ◌/◌, ◌%◌, ◌<◌, String, ◌≡◌, refl, Bool, true, false, ◌&&◌, List, [],
  ◌∷◌, length, All, ◌==◌, leb, if◌then◌else◌, arith,
}
use card_payment_service.Crypto.{hex_digit, hex_encode}

-- The value of a digit; 16 for any other character.
abbrev pub hex_value : Char → ℕ
hex_value c =
    if leb b'0' (code c) && leb (code c) b'9'
    then code c - b'0'
    else if leb b'a' (code c) && leb (code c) b'f'
    then code c - b'a' + 10
    else 16

-- the digit of a number is one character, of one byte, and has that value
is_digit_of : ℕ → String → Bool
is_digit_of d (String.◌∷◌ c String.[]) = hex_value c == d && len_utf8 c == 1
is_digit_of d _ = false

all_below : ℕ → (ℕ → Bool) → Bool
all_below zero p = true
all_below (suc n) p = p n && all_below n p

all_below_sound : (n : ℕ) (p : ℕ → Bool) (k : ℕ) → all_below n p ≡ true → k < n → p k ≡ true
unfolding all_below
all_below_sound zero p k h lt = absurd (omega arith)
all_below_sound (suc n) p k h lt = ground (arith, all_below_sound n p k)

digits_table : all_below 16 (λ d. is_digit_of d (hex_digit d)) ≡ true
unfolding all_below is_digit_of
digits_table = refl

pub record IsDigit (d : ℕ) (s : String) : Type 0 where
  pub char : Char
  pub same : s ≡ String.◌∷◌ char String.[]
  pub value : hex_value char ≡ d
  pub one : len_utf8 char ≡ 1

is_digit_of-IsDigit : (d : ℕ) (s : String) → is_digit_of d s ≡ true → IsDigit d s
unfolding is_digit_of
is_digit_of-IsDigit d String.[] h = cc
is_digit_of-IsDigit d (String.◌∷◌ c String.[]) h = record {
  char = c;
  same = refl;
  value = ground arith;
  one = ground arith;
}
is_digit_of-IsDigit d (String.◌∷◌ c (String.◌∷◌ e s)) h = cc

pub hex_digit-IsDigit : (d : ℕ) → d < 16 → IsDigit d (hex_digit d)
hex_digit-IsDigit d lt = is_digit_of-IsDigit d _ (all_below_sound 16 _ d digits_table lt)

paired :
    (c d : Char) (s : String)
    → String.◌++◌ (String.◌∷◌ c String.[]) (String.◌++◌ (String.◌∷◌ d String.[]) s)
      ≡ String.◌∷◌ c (String.◌∷◌ d s)
paired c d s = simp (append.cons, append.nil)

-- Every byte takes two places.
pub len-hex_encode :
    (bytes : List ℕ) → All (λ b. b < 256) bytes → String.len (hex_encode bytes) ≡ 2 * length bytes
unfolding hex_encode
len-hex_encode [] h = refl
len-hex_encode (b ∷ bytes) (h, hs) =
    let high = hex_digit-IsDigit (b / 16) (omega arith) in
    let low = hex_digit-IsDigit (b % 16) (omega arith) in
    let rest = len-hex_encode bytes hs in
    rw (high.same, low.same, paired high.char low.char (hex_encode bytes))
      (omega (
        arith,
        high.one,
        low.one,
        rest,
        len.cons high.char (String.◌∷◌ low.char (hex_encode bytes)),
        len.cons low.char (hex_encode bytes),
      ))
