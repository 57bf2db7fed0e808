-- ===== src/Crypto.antt =====
-- pkg/crypto.go, and the language's `hex.EncodeToString`: bytes as text, two digits each.
pub mod Hex
use card_payment_service.Prelude.{ℕ, ◌+◌, ◌/◌, ◌%◌, String, List, [], ◌∷◌}
use Prim.Native.String
use card_payment_service.World.{Externals}

-- `hex.EncodeToString`, of Go's library: the digit of a number below 16
abbrev pub hex_digit : ℕ → String
hex_digit d = String.slice "0123456789abcdef" d (d + 1)

unfoldable pub hex_encode : List ℕ → String
hex_encode [] = ""
hex_encode (b ∷ bytes) =
    String.◌++◌ (hex_digit (b / 16)) (String.◌++◌ (hex_digit (b % 16)) (hex_encode bytes))

-- `HashSHA256`
unfoldable pub hash_sha256 : Externals → String → String
hash_sha256 x input = hex_encode (x.sha256 input)
