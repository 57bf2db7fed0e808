-- ===== src/Merchant/Registration/Keys/Secrets.antt =====
-- The secrets of `generateSecret` are long enough, so `Register` never panics.
use Prim.Native.String
use text.Mathlib.TextPositions.{len-append}
use card_payment_service.Prelude.{ℕ, ◌<◌, ◌≡◌, length, All, arith}
use card_payment_service.Effect.Triple.{Ends, Ends-after}
use card_payment_service.External.Table.{TableLaws}
use card_payment_service.World.{Externals, World}
use card_payment_service.Repository.{merchant_columns, api_key_columns}
use card_payment_service.Crypto.{hex_encode}
use card_payment_service.Crypto.Hex.{len-hex_encode}
use card_payment_service.Merchant.{RegisterInput, register}
use card_payment_service.Merchant.Registration.{Unregistered, RegisterAnswer}
use card_payment_service.Merchant.Registration.Keys.{Shorn, register_settles}
use card_payment_service.Payment.Guards.{Never}

-- `rand.Read` fills the whole slice with bytes.
abbrev pub FillsSlices : Externals → Type 0
FillsSlices x =
    (n : ℕ) (o : x.Outside)
    → (length (x.random_bytes n o).0 ≡ n) × All (λ b. b < 256) (x.random_bytes n o).0

module _ (x : Externals) (l : TableLaws x.merchants merchant_columns)
    (lk : TableLaws x.api_keys api_key_columns) (input : RegisterInput) (w : World x) where
  not-Shorn : FillsSlices x → (v : World x) → ¬ Shorn x l lk input w v
  not-Shorn fills v (_, secret, (o, e), short) =
      let (full, bytes) = fills 24 o in
      let long = len-hex_encode (x.random_bytes 24 o).0 bytes in
      let short' : String.len (String.◌++◌ "sk_live_" (hex_encode (x.random_bytes 24 o).0)) < 16 =
        rw (← e) short in
      omega (arith, full, long, len-append "sk_live_" (hex_encode (x.random_bytes 24 o).0))

  -- Where the random source fills the slices that it is given, `Register` never panics: its secret
  -- has 56 bytes, more than the 16 of the prefix. It ends with an output for a merchant and a key
  -- that were added, or with an error.
  pub register_total :
      FillsSlices x
      → let (r, v) = register x input w in
        Ends
          (RegisterAnswer x l lk input w)
          (λ _. Unregistered x l lk input w)
          (Unregistered x l lk input w)
          Never
          r
          v
  register_total fills =
      Ends-after (RegisterAnswer x l lk input w) (RegisterAnswer x l lk input w)
        (λ _. Unregistered x l lk input w) (λ _. Unregistered x l lk input w)
        (Unregistered x l lk input w) (Unregistered x l lk input w) (Shorn x l lk input w) Never _ _
        (λ out h. h) (λ out h. h) (λ h. h) (λ h. absurd (not-Shorn fills (register x input w).1 h))
        (register_settles x l lk input w)
