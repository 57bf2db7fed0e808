-- ===== src/Auth.antt =====
-- internal/service/auth/service.go.
pub mod Keys
pub mod Granted
pub mod Onboarding
use card_payment_service.Prelude.{String, Option, some, Bool, true, false, not}
use card_payment_service.Domain.{Merchant, MerchantStatus, invalid_api_key, merchant_not_active}
use card_payment_service.Effect.{M, pure, raise, raise_if, catch, deref, ◌>>=◌, ◌>>◌}
use card_payment_service.World.{Externals, World}
use card_payment_service.Repository.{find_api_key, find_merchant_by_id}
use card_payment_service.Crypto.{hash_sha256}

abbrev pub is_active : MerchantStatus → Bool
is_active MerchantStatus.active = true
is_active _ = false

module _ (x : Externals) where
  -- `ValidateAPIKey`
  unfoldable pub validate_api_key : String → M (World x) (Option Merchant)
  validate_api_key api_key = do
    found ← catch (find_api_key x (hash_sha256 x api_key)) (λ _. raise invalid_api_key) pure
    key ← deref found
    owner ← find_merchant_by_id x key.merchant_id
    merchant ← deref owner
    raise_if (not (is_active merchant.status)) merchant_not_active
    pure (some merchant)
