-- ===== src/Merchant.antt =====
-- internal/service/merchant_service.go, merchant_apikey.go, merchant_mapper.go, merchant_types.go.
pub mod Activation
pub mod Registration
use card_payment_service.Prelude.{
  ℕ, String, Option, none, some, Bool, true, false, not, ltb, if◌then◌else◌,
}
use Prim.Native.String
use card_payment_service.Domain.{
  Uuid, Merchant, MerchantStatus, ApiKey, Error, record_not_found, merchant_already_exists,
  merchant_not_found, merchant_status_not_accepted,
}
use card_payment_service.Effect.{
  M, pure, raise, raise_if, catch, panicking, slice_bounds, ◌>>=◌, ◌>>◌,
}
use card_payment_service.World.{Externals, World, take_outside}
use card_payment_service.Repository.{
  create_merchant, find_merchant_by_email, update_merchant, create_api_key,
}
use card_payment_service.Crypto.{hex_encode, hash_sha256}

pub record RegisterInput : Type 0 where
  pub name : String
  pub email : String
  pub webhook_url : Option String

pub record RegisterOutput : Type 0 where
  pub merchant_id : String
  pub api_key : String
  pub status : String

-- `string(merchant.Status)`
abbrev pub merchant_status_text : MerchantStatus → String
merchant_status_text MerchantStatus.pending = "pending"
merchant_status_text MerchantStatus.active = "active"
merchant_status_text MerchantStatus.suspended = "suspended"
merchant_status_text (MerchantStatus.other s) = s

abbrev pub is_pending_merchant : MerchantStatus → Bool
is_pending_merchant MerchantStatus.pending = true
is_pending_merchant _ = false

-- `errors.Is(err, gorm.ErrRecordNotFound)`
abbrev pub is_record_not_found : Error → Bool
is_record_not_found record_not_found = true
is_record_not_found _ = false

abbrev pub is_found : Option Merchant → Bool
is_found none = false
is_found (some m) = true

-- `secret[:16]`
unfoldable pub key_prefix : {W : Type 0} → String → M W String
key_prefix secret =
    if ltb (String.len secret) 16 then panicking slice_bounds else pure (String.slice secret 0 16)

module _ (x : Externals) where
  -- `mapRegisterMerchant`
  unfoldable pub map_register_merchant : RegisterInput → M (World x) Merchant
  map_register_merchant data_in = do
    id ← take_outside x.new_uuid
    created_at ← take_outside x.now
    updated_at ← take_outside x.now
    pure (record {
      id = id;
      name = data_in.name;
      email = data_in.email;
      webhook_url = data_in.webhook_url;
      status = MerchantStatus.pending;
      created_at = created_at;
      updated_at = updated_at;
    })

  -- `mapRegisterAPIKey`
  unfoldable pub map_register_api_key : Uuid → String → String → M (World x) ApiKey
  map_register_api_key merchant_id prefix hashed = do
    id ← take_outside x.new_uuid
    created_at ← take_outside x.now
    pure (record {
      id = id;
      merchant_id = merchant_id;
      key_prefix = prefix;
      hashed_key = hashed;
      revoked_at = none;
      created_at = created_at;
    })

  -- `generateSecret`
  unfoldable pub generate_secret : M (World x) String
  generate_secret = do
    bytes ← take_outside (x.random_bytes 24)
    pure (String.◌++◌ "sk_live_" (hex_encode bytes))

  -- `createAPIKey`
  unfoldable pub create_secret : Uuid → M (World x) (Option String)
  create_secret merchant_id = do
    secret ← generate_secret
    prefix ← key_prefix secret
    api_key ← map_register_api_key merchant_id prefix (hash_sha256 x secret)
    _ ← create_api_key x api_key
    pure (some secret)

  -- the answer of `Register`; `return nil, err` where the secret is nil and `err` is too
  unfoldable pub registered : Merchant → Option String → M (World x) (Option RegisterOutput)
  registered merchant none = pure none
  registered merchant (some secret) = pure (
      some (record {
        merchant_id = x.uuid_text merchant.id;
        api_key = secret;
        status = merchant_status_text merchant.status;
      }))

  -- `Register`
  unfoldable pub register : RegisterInput → M (World x) (Option RegisterOutput)
  register data_in = do
    existing ←
        catch (find_merchant_by_email x data_in.email)
          (λ e. if is_record_not_found e then pure none else raise e) pure
    raise_if (is_found existing) merchant_already_exists
    built ← map_register_merchant data_in
    merchant ← create_merchant x built
    secret ← create_secret merchant.id
    registered merchant secret

  -- `Activate` on the merchant that was found
  unfoldable pub activate_found : Option Merchant → M (World x) (Option Merchant)
  activate_found none = raise merchant_not_found
  activate_found (some existing) = do
    raise_if (not (is_pending_merchant existing.status)) merchant_status_not_accepted
    update_merchant x existing.id MerchantStatus.active

  -- `Activate`
  unfoldable pub activate : String → M (World x) (Option Merchant)
  activate email = do existing ← find_merchant_by_email x email; activate_found existing
