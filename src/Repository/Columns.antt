-- ===== src/Repository/Columns.antt =====
-- The tables of migrations/*.up.sql: primary keys, unique columns, lengths of texts, and the times that gorm fills in
-- on an insertion (where they are zero) and on an update.
use card_payment_service.Prelude.{
  ℕ, String, Option, none, some, Bool, true, ◌==◌, ◌&&◌, ◌||◌, str_eq, if◌then◌else◌,
}
use card_payment_service.Domain.{
  Time, Transaction, Refund, Merchant, ApiKey, IdempotencyKey, MerchantStatus,
}
use card_payment_service.External.Table.{Columns}
use card_payment_service.World.{TransactionChanges}

abbrev pub or_now : Time → Time → Time
or_now now t = if t == 0 then now else t

-- A nil pointer of an update leaves the column alone.
abbrev pub or_old {ℓ} : {A : Type ℓ} → Option A → Option A → Option A
or_old none old = old
or_old (some a) old = some a

-- a column VARCHAR(n) that may be NULL
abbrev pub fits_text : (ℕ → String → Bool) → ℕ → Option String → Bool
fits_text storable n none = true
fits_text storable n (some text) = storable n text

abbrev pub transaction_columns : Columns Transaction TransactionChanges
transaction_columns = record {
  key = λ r. r.id;
  clash = λ q r. q.id == r.id || str_eq q.idempotency_key r.idempotency_key;
  fits = λ storable r.
      fits_text storable 255 r.gateway_ref
      && storable 255 r.card_token
      && storable 4 r.card_last_four
      && storable 20 r.card_brand
      && storable 3 r.currency
      && fits_text storable 500 r.description
      && storable 255 r.idempotency_key
      && fits_text storable 500 r.failed_reason;
  stamp = λ now r. record r {
    created_at = or_now now r.created_at;
    updated_at = or_now now r.updated_at;
  };
  apply = λ now c r. record r {
    status = c.status;
    gateway_ref = or_old c.gateway_ref r.gateway_ref;
    failed_reason = or_old c.failed_reason r.failed_reason;
    captured_at = or_old c.captured_at r.captured_at;
    updated_at = now;
  };
}

abbrev pub merchant_columns : Columns Merchant MerchantStatus
merchant_columns = record {
  key = λ r. r.id;
  clash = λ q r. q.id == r.id || str_eq q.email r.email;
  fits = λ storable r.
      storable 255 r.name && storable 255 r.email && fits_text storable 500 r.webhook_url;
  stamp = λ now r. record r {
    created_at = or_now now r.created_at;
    updated_at = or_now now r.updated_at;
  };
  apply = λ now status r. record r { status = status; updated_at = now };
}

abbrev pub api_key_columns : Columns ApiKey (Unit {0})
api_key_columns = record {
  key = λ r. r.id;
  clash = λ q r. q.id == r.id || str_eq q.hashed_key r.hashed_key;
  fits = λ storable r. storable 16 r.key_prefix && storable 255 r.hashed_key;
  stamp = λ now r. record r { created_at = or_now now r.created_at };
  apply = λ now c r. r;
}

abbrev pub idempotency_key_columns : Columns IdempotencyKey (Unit {0})
idempotency_key_columns = record {
  key = λ r. r.key;
  clash = λ q r. q.key == r.key;
  -- a UUID fits VARCHAR(255)
  fits = λ storable r. true;
  stamp = λ now r. record r { created_at = or_now now r.created_at };
  apply = λ now c r. r;
}

abbrev pub refund_columns : Columns Refund (Unit {0})
refund_columns = record {
  key = λ r. r.id;
  clash = λ q r. q.id == r.id;
  fits =
      λ storable r. fits_text storable 255 r.refund_ref && fits_text storable 500 r.failed_reason;
  stamp = λ now r. record r {
    created_at = or_now now r.created_at;
    updated_at = or_now now r.updated_at;
  };
  apply = λ now c r. record r { updated_at = now };
}
