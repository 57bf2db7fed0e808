-- ===== src/Demo.antt =====
-- Concrete parts for the witnesses and the tests: tables and Redis in memory, and an outside that
-- counts. An identifier n is written as n ones before a "u".
use Prim.Native.String
use card_payment_service.Prelude.{
  ℕ, zero, suc, ◌+◌, ◌≡◌, refl, String, Option, none, some, true, List, [], ◌∷◌, inl,
}
use mathlib.Core.Option
use card_payment_service.Domain.{
  Uuid, IdempotencyKey, Transaction, TransactionStatus, PaymentType, pos,
}
use card_payment_service.External.Table.{TableLaws}
use card_payment_service.External.Memory.{
  Memory, memory_table, memory_table-TableLaws, memory_table-at, memory_table-clock,
  memory_table-up, memory_table-storable, memory_table-refers,
}
use card_payment_service.External.Memory
use card_payment_service.External.RedisMemory
use card_payment_service.External.RedisMemory.{memory_redis}
use card_payment_service.Repository.{
  transaction_columns, merchant_columns, api_key_columns, idempotency_key_columns, refund_columns,
}
use card_payment_service.Gateway.{Gateway}
use card_payment_service.Gateway.Mock.{MockParts, mock_gateway}
use card_payment_service.World.{Externals, World}

unfoldable pub write_uuid : Uuid → String
write_uuid zero = "u"
write_uuid (suc n) = String.◌∷◌ "1" (write_uuid n)

unfoldable pub read_uuid : String → Option Uuid
read_uuid String.[] = none
read_uuid (String.◌∷◌ c String.[]) = some 0
read_uuid (String.◌∷◌ c (String.◌∷◌ d s)) = Option.map suc (read_uuid (String.◌∷◌ d s))

unfoldable pub zeros : ℕ → List ℕ
zeros zero = []
zeros (suc n) = 0 ∷ zeros n

-- the clock and the source of identifiers
abbrev pub Outside : Type 0
Outside = ℕ × ℕ

abbrev pub demo : Externals
demo = record {
  transactions = memory_table transaction_columns;
  merchants = memory_table merchant_columns;
  api_keys = memory_table api_key_columns;
  idempotency_keys = memory_table idempotency_key_columns;
  refunds = memory_table refund_columns;
  redis = memory_redis;
  Outside = Outside;
  now = λ (time, next). (time, (time + 1, next));
  new_uuid = λ (time, next). (next, (time, next + 1));
  random_bytes = λ n o. (zeros n, o);
  parse_uuid = read_uuid;
  uuid_text = write_uuid;
  sha256 = λ s. String.len s ∷ [];
}

abbrev pub demo_parts : MockParts Outside
demo_parts = record {
  validate = λ card. none;
  last_four = λ card. inl "4242";
  getenv = λ name. "production";
  new_string = λ (time, next). (write_uuid next, (time, next + 1));
}

abbrev pub demo_gateway : Gateway Outside
demo_gateway = mock_gateway demo_parts

abbrev pub demo_transaction : Transaction
demo_transaction = record {
  id = 7;
  merchant_id = 3;
  gateway_ref = some "gw_mock_001";
  payment_type = PaymentType.authorize_capture;
  card_token = "tok_1";
  card_last_four = "4242";
  card_brand = "VISA";
  amount = pos 500;
  currency = "THB";
  status = TransactionStatus.authorized;
  description = none;
  idempotency_key = "u11";
  failed_reason = none;
  captured_at = none;
  created_at = 1;
  updated_at = 1;
}

-- one authorized transaction, and nothing else
abbrev pub demo_world : World demo
demo_world = record {
  transactions = record { rows = demo_transaction ∷ []; time = 100; up = true };
  merchants = record { rows = []; time = 100; up = true };
  api_keys = record { rows = []; time = 100; up = true };
  idempotency_keys = record { rows = []; time = 100; up = true };
  refunds = record { rows = []; time = 100; up = true };
  redis = [];
  outside = (100, 20);
  calls = [];
  background = [];
}

pub transactions-TableLaws : TableLaws demo.transactions transaction_columns
transactions-TableLaws = memory_table-TableLaws transaction_columns (λ t r. refl) (λ t ch r. refl)

pub transactions-at :
    (s : demo.transactions.State) (k : Uuid)
    → transactions-TableLaws.at s k ≡ Memory.row_at transaction_columns s.rows k
unfolding transactions-TableLaws
transactions-at s k = memory_table-at transaction_columns (λ t r. refl) (λ t ch r. refl) s k

pub transactions-up : (s : demo.transactions.State) → transactions-TableLaws.up s ≡ s.up
unfolding transactions-TableLaws
transactions-up s = memory_table-up transaction_columns (λ t r. refl) (λ t ch r. refl) s

pub transactions-storable : (n : ℕ) (s : String) → transactions-TableLaws.storable n s ≡ true
unfolding transactions-TableLaws
transactions-storable n s =
    memory_table-storable transaction_columns (λ t r. refl) (λ t ch r. refl) n s

pub merchants-TableLaws : TableLaws demo.merchants merchant_columns
merchants-TableLaws = memory_table-TableLaws merchant_columns (λ t r. refl) (λ t ch r. refl)

pub api_keys-TableLaws : TableLaws demo.api_keys api_key_columns
api_keys-TableLaws = memory_table-TableLaws api_key_columns (λ t r. refl) (λ t ch r. refl)

pub merchants-up : (s : demo.merchants.State) → merchants-TableLaws.up s ≡ s.up
unfolding merchants-TableLaws
merchants-up s = memory_table-up merchant_columns (λ t r. refl) (λ t ch r. refl) s

pub api_keys-up : (s : demo.api_keys.State) → api_keys-TableLaws.up s ≡ s.up
unfolding api_keys-TableLaws
api_keys-up s = memory_table-up api_key_columns (λ t r. refl) (λ t ch r. refl) s

pub idempotency_keys-TableLaws : TableLaws demo.idempotency_keys idempotency_key_columns
idempotency_keys-TableLaws =
    memory_table-TableLaws idempotency_key_columns (λ t r. refl) (λ t ch r. refl)

pub idempotency_keys-at :
    (s : demo.idempotency_keys.State) (k : Uuid)
    → idempotency_keys-TableLaws.at s k ≡ Memory.row_at idempotency_key_columns s.rows k
unfolding idempotency_keys-TableLaws
idempotency_keys-at s k = memory_table-at idempotency_key_columns (λ t r. refl) (λ t ch r. refl) s k

pub idempotency_keys-clock :
    (s : demo.idempotency_keys.State) → idempotency_keys-TableLaws.clock s ≡ s.time
unfolding idempotency_keys-TableLaws
idempotency_keys-clock s =
    memory_table-clock idempotency_key_columns (λ t r. refl) (λ t ch r. refl) s

pub idempotency_keys-up : (s : demo.idempotency_keys.State) → idempotency_keys-TableLaws.up s ≡ s.up
unfolding idempotency_keys-TableLaws
idempotency_keys-up s = memory_table-up idempotency_key_columns (λ t r. refl) (λ t ch r. refl) s

pub idempotency_keys-refers :
    (s : demo.idempotency_keys.State) (r : IdempotencyKey)
    → idempotency_keys-TableLaws.refers s r ≡ true
unfolding idempotency_keys-TableLaws
idempotency_keys-refers s r =
    memory_table-refers idempotency_key_columns (λ t r. refl) (λ t ch r. refl) s r

pub refunds-TableLaws : TableLaws demo.refunds refund_columns
refunds-TableLaws = memory_table-TableLaws refund_columns (λ t r. refl) (λ t ch r. refl)

pub refunds-at :
    (s : demo.refunds.State) (k : Uuid)
    → refunds-TableLaws.at s k ≡ Memory.row_at refund_columns s.rows k
unfolding refunds-TableLaws
refunds-at s k = memory_table-at refund_columns (λ t r. refl) (λ t ch r. refl) s k

-- unfolds what `demo` computes with
unfoldable pub demo_parts_run : Unit {0}
unfolding write_uuid read_uuid zeros Memory.row_at Memory.visible_match RedisMemory.lookup
    RedisMemory.erase
demo_parts_run = tt
