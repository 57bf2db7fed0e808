-- ===== src/Payment/Footprint.antt =====
-- What the steps of the payment service leave of the rows of idempotency keys and of the table of
-- refunds.
pub mod Operations
use card_payment_service.Prelude.{
  String, List, [], ◌∷◌, ◌≡◌, refl, ◌∙◌, Option, none, some, Bool, true, false, inl, inr, ◌==◌,
  if◌then◌else◌, arith,
}
use card_payment_service.Domain.{
  Uuid, Time, Json, IdempotencyKey, Transaction, Refund, TransactionStatus, PaymentType, is_failed,
  is_captured,
}
use card_payment_service.Effect.{M, ◌>>=◌}
use card_payment_service.Effect.Keeps.{
  Keeps, Anything, IsPreorder, Keeps-if, Keeps-bind_any, Gives-any_result, any_rules,
}
use card_payment_service.External.Table.{Reply, TableLaws, Found, Created}
use card_payment_service.Gateway.{Gateway, TokenizeResponse, RefundResponse}
use card_payment_service.World.{
  Externals, World, Call, SaveJob, TransactionChanges, on_transactions, on_idempotency_keys,
  on_redis, on_refunds, take_outside, send, spawn,
}
use card_payment_service.Repository.{
  create_transaction, find_transaction, update_transaction, find_idempotency_key,
  create_idempotency_key, idempotency_key_columns, create_refund,
}
use card_payment_service.Lock.{acquire, release}
use card_payment_service.Payment.Types.{
  ChargeInput, ChargeOutput, CaptureInput, VoidInput, RefundInput, RefundOutput,
}
use card_payment_service.Payment.Idempotency.{cached_idempotency, save_idempotency}
use card_payment_service.Payment.Calls.{
  GatewayOutcome, call_gateway_authorize, call_gateway_capture, call_gateway_void, refund_ref_of,
  call_gateway_refund,
}
use card_payment_service.Payment.Transactions.{
  get_tx_authorized, save_transaction, create_refund_and_update_tx,
}
use card_payment_service.Payment.History.{Event, handle, run}
use card_payment_service.Payment.Service.{
  or_panic, must_parse_uuid, tokenize_card_to_gateway, acquire_lock, finish, charge_with,
  charge_or_replay, authorize, charge, capture_time, capture_locked, void_locked, with_lock,
  capture, void, refund_locked, refund_or_replay, refund,
}

module _ {x : Externals} (li : TableLaws x.idempotency_keys idempotency_key_columns) where
  -- No row of an idempotency key is lost or changed; and, if so asked, the table of refunds is as
  -- it was.
  pub record Footprint (strict : Bool) (w v : World x) : Type 0 where
    pub refunds : strict ≡ true → v.refunds ≡ w.refunds
    pub keys :
        (k : Uuid) (r : IdempotencyKey)
        → li.at w.idempotency_keys k ≡ some r
        → li.at v.idempotency_keys k ≡ some r

  pub Footprint-preorder : (strict : Bool) → IsPreorder (Footprint strict)
  Footprint-preorder strict = record {
    same = λ w. record { refunds = λ e. refl; keys = λ k r e. e };
    trans = λ u v w h k. record {
      refunds = λ e. k.refunds e ∙ h.refunds e;
      keys = λ j r e. k.keys j r (h.keys j r e);
    };
  }

  pub on_transactions-same :
      {strict : Bool} {A : Type 0} (f : x.transactions.State → Reply A × x.transactions.State)
      → Keeps (Footprint strict) Anything (on_transactions {x = x} f)
  unfolding on_transactions
  on_transactions-same f = record {
    at = λ w. (record { refunds = λ e. refl; keys = λ k r e. e }, Gives-any_result _);
  }

  Found-keys :
      (w : World x) (p : Time → IdempotencyKey → Bool)
      (r : Reply IdempotencyKey × x.idempotency_keys.State)
      → Found idempotency_key_columns li.at li.clock p w.idempotency_keys r
      → (k : Uuid) → li.at r.1 k ≡ li.at w.idempotency_keys k
  Found-keys w p (inl row, s) h k = h.2 k
  Found-keys w p (inr e, s) h k = h.1 k

  Created-keys :
      (w : World x) (row : IdempotencyKey) (r : Reply IdempotencyKey × x.idempotency_keys.State)
      → Created idempotency_key_columns li.at li.clock row w.idempotency_keys r
      → (k : Uuid) (q : IdempotencyKey) → li.at w.idempotency_keys k ≡ some q
      → li.at r.1 k ≡ some q
  Created-keys w row (inl row', s) h k q e =
      let apart = h.1 k q e in
      let its_key = li.at_key w.idempotency_keys k q e in h.2 k ∙ rw (other its_key apart) e
    where
      other : q.key ≡ k → (q.key == row.key) ≡ false → (row.key == k) ≡ false
      other same apart = ground (arith, same, apart)
  Created-keys w row (inr e', s) h k q e = h k ∙ e

  pub first-same :
      {strict : Bool} (p : Time → IdempotencyKey → Bool)
      → Keeps (Footprint strict) Anything (on_idempotency_keys {x = x} (x.idempotency_keys.first p))
  unfolding on_idempotency_keys
  first-same p = record {
    at = λ w. (
      record {
        refunds = λ e. refl;
        keys = λ k r e. Found-keys w p _ (li.first_lem p w.idempotency_keys) k ∙ e;
      },
      Gives-any_result _,
    );
  }

  pub find_idempotency_key-same :
      {strict : Bool} (key merchant_id : Uuid)
      → Keeps (Footprint strict) Anything (find_idempotency_key x key merchant_id)
  unfolding find_idempotency_key ◌>>=◌ on_idempotency_keys
  find_idempotency_key-same key merchant_id =
      search (any_rules, Footprint-preorder, first-same) depth 9

  pub create_idempotency_key-same :
      {strict : Bool} (row : IdempotencyKey)
      → Keeps (Footprint strict) Anything (create_idempotency_key x row)
  unfolding create_idempotency_key on_idempotency_keys
  create_idempotency_key-same row = record {
    at = λ w. (
      record {
        refunds = λ e. refl;
        keys = Created-keys w row _ (li.create_lem row w.idempotency_keys);
      },
      Gives-any_result _,
    );
  }

  pub on_redis-same :
      {strict : Bool} {A : Type 0} (f : x.redis.State → Reply A × x.redis.State)
      → Keeps (Footprint strict) Anything (on_redis {x = x} f)
  unfolding on_redis
  on_redis-same f = record {
    at = λ w. (record { refunds = λ e. refl; keys = λ k r e. e }, Gives-any_result _);
  }

  pub on_refunds-same :
      {A : Type 0} (f : x.refunds.State → Reply A × x.refunds.State)
      → Keeps (Footprint false) Anything (on_refunds {x = x} f)
  unfolding on_refunds
  on_refunds-same f = record {
    at = λ w. (record { refunds = λ e. cc; keys = λ k r e. e }, Gives-any_result _);
  }

  pub take_outside-same :
      {strict : Bool} {A : Type 0} (f : x.Outside → A × x.Outside)
      → Keeps (Footprint strict) Anything (take_outside {x = x} f)
  unfolding take_outside
  take_outside-same f = record { at = λ w. (record { refunds = λ e. refl; keys = λ k r e. e }, tt) }

  pub send-same :
      {strict : Bool} {A : Type 0} (c : Call) (m : M x.Outside A)
      → Keeps (Footprint strict) Anything (send {x = x} c m)
  unfolding send
  send-same c m = record {
    at = λ w. (record { refunds = λ e. refl; keys = λ k r e. e }, Gives-any_result _);
  }

  pub spawn-same :
      {strict : Bool} (job : SaveJob) → Keeps (Footprint strict) Anything (spawn {x = x} job)
  unfolding spawn
  spawn-same job = record { at = λ w. (record { refunds = λ e. refl; keys = λ k r e. e }, tt) }

pub ruleset same_rules = (
  any_rules, Footprint-preorder, on_transactions-same, find_idempotency_key-same,
  create_idempotency_key-same, on_redis-same, take_outside-same, send-same, spawn-same,
)
