-- ===== src/Payment/Idempotency.antt =====
-- internal/service/payment_idempotency.go. `decode` is `json.Unmarshal` at the type of `dest`.
use card_payment_service.Prelude.{Option, none, some, ◌+◌, ◌*◌}
use card_payment_service.Domain.{Uuid, Time, Json, IdempotencyKey}
use card_payment_service.Effect.{M, pure, catch, ◌>>=◌}
use card_payment_service.World.{Externals, World, SaveJob, take_outside}
use card_payment_service.Repository.{create_idempotency_key, find_idempotency_key}

-- `24 * time.Hour`, in nanoseconds
abbrev pub one_day : Time
one_day = 24 * 3_600_000_000_000

abbrev pub cached_response : {A : Type 0} → (Json → Option A) → Option IdempotencyKey → Option A
cached_response decode none = none
cached_response decode (some row) = decode row.response

module _ (x : Externals) where
  -- `cachedIdempotency`: the decoded response where it answers true; every error is a miss
  unfoldable pub cached_idempotency :
      {A : Type 0} → (Json → Option A) → Uuid → Uuid → M (World x) (Option A)
  cached_idempotency decode key merchant_id =
      catch (find_idempotency_key x key merchant_id) (λ _. pure none)
        (λ row. pure (cached_response decode row))

  -- `saveIdempotency`, as it runs in the background; its error is only logged
  unfoldable pub save_idempotency : SaveJob → M (World x) (Unit {0})
  save_idempotency job = do
    now ← take_outside x.now
    catch
        (create_idempotency_key x (record {
          key = job.key;
          merchant_id = job.merchant_id;
          response = job.response;
          expires_at = now + one_day;
          created_at = 0;
        }))
        (λ _. pure tt) (λ _. pure tt)
