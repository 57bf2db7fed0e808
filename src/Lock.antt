-- ===== src/Lock.antt =====
-- internal/infra/redis/lock.go: a lock that is a Redis key with a random value. Only the holder's
-- value releases it.
pub mod Keys
use card_payment_service.Prelude.{ℕ, String, none, some, not, str_eq, if◌then◌else◌}
use card_payment_service.Effect.{M, pure, ◌>>=◌}
use card_payment_service.World.{Externals, World, on_redis, take_outside}

module _ (x : Externals) where
  -- the Lua script of `Release`
  unfoldable pub release_script : String → String → x.redis.State → ℕ × x.redis.State
  release_script key value s = elim (x.redis.get key s) [
    | some held ↦ if str_eq held value then x.redis.del key s else (0, s)
    | none ↦ (0, s)
  ]

  -- `redisLock.Acquire`: "" where the lock is not had
  unfoldable pub acquire : String → ℕ → M (World x) String
  acquire key ttl = do
    id ← take_outside x.new_uuid
    let value = x.uuid_text id
    res ← on_redis (x.redis.set_args_nx key value ttl)
    pure (if not (str_eq res "OK") then "" else value)

  -- `redisLock.Release`
  unfoldable pub release : String → String → M (World x) (Unit {0})
  unfolding release_script
  release key value = do _ ← on_redis (x.redis.run (release_script key value)); pure tt
