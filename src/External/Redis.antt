-- ===== src/External/Redis.antt =====
-- The commands of Redis that internal/infra/redis/lock.go sends, and what is documented of them.
-- `view` shows the keys that have not expired, and `lapses` says whether the time of a key is over
-- before a command that begins in a state has ended: no other key expires while it runs.
use card_payment_service.Prelude.{
  ℕ, String, Bool, true, ◌≡◌, ◌≢◌, Option, none, some, ◌⊎◌, inl, inr, if◌then◌else◌, str_eq,
}
use card_payment_service.Domain.{Error}
use card_payment_service.External.Table.{Reply}

pub record Redis : Type 1 where
  pub State : Type 0
  -- `SetArgs(ctx, key, value, SetArgs{Mode: "NX", TTL: ttl}).Result()`
  pub set_args_nx : String → String → ℕ → State → Reply String × State
  -- `redis.call("GET", key)` and `redis.call("DEL", key)` of a script
  pub get : String → State → Option String
  pub del : String → State → ℕ × State
  -- `Script.Run(...).Result()`: a script runs with no other command in between
  pub run : (State → ℕ × State) → State → Reply ℕ × State

module _ {State : Type 0} (view : State → String → Option String)
    (lapses : State → String → Bool) where
  -- After a command that began in the state, a key is as the command has left it, or its time was
  -- over meanwhile.
  abbrev pub Lapses : State → String → Option String → Option String → Type 0
  Lapses s j before after = (after ≡ before) ⊎ ((after ≡ none) × (lapses s j ≡ true))

  -- "OK": the key was free, and now has the value. Any other reply leaves the keys alone, but
  -- where the reply is lost the value may have been written to a free key.
  abbrev pub Set : String → String → State → Reply String × State → Type 0
  Set key value s (inl reply, s') =
      (reply ≡ "OK" → (view s key ≡ none) × (view s' key ≡ some value))
      × ((j : String) → (reply ≡ "OK" → j ≢ key) → Lapses s j (view s j) (view s' j))
  Set key value s (inr e, s') =
      (j : String)
      → Lapses s j (view s j) (view s' j)
        ⊎ ((j ≡ key) × (view s j ≡ none) × (view s' j ≡ some value))

  -- A script that is answered has run. Where the answer is lost, it may have run or not.
  abbrev pub Ran : (State → ℕ × State) → State → Reply ℕ × State → Type 0
  Ran script s (inl n, s') = (j : String) → Lapses s j (view (script s).1 j) (view s' j)
  Ran script s (inr e, s') =
      ((j : String) → Lapses s j (view (script s).1 j) (view s' j))
      ⊎ ((j : String) → Lapses s j (view s j) (view s' j))

pub record RedisLaws (r : Redis) : Type 0 where
  pub view : r.State → String → Option String
  pub lapses : r.State → String → Bool
  pub get_lem : (key : String) (s : r.State) → r.get key s ≡ view s key
  pub del_lem :
      (key j : String) (s : r.State)
      → view (r.del key s).1 j ≡ (if str_eq key j then none else view s j)
  pub set_lem :
      (key value : String) (ttl : ℕ) (s : r.State)
      → Set view lapses key value s (r.set_args_nx key value ttl s)
  -- the nil reply, on which the client answers the error `redis.Nil`
  pub set_held :
      (key value held : String) (ttl : ℕ) (s : r.State)
      → view s key ≡ some held
      → (e : Error) × ((r.set_args_nx key value ttl s).0 ≡ inr e)
  pub run_lem :
      (script : r.State → ℕ × r.State) (s : r.State) → Ran view lapses script s (r.run script s)
