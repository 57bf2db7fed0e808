-- ===== src/Tests/Locks.antt =====
-- Runs of the lock, and its theorems at concrete inputs.
use card_payment_service.Prelude.{String, Option, ◌≡◌, ◌⊎◌, refl, sym, ◌∙◌, some, [], ◌∷◌}
use card_payment_service.Domain.{redis_nil}
use card_payment_service.Effect.{err}
use card_payment_service.Effect.Triple.{Ends}
use card_payment_service.External.RedisMemory.{memory_redis-RedisLaws, memory_redis-view}
use card_payment_service.World.{World}
use card_payment_service.Lock.{acquire, release}
use card_payment_service.Lock.Keys.{
  AfterRelease, MaybeReleased, release_lem, IsHeld, IsNotHeld, MaybeHeld, acquire_lem,
}
use card_payment_service.Payment.Types.{CaptureInput}
use card_payment_service.Payment.Service.{acquire_lock, with_lock, capture, capture_locked}
use card_payment_service.Payment.Exclusion.{IsTurnedAway, with_lock_held}
use card_payment_service.Payment.Exclusion.Interleaved.{
  outside, inside, move, System, Step, Reach, IsExclusive, Reach-IsExclusive,
}
use card_payment_service.Payment.Exclusion.Mutex.{
  Mutex, MutexRun, at_rest, Represents, Follows, Reach-MutexRun,
}
use card_payment_service.Demo.{demo, demo_gateway, demo_world}
use card_payment_service.Tests.Open.{service_run}

abbrev the_row : CaptureInput
the_row = record { transaction_id = 7; merchant_id = 3 }

-- another request holds the lock of transaction 7
abbrev held_world : World demo
held_world = record demo_world { redis = ("lock:tx:1111111u", "u11") ∷ [] }

capture_held : (capture demo demo_gateway the_row held_world).0 ≡ err redis_nil
unfolding service_run
capture_held = refl

lock_view : memory_redis-RedisLaws.view held_world.redis "lock:tx:1111111u" ≡ some "u11"
unfolding service_run
lock_view = memory_redis-view held_world.redis "lock:tx:1111111u"

with_lock_held_example :
    let r = with_lock demo demo_gateway 7 (capture_locked demo demo_gateway the_row) held_world in
    IsTurnedAway demo memory_redis-RedisLaws demo_gateway held_world r.0 r.1
unfolding service_run
with_lock_held_example =
    with_lock_held demo memory_redis-RedisLaws demo_gateway 7
      (capture_locked demo demo_gateway the_row) held_world "u11" lock_view

acquire_lem_example :
    let (r, v) = acquire demo "lock:tx:u1" 5_000 held_world in
    Ends
      (λ a v.
        IsHeld demo memory_redis-RedisLaws "lock:tx:u1" held_world a v
        ⊎ ((a ≡ "") × IsNotHeld demo memory_redis-RedisLaws held_world v))
      (λ _ _. ⊥)
      (MaybeHeld demo memory_redis-RedisLaws "lock:tx:u1" held_world)
      (λ _. ⊥)
      r
      v
acquire_lem_example = acquire_lem demo memory_redis-RedisLaws "lock:tx:u1" 5_000 held_world

release_lem_example :
    let (r, v) = release demo "lock:tx:1111111u" "u11" held_world in
    Ends
      (λ _. AfterRelease demo memory_redis-RedisLaws "lock:tx:1111111u" "u11" held_world)
      (λ (_ : Unit {0}) _. ⊥)
      (MaybeReleased demo memory_redis-RedisLaws "lock:tx:1111111u" "u11" held_world)
      (λ _. ⊥)
      r
      v
release_lem_example = release_lem demo memory_redis-RedisLaws "lock:tx:1111111u" "u11" held_world

abbrev Race : Type 0
Race = System demo memory_redis-RedisLaws demo_gateway 7

abbrev waiting : Race
waiting = record { world = demo_world; place = λ i. outside }

-- the first request is inside
abbrev entered : Race
entered = record {
  world = (acquire_lock demo demo_gateway 7 demo_world).1;
  place = move 0 (inside "11111111111111111111u") waiting.place;
}

-- the second has tried, and is turned away
abbrev tried : Race
tried = record { world = (acquire_lock demo demo_gateway 7 entered.world).1; place = entered.place }

tried_view :
    memory_redis-RedisLaws.view tried.world.redis "lock:tx:1111111u" ≡ some "11111111111111111111u"
unfolding service_run
tried_view = memory_redis-view tried.world.redis "lock:tx:1111111u"

race : Reach demo memory_redis-RedisLaws demo_gateway 7 tried
unfolding service_run
race =
    Reach.later
      (Reach.later (Reach.start demo_world) (Step.enter 0 "11111111111111111111u" refl refl))
      (Step.turned_away 1 redis_nil refl refl (λ j value e h gone. cc (sym tried_view ∙ gone)))

Reach-IsExclusive_example : IsExclusive demo memory_redis-RedisLaws demo_gateway 7 tried
Reach-IsExclusive_example = Reach-IsExclusive demo memory_redis-RedisLaws demo_gateway 7 race

Reach-MutexRun_example :
    (o : Option String) × (m : Mutex) × MutexRun
      (at_rest demo memory_redis-RedisLaws demo_gateway 7 o)
      m
    × Represents demo memory_redis-RedisLaws demo_gateway 7 m tried
    × ((t : Race) (step : Step demo memory_redis-RedisLaws demo_gateway 7 tried t)
        → Follows demo memory_redis-RedisLaws demo_gateway 7 m step)
Reach-MutexRun_example = Reach-MutexRun demo memory_redis-RedisLaws demo_gateway 7 race
