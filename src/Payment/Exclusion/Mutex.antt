-- ===== src/Payment/Exclusion/Mutex.antt =====
-- The lock of a transaction against an abstract mutex: free, held by one request, or left behind,
-- with a value in the key and nobody inside, until the key's time is over.
use card_payment_service.Prelude.{
  ℕ, String, ◌≡◌, ◌≢◌, ◌⊎◌, refl, sym, ap, ◌∙◌, Option, none, some, inl, inr, true, ==_iff, str_eq,
  eq_iff, arith,
}
use card_payment_service.Domain.{Uuid, Error}
use card_payment_service.Effect.{Result, ok, err, both, panic}
use card_payment_service.Effect.Triple.{Ends}
use card_payment_service.External.Redis.{RedisLaws}
use card_payment_service.Gateway.{Gateway}
use card_payment_service.World.{Externals, World}
use card_payment_service.Lock.{release}
use card_payment_service.Lock.Keys.{AfterRelease, MaybeReleased, released, release_lem}
use card_payment_service.Payment.Exclusion.Interleaved.{
  Place, inside, outside, move, moved, key, lock, System, Step, Reach, IsExclusive, nobody,
  entered_key, Reach-IsExclusive,
}

pub data Mutex : Type 0 where
  free : Mutex
  held : ℕ → Mutex
  left_behind : Mutex

pub data MutexStep : Mutex → Mutex → Type 0 where
  lock_by : (i : ℕ) → MutexStep free (held i)
  unlock_by : (i : ℕ) → MutexStep (held i) free
  -- the reply of a release, or of an attempt to lock, is lost
  abandon : (i : ℕ) → MutexStep (held i) left_behind
  strand : MutexStep free left_behind
  -- the time of the key is over
  expire : MutexStep left_behind free
  stay : (m : Mutex) → MutexStep m m

pub data MutexRun : Mutex → Mutex → Type 0 where
  begin : (m : Mutex) → MutexRun m m
  then : {a m n : Mutex} → MutexRun a m → MutexStep m n → MutexRun a n

move_self : (i : ℕ) (p : Place) (place : ℕ → Place) → move i p place i ≡ p
move_self i p place = rw ((==_iff i i).1 refl) refl

abbrev pub Nobody : (ℕ → Place) → Type 0
Nobody place = (i : ℕ) (value : String) → place i ≢ inside value

module _ (x : Externals) (l : RedisLaws x.redis) (g : Gateway x.Outside) (id : Uuid) where
  -- The mutex that a state stands for: free where nobody is inside and the key has no value, held
  -- by a request that alone is inside and whose value the key has, left behind where nobody is
  -- inside and the key has a value.
  abbrev pub Represents : Mutex → System x l g id → Type 0
  Represents free s = (lock x l g id s ≡ none) × Nobody s.place
  Represents (held i) s =
      ((value : String) × (s.place i ≡ inside value) × (lock x l g id s ≡ some value))
      × ((j : ℕ) (value : String) → s.place j ≡ inside value → i ≡ j)
  Represents left_behind s = ((value : String) × (lock x l g id s ≡ some value)) × Nobody s.place

  -- The mutex of a key with nobody inside.
  abbrev pub at_rest : Option String → Mutex
  at_rest none = free
  at_rest (some value) = left_behind

  rest-Represents :
      (s : System x l g id) (o : Option String)
      → lock x l g id s ≡ o
      → Nobody s.place
      → Represents (at_rest o) s
  rest-Represents s none e nobody_in = (e, nobody_in)
  rest-Represents s (some value) e nobody_in = ((value, e), nobody_in)

  -- A release that was answered has freed the mutex.
  abbrev pub Unlocks : {s t : System x l g id} → Step x l g id s t → Mutex → Type 0
  Unlocks {s} (Step.leave i value in_i) n =
      (n ≡ free) ⊎ ((e : Error) × ((release x (key x l g id) value s.world).0 ≡ err e))
  Unlocks _ n = Unit

  -- The mutex follows a step.
  abbrev pub Follows : Mutex → {s t : System x l g id} → Step x l g id s t → Type 0
  Follows m {s} {t} step = (n : Mutex) × MutexStep m n × Represents n t × Unlocks step n

  from_rest : (m o : Option String) → MutexStep (at_rest m) (at_rest o)
  from_rest none none = MutexStep.stay _
  from_rest none (some b) = MutexStep.strand
  from_rest (some a) none = MutexStep.expire
  from_rest (some a) (some b) = MutexStep.stay _

  to_rest : (i : ℕ) (o : Option String) → MutexStep (held i) (at_rest o)
  to_rest i none = MutexStep.unlock_by i
  to_rest i (some a) = MutexStep.abandon i

  -- The key after the release of the value that it had.
  freed :
      (value : String) (w v : World x) (r : Result (Unit {0}))
      → l.view w.redis (key x l g id) ≡ some value
      → Ends
          (λ _. AfterRelease x l (key x l g id) value w)
          (λ (_ : Unit {0}) _. ⊥)
          (MaybeReleased x l (key x l g id) value w)
          (λ _. ⊥)
          r
          v
      → (l.view v.redis (key x l g id) ≡ none) ⊎ ((e : Error) × (r ≡ err e))
  freed value w v (ok a) e h =
      let at = key x l g id in
      let same : str_eq at at ≡ true = (eq_iff at at).1 refl in
      let own : str_eq value value ≡ true = (eq_iff value value).1 refl in
      let gone : released x l at value w.redis at ≡ none = rw (same, e, own) refl in
      elim (h at) [ inl done ↦ inl (done ∙ gone) | inr over ↦ inl over.0 ]
  freed value w v (err f) e h = inr (f, refl)
  freed value w v (both a f) e h = absurd h
  freed value w v (panic p) e h = absurd h

  left :
      (s : System x l g id) (i : ℕ) (value : String)
      → IsExclusive x l g id s
      → s.place i ≡ inside value
      → Nobody (move i outside s.place)
  left s i value ex in_i j b e = elim (moved i j _ _ s.place e) [
    | inl same ↦ ground arith
    | inr other ↦ other.0 (ex.alone i j value b in_i other.1)
  ]

  Step-Follows :
      {s t : System x l g id} (m : Mutex)
      → IsExclusive x l g id s
      → IsExclusive x l g id t
      → Represents m s
      → (step : Step x l g id s t) → Follows m step
  Step-Follows {s} free ex ex' rep (Step.enter i value out e) =
      let self = move_self i (inside value) s.place in
      (
        held i,
        MutexStep.lock_by i,
        ((value, self, ex'.holds i value self), λ j b in_j. ex'.alone i j value b self in_j),
        tt,
      )
  Step-Follows {s} (held k) ex ex' rep (Step.enter i value out e) =
      absurd (nobody x l g id s ex (entered_key x l g id s value e).1 k rep.0.0 rep.0.1)
  Step-Follows {s} left_behind ex ex' rep (Step.enter i value out e) =
      let both : some rep.0.0 ≡ none = sym rep.0.1 ∙ (entered_key x l g id s value e).1 in cc
  Step-Follows {t = t} free ex ex' rep (Step.turned_away i e out failure in_time) =
      let o = lock x l g id t in (at_rest o, from_rest none o, rest-Represents t o refl rep.1, tt)
  Step-Follows {t = t} left_behind ex ex' rep (Step.turned_away i e out failure in_time) =
      let o = lock x l g id t in
      (at_rest o, from_rest (some rep.0.0) o, rest-Represents t o refl rep.1, tt)
  Step-Follows (held k) ex ex' rep (Step.turned_away i e out failure in_time) = (
    held k,
    MutexStep.stay (held k),
    ((rep.0.0, rep.0.1, ex'.holds k rep.0.0 rep.0.1), rep.1),
    tt,
  )
  Step-Follows free ex ex' rep (Step.work i value body in_i keys in_time) =
      absurd (rep.1 i value in_i)
  Step-Follows left_behind ex ex' rep (Step.work i value body in_i keys in_time) =
      absurd (rep.1 i value in_i)
  Step-Follows (held k) ex ex' rep (Step.work i value body in_i keys in_time) = (
    held k,
    MutexStep.stay (held k),
    ((rep.0.0, rep.0.1, ex'.holds k rep.0.0 rep.0.1), rep.1),
    tt,
  )
  Step-Follows free ex ex' rep (Step.leave i value in_i) = absurd (rep.1 i value in_i)
  Step-Follows left_behind ex ex' rep (Step.leave i value in_i) = absurd (rep.1 i value in_i)
  Step-Follows {s} {t} (held k) ex ex' rep (Step.leave i value in_i) =
      let o = lock x l g id t in
      (
        at_rest o,
        to_rest k o,
        rest-Represents t o refl (left s i value ex in_i),
        elim (freed value s.world t.world _ (ex.holds i value in_i)
            (release_lem x l (key x l g id) value s.world)) [
              | inl none_there ↦ inl (ap at_rest none_there)
              | inr lost ↦ inr lost
            ],
      )

  -- The mutex that a state was reached with, from one at rest.
  abbrev pub Refines : System x l g id → Type 0
  Refines s = (o : Option String) × (m : Mutex) × MutexRun (at_rest o) m × Represents m s

  reached : {s : System x l g id} → Reach x l g id s → Refines s
  reached {s} (Reach.start w) =
      let o = lock x l g id s in
      (o, at_rest o, MutexRun.begin _, rest-Represents s o refl (λ i value e. ground arith))
  reached (Reach.later r step) =
      let (o, m, run, rep) = reached r in
      let (n, moves, rep_n, unlocks) =
        Step-Follows m (Reach-IsExclusive x l g id r)
          (Reach-IsExclusive x l g id (Reach.later r step)) rep step in
      (o, n, MutexRun.then run moves, rep_n)

  -- The lock of a transaction refines a mutex that is free, held by one request, or left behind.
  -- Every state that interleaved requests reach, while the time of the lock is not over for a request that is inside, stands for a state that the mutex
  -- reaches from one with nobody inside, and the key has a value unless the mutex is free. Every further
  -- call of a request is a step of the mutex or none: it is locked only while it is free, and
  -- unlocked by the release of the request that holds it, which leaves it free unless it answers an error.
  pub Reach-MutexRun :
      {s : System x l g id}
      → Reach x l g id s
      → (o : Option String) × (m : Mutex) × MutexRun (at_rest o) m
        × Represents m s
        × ((t : System x l g id) (step : Step x l g id s t) → Follows m step)
  Reach-MutexRun r =
      let (o, m, run, rep) = reached r in
      (
        o,
        m,
        run,
        rep,
        λ t step.
            Step-Follows m (Reach-IsExclusive x l g id r)
              (Reach-IsExclusive x l g id (Reach.later r step)) rep step,
      )
