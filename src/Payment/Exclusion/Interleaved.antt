-- ===== src/Payment/Exclusion/Interleaved.antt =====
-- Requests on one transaction that overlap in time. Each is outside of the lock or inside, with
-- the value that it has stored; a step is one call of one request: `aquireLock`, a call of what
-- runs under the lock, or the deferred `Release`.
use card_payment_service.Prelude.{
  ℕ, String, ◌≡◌, ◌≢◌, ◌⊎◌, refl, sym, ap, subst, ◌∙◌, Option, none, some, false, inl, inr, ◌==◌,
  ==_iff, Bool-cases, str_eq, eq_iff, if◌then◌else◌, arith,
}
use card_payment_service.Domain.{Uuid, Error}
use card_payment_service.Effect.{M, Result, ok, err, deferred}
use card_payment_service.Effect.Runs.{>>=_ok}
use card_payment_service.Effect.Triple.{
  Ends, Ends-after, Triple, Triple-pure, Triple-raise_if, Triple-bind,
}
use card_payment_service.External.Redis.{RedisLaws, Lapses}
use card_payment_service.Gateway.{Gateway}
use card_payment_service.World.{Externals, World}
use card_payment_service.Lock.{acquire, release}
use card_payment_service.Lock.Keys.{IsHeld, IsNotHeld, MaybeHeld, acquire_lem}
use card_payment_service.Payment.Guards.{Never}
use card_payment_service.Payment.Service.{acquire_lock, with_lock, lock_key, lock_ttl}

-- Over any number of commands, a key is as before, or its time was over.
abbrev pub Expires : Option String → Option String → Type 0
Expires before after = (after ≡ before) ⊎ (after ≡ none)

-- where a request stands
pub data Place : Type 0 where
  outside : Place
  inside : String → Place

abbrev pub move : ℕ → Place → (ℕ → Place) → ℕ → Place
move i p place j = if i == j then p else place j

pub moved :
    (i j : ℕ) (p q : Place) (place : ℕ → Place)
    → move i p place j ≡ q
    → ((i ≡ j) × (p ≡ q)) ⊎ ((i ≢ j) × (place j ≡ q))
moved i j p q place h = elim (Bool-cases (i == j)) [
  | inl e ↦ inl ((==_iff i j).0 e, ground arith)
  | inr e ↦ inr (λ same. cc ((==_iff i j).1 same), ground arith)
]

still_held :
    (o o' : Option String) (value : String)
    → o ≡ some value
    → Expires o o'
    → o' ≢ none
    → o' ≡ some value
still_held o o' value e (inl same) h = same ∙ e
still_held o o' value e (inr gone) h = absurd (h gone)

module _ (x : Externals) (l : RedisLaws x.redis) (g : Gateway x.Outside) (id : Uuid) where
  abbrev pub key : String
  key = lock_key (x.uuid_text id)

  pub record System : Type 0 where
    pub world : World x
    pub place : ℕ → Place

  abbrev pub lock : System → Option String
  lock s = l.view s.world.redis key

  -- The time of the lock is not over for a request that is inside: its key has not expired.
  abbrev pub InTime : System → World x → Type 0
  InTime s v =
      (j : ℕ) (value : String)
      → s.place j ≡ inside value
      → lock s ≡ some value
      → l.view v.redis key ≢ none

  -- One call of the request `i`.
  pub data Step (s : System) : System → Type 1 where
    enter :
        (i : ℕ) (value : String)
        → s.place i ≡ outside
        → (acquire_lock x g id s.world).0 ≡ ok value
        → Step s (record {
          world = (acquire_lock x g id s.world).1;
          place = move i (inside value) s.place;
        })
    turned_away :
        (i : ℕ) (e : Error)
        → s.place i ≡ outside
        → (acquire_lock x g id s.world).0 ≡ err e
        → InTime s (acquire_lock x g id s.world).1
        → Step s (record { world = (acquire_lock x g id s.world).1; place = s.place })
    -- any call that leaves the keys alone, as those under the lock do
    work :
        (i : ℕ) (value : String) {A : Type 0} (m : M (World x) A)
        → s.place i ≡ inside value
        → ((j : String) → Expires (l.view s.world.redis j) (l.view (m s.world).1.redis j))
        → InTime s (m s.world).1
        → Step s (record { world = (m s.world).1; place = s.place })
    leave :
        (i : ℕ) (value : String)
        → s.place i ≡ inside value
        → Step s
            (record { world = (release x key value s.world).1; place = move i outside s.place })

  -- The states that are reached from one where every request is outside.
  pub data Reach : System → Type 1 where
    start : (w : World x) → Reach (record { world = w; place = λ i. outside })
    later : {s t : System} → Reach s → Step s t → Reach t

  -- A request inside has its value in the key, and is alone.
  pub record IsExclusive (s : System) : Type 0 where
    pub holds : (i : ℕ) (value : String) → s.place i ≡ inside value → lock s ≡ some value
    pub alone : (i j : ℕ) (a b : String) → s.place i ≡ inside a → s.place j ≡ inside b → i ≡ j

  -- How an attempt that has failed leaves the key.
  abbrev Failed : World x → World x → Type 0
  Failed w v = Expires (l.view w.redis key) (l.view v.redis key) ⊎ (l.view w.redis key ≡ none)

  expired :
      (s : x.redis.State) (j : String) (before after : Option String)
      → Lapses l.view l.lapses s j before after
      → Expires before after
  expired s j before after (inl same) = inl same
  expired s j before after (inr over) = inr over.0

  acquire-Failed : (w v : World x) → MaybeHeld x l key w v → Failed w v
  acquire-Failed w v h = elim (h key) [ inl e ↦ inl (expired _ _ _ _ e) | inr new ↦ inr new.1 ]

  acquire-triple :
      (w : World x)
      → Triple
          (λ v. v ≡ w)
          (acquire x key lock_ttl)
          (λ a v. IsHeld x l key w a v ⊎ ((a ≡ "") × IsNotHeld x l w v))
          (λ _. Failed w)
          (Failed w)
          Never
  acquire-triple w = record {
    at = λ v e. rw e (
        Ends-after (λ a u. IsHeld x l key w a u ⊎ ((a ≡ "") × IsNotHeld x l w u)) _ (λ _ _. ⊥) _
          (MaybeHeld x l key w) _ (λ _. ⊥) _ (acquire x key lock_ttl w).0
          (acquire x key lock_ttl w).1 (λ a h. h) (λ a h. absurd h)
          (acquire-Failed w (acquire x key lock_ttl w).1) (λ h. h)
          (acquire_lem x l key lock_ttl w));
  }

  not_had :
      (w v : World x) (value : String)
      → IsHeld x l key w value v ⊎ ((value ≡ "") × IsNotHeld x l w v)
      → Failed w v
  not_had w v value (inl h) = inr h.1
  not_had w v value (inr h) = inl (expired _ _ _ _ (h.1 key))

  had :
      (w v : World x) (value : String)
      → str_eq value "" ≡ false
      → IsHeld x l key w value v ⊎ ((value ≡ "") × IsNotHeld x l w v)
      → IsHeld x l key w value v
  had w v value e (inl h) = h
  had w v value e (inr h) = cc ((eq_iff value "").1 h.0)

  acquire_lock-triple :
      (w : World x)
      → Triple
          (λ v. v ≡ w)
          (acquire_lock x g id)
          (IsHeld x l key w)
          (λ _. Failed w)
          (Failed w)
          Never
  unfolding acquire_lock
  acquire_lock-triple w = Triple-bind (acquire-triple w) λ value.
      Triple-bind (Triple-raise_if (str_eq value "") _ (λ _ v h. not_had w v value h))
        λ _. Triple-pure value (λ v h. had w v value h.1 h.0)

  held :
      (w v : World x) (r : Result String) (value : String)
      → r ≡ ok value
      → Ends (IsHeld x l key w) (λ _. Failed w) (Failed w) Never r v
      → IsHeld x l key w value v
  held w v r value e h =
      subst (λ q. Ends (IsHeld x l key w) (λ _. Failed w) (Failed w) Never q v) e h

  pub failed :
      (w v : World x) (r : Result String) (e : Error)
      → r ≡ err e
      → Ends (IsHeld x l key w) (λ _. Failed w) (Failed w) Never r v
      → Failed w v
  failed w v r e h ends =
      subst (λ q. Ends (IsHeld x l key w) (λ _. Failed w) (Failed w) Never q v) h ends

  pub nobody :
      (s : System)
      → IsExclusive s
      → lock s ≡ none
      → (i : ℕ) (value : String) → s.place i ≢ inside value
  nobody s ex free i value e = let h : some value ≡ none = sym (ex.holds i value e) ∙ free in cc

  IsExclusive-same :
      (s : System) (v : World x)
      → IsExclusive s
      → Failed s.world v
      → InTime s v
      → IsExclusive (record { world = v; place = s.place })
  IsExclusive-same s v ex (inl h) in_time = record {
    holds = λ i value e.
        still_held (lock s) _ value (ex.holds i value e) h (in_time i value e (ex.holds i value e));
    alone = ex.alone;
  }
  IsExclusive-same s v ex (inr free) in_time = record {
    holds = λ i value e. absurd (nobody s ex free i value e);
    alone = ex.alone;
  }

  IsExclusive-enter :
      (s : System) (v : World x) (i : ℕ) (value : String)
      → IsExclusive s
      → IsHeld x l key s.world value v
      → IsExclusive (record { world = v; place = move i (inside value) s.place })
  IsExclusive-enter s v i value ex h = record {
    holds = λ j b e. elim (moved i j _ _ s.place e) [
      | inl same ↦ let one : value ≡ b = ground arith in h.2 ∙ ap some one
      | inr other ↦ absurd (nobody s ex h.1 j b other.1)
    ];
    alone = λ j k a b e f. elim (moved i j _ _ s.place e) [
      | inl same ↦ elim (moved i k _ _ s.place f) [
        | inl same' ↦ sym same.0 ∙ same'.0
        | inr other ↦ absurd (nobody s ex h.1 k b other.1)
      ]
      | inr other ↦ absurd (nobody s ex h.1 j a other.1)
    ];
  }

  IsExclusive-leave :
      (s : System) (v : World x) (i : ℕ) (value : String)
      → IsExclusive s
      → s.place i ≡ inside value
      → IsExclusive (record { world = v; place = move i outside s.place })
  IsExclusive-leave s v i value ex in_i = record {
    holds = λ j b e. absurd (left j b e);
    alone = λ j k a b e f. absurd (left j a e);
  }
    where
      left : (j : ℕ) (b : String) → move i outside s.place j ≢ inside b
      left j b e = elim (moved i j _ _ s.place e) [
        | inl same ↦ ground arith
        | inr other ↦ other.0 (ex.alone i j value b in_i other.1)
      ]

  pub entered_key :
      (s : System) (value : String)
      → (acquire_lock x g id s.world).0 ≡ ok value
      → IsHeld x l key s.world value (acquire_lock x g id s.world).1
  entered_key s value e = held s.world _ _ value e ((acquire_lock-triple s.world).at s.world refl)

  Step-IsExclusive : {s t : System} → Step s t → IsExclusive s → IsExclusive t
  Step-IsExclusive {s} (Step.enter i value out e) ex =
      IsExclusive-enter s _ i value ex (entered_key s value e)
  Step-IsExclusive {s} (Step.turned_away i e out failure in_time) ex =
      IsExclusive-same s _ ex
        (failed s.world _ _ e failure ((acquire_lock-triple s.world).at s.world refl)) in_time
  Step-IsExclusive {s} (Step.work i value m in_i keys in_time) ex =
      IsExclusive-same s _ ex (inl (keys key)) in_time
  Step-IsExclusive {s} (Step.leave i value in_i) ex = IsExclusive-leave s _ i value ex in_i

  -- `with_lock` is three such calls: what runs under the lock is the second.
  pub with_lock_steps :
      {A : Type 0} (body : M (World x) A) (w : World x) (value : String)
      → (acquire_lock x g id w).0 ≡ ok value
      → (with_lock x g id body w).1 ≡ (release x key value (body (acquire_lock x g id w).1).1).1
  unfolding with_lock deferred
  with_lock_steps body w value e =
      rw (>>=_ok (acquire_lock x g id) w (λ v. deferred (release x key v) body) e) refl

  -- However the calls of any number of requests on one transaction are interleaved, while the time
  -- of the lock is not over for a request that is inside, at most one request is inside at a time,
  -- and the key has its value.
  pub Reach-IsExclusive : {s : System} → Reach s → IsExclusive s
  Reach-IsExclusive (Reach.start w) = record {
    holds = λ i value e. absurd (ground arith);
    alone = λ i j a b e f. absurd (ground arith);
  }
  Reach-IsExclusive (Reach.later r step) = Step-IsExclusive step (Reach-IsExclusive r)
