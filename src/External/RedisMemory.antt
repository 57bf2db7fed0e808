-- ===== src/External/RedisMemory.antt =====
-- Redis in memory: a list of keys and values, where no key expires and no reply is lost.
use card_payment_service.Prelude.{
  String, ◌≡◌, refl, Option, none, some, false, inl, inr, if◌then◌else◌, List, [], ◌∷◌, str_eq,
  eq_iff, arith,
}
use card_payment_service.Domain.{Error, redis_nil}
use card_payment_service.External.Table.{Reply}
use card_payment_service.External.Redis.{Redis, RedisLaws, Set}

unfoldable pub lookup : List (String × String) → String → Option String
lookup [] key = none
lookup ((k, v) ∷ rest) key = if str_eq k key then some v else lookup rest key

unfoldable pub erase : String → List (String × String) → List (String × String)
erase key [] = []
erase key ((k, v) ∷ rest) = if str_eq key k then erase key rest else (k, v) ∷ erase key rest

abbrev set_reply :
    Option String → String → String → List (String × String) → Reply String × List (String × String)
set_reply (some held) key value s = (inr redis_nil, s)
set_reply none key value s = (inl "OK", (key, value) ∷ s)

abbrev pub memory_redis : Redis
memory_redis = record {
  State = List (String × String);
  set_args_nx = λ key value ttl s. set_reply (lookup s key) key value s;
  get = λ key s. lookup s key;
  del = λ key s. (1, erase key s);
  run = λ script s. (inl (script s).0, (script s).1);
}

lookup-erase :
    (key j : String) (s : List (String × String))
    → lookup (erase key s) j ≡ (if str_eq key j then none else lookup s j)
unfolding lookup erase
lookup-erase key j [] = ground arith
lookup-erase key j ((k, v) ∷ rest) =
    ground (arith, eq_iff key j, eq_iff key k, eq_iff k j, lookup-erase key j rest)

set_reply-Set :
    (key value : String) (s : List (String × String)) (o : Option String)
    → lookup s key ≡ o
    → Set lookup (λ s j. false) key value s (set_reply o key value s)
unfolding lookup
set_reply-Set key value s (some held) e = λ j. inl (inl refl)
set_reply-Set key value s none e =
    (λ _. (e, ground (arith, eq_iff key key)), λ j ne. ground (arith, eq_iff key j, ne refl))

set_reply-held :
    (key value held : String) (s : List (String × String)) (o : Option String)
    → o ≡ some held
    → (e : Error) × ((set_reply o key value s).0 ≡ inr e)
set_reply-held key value held s (some v) e = (redis_nil, refl)
set_reply-held key value held s none e = cc

pub memory_redis-RedisLaws : RedisLaws memory_redis
memory_redis-RedisLaws = record {
  view = lookup;
  lapses = λ s j. false;
  get_lem = λ key s. refl;
  del_lem = λ key j s. lookup-erase key j s;
  set_lem = λ key value ttl s. set_reply-Set key value s _ refl;
  set_held = λ key value held ttl s e. set_reply-held key value held s _ e;
  run_lem = λ script s j. inl refl;
}

pub memory_redis-view :
    (s : List (String × String)) (key : String) → memory_redis-RedisLaws.view s key ≡ lookup s key
unfolding memory_redis-RedisLaws
memory_redis-view s key = refl
