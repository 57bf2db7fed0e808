-- ===== src/Merchant/Registration.antt =====
-- `Register`: the merchant and the key that it adds.
pub mod Keys
use card_payment_service.Prelude.{
  ℕ, String, ◌≡◌, ◌≢◌, ◌⊎◌, refl, sym, subst, ap, ◌∙◌, Option, none, some, Bool, true, false, inl,
  inr, ltb, ◌==◌, ◌||◌, str_eq, if◌then◌else◌, arith,
}
use card_payment_service.Domain.{Uuid, Time, Merchant, MerchantStatus, ApiKey, Error}
use card_payment_service.Effect.{pure, panicking}
use card_payment_service.Effect.Triple.{
  Ends, Triple, Triple-pure, Triple-raise, Triple-raise_if, Triple-catch, Triple-bind, Triple-if,
  Triple-before, Triple-assume, Triple-after,
}
use card_payment_service.External.Table.{TableLaws, Reply, Found, Created}
use card_payment_service.World.{
  Externals, World, on_merchants, on_api_keys, take_outside, result_of,
}
use card_payment_service.Repository.{
  merchant_columns, api_key_columns, find_merchant_by_email, create_merchant, create_api_key,
}
use card_payment_service.Crypto.{hash_sha256}
use card_payment_service.Merchant.{
  RegisterInput, RegisterOutput, register, registered, create_secret, generate_secret, key_prefix,
  map_register_merchant, map_register_api_key, is_record_not_found,
}
use card_payment_service.Payment.Guards.{Never}

module _ (x : Externals) (l : TableLaws x.merchants merchant_columns)
    (lk : TableLaws x.api_keys api_key_columns) (input : RegisterInput) (w : World x) where
  abbrev pub Rows : Type 1
  Rows = x.merchants.State → x.api_keys.State → Type 0

  abbrev pub On : Rows → World x → Type 0
  On P v = P v.merchants v.api_keys

  abbrev pub SameMerchants : x.merchants.State → Type 0
  SameMerchants ms = (k : Uuid) → l.at ms k ≡ l.at w.merchants k

  abbrev pub SameKeys : x.api_keys.State → Type 0
  SameKeys ks = (k : Uuid) → lk.at ks k ≡ lk.at w.api_keys k

  abbrev pub Same : Rows
  Same ms ks = SameMerchants ms × SameKeys ks

  -- A pending merchant with the request's name and address was added, where no merchant had its id
  -- or its address, and no other merchant has changed.
  pub record IsAdded (m : Merchant) (ms : x.merchants.State) : Type 0 where
    pub fresh : l.at w.merchants m.id ≡ none
    pub alone :
        (k : Uuid) (q : Merchant) → l.at w.merchants k ≡ some q → str_eq q.email input.email ≡ false
    pub stored : l.at ms m.id ≡ some m
    pub name : m.name ≡ input.name
    pub email : m.email ≡ input.email
    pub pending : m.status ≡ MerchantStatus.pending
    pub others : (k : Uuid) → (m.id == k) ≡ false → l.at ms k ≡ l.at w.merchants k

  -- A key of the merchant with the hash of the secret was added, where none had its id or its hash,
  -- and no other key has changed.
  pub record IsKeyed (m : Merchant) (secret : String) (ks : x.api_keys.State) : Type 0 where
    pub key : ApiKey
    pub fresh : lk.at w.api_keys key.id ≡ none
    pub stored : lk.at ks key.id ≡ some key
    pub owner : key.merchant_id ≡ m.id
    pub hashed : key.hashed_key ≡ hash_sha256 x secret
    pub live : key.revoked_at ≡ none
    pub alone :
        (k : Uuid) (q : ApiKey)
        → lk.at w.api_keys k ≡ some q
        → str_eq q.hashed_key key.hashed_key ≡ false
    pub others : (k : Uuid) → (key.id == k) ≡ false → lk.at ks k ≡ lk.at w.api_keys k

  -- The merchant is there, and has no key.
  abbrev pub Keyless : Merchant → Rows
  Keyless m ms ks = IsAdded m ms × SameKeys ks

  -- Nothing has changed, or a merchant without a key was added.
  abbrev pub Unregistered : World x → Type 0
  Unregistered v = On Same v ⊎ ((m : Merchant) × On (Keyless m) v)

  -- An output came back, for a merchant and a key that were added.
  abbrev pub RegisterAnswer : Option RegisterOutput → World x → Type 0
  RegisterAnswer none v = ⊥
  RegisterAnswer (some out) v =
      (m : Merchant) × IsAdded m v.merchants
      × IsKeyed m out.api_key v.api_keys
      × (out.merchant_id ≡ x.uuid_text m.id)
      × (out.status ≡ "pending")

  pub outside-triple :
      {A : Type 0} {E X : World x → Type 0} (P : Rows) (f : x.Outside → A × x.Outside)
      → Triple (On P) (take_outside {x = x} f) (λ _. On P) (λ _. E) E X
  unfolding take_outside
  outside-triple P f = record { at = λ v p. p }

  Found-Ends :
      (v : World x)
      → On Same v
      → (r : Reply Merchant × x.merchants.State)
      → Found merchant_columns l.at l.clock
          (λ (_ : Time) (m : Merchant). str_eq m.email input.email)
          v.merchants
          r
      → Ends {W = World x}
          (λ _. On Same)
          (λ _. On Same)
          (On Same)
          Never
          (result_of r.0)
          (record v { merchants = r.1 })
  Found-Ends v same (inl m, t) h = (λ k. h.2 k ∙ same.0 k, same.1)
  Found-Ends v same (inr e, t) h = (λ k. h.1 k ∙ same.0 k, same.1)

  pub find-triple :
      Triple
        (On Same)
        (find_merchant_by_email x input.email)
        (λ _. On Same)
        (λ _. On Same)
        (On Same)
        Never
  unfolding find_merchant_by_email on_merchants
  find-triple =
      Triple-bind {R = λ _. On Same}
        (record { at = λ v same. Found-Ends v same _ (l.first_lem _ v.merchants) })
        (λ m. Triple-pure (some m) (λ v h. h))

  -- a merchant as `mapRegisterMerchant` builds it
  abbrev pub IsBuilt : Merchant → Type 0
  IsBuilt m = (m.name ≡ input.name) × (m.email ≡ input.email) × (m.status ≡ MerchantStatus.pending)

  pub map_merchant-triple :
      {E X : World x → Type 0}
      → Triple (On Same) (map_register_merchant x input) (λ m v. IsBuilt m × On Same v) (λ _. E) E X
  unfolding map_register_merchant
  map_merchant-triple = Triple-bind (outside-triple Same _) λ id.
      Triple-bind (outside-triple Same _) λ created.
        Triple-bind (outside-triple Same _)
          λ updated. Triple-pure _ (λ v h. ((refl, refl, refl), h))

  free_lem :
      (m : Merchant) (o : Option Merchant)
      → l.at w.merchants m.id ≡ o
      → ((k : Uuid) (q : Merchant)
          → l.at w.merchants k ≡ some q
          → (q.id == m.id || str_eq q.email m.email) ≡ false)
      → o ≡ none
  free_lem m none e h = refl
  free_lem m (some q) e h =
      let key = l.at_key w.merchants m.id q e in let apart = h m.id q e in absurd (ground arith)

  apart_email :
      (m q : Merchant)
      → (q.id == m.id || str_eq q.email m.email) ≡ false
      → str_eq q.email m.email ≡ false
  apart_email m q e = ground arith

  Created-Ends :
      (m : Merchant) (v : World x)
      → IsBuilt m
      → On Same v
      → (r : Reply Merchant × x.merchants.State)
      → Created merchant_columns l.at l.clock m v.merchants r
      → Ends {W = World x}
          (λ m'. On (Keyless m'))
          (λ _. Unregistered)
          Unregistered
          Never
          (result_of r.0)
          (record v { merchants = r.1 })
  Created-Ends m v built same (inl m', t) h =
      let id : m'.id ≡ m.id = rw h.0 in
      let old : (k : Uuid) (q : Merchant)
          → l.at w.merchants k ≡ some q
          → (q.id == m.id || str_eq q.email m.email) ≡ false =
        λ k q e. h.1 k q (same.0 k ∙ e) in
      let free = free_lem m _ refl old in
      (
        record {
          fresh = subst (λ k. l.at w.merchants k ≡ none) (sym id) free;
          alone =
              λ k q e. subst (λ t. str_eq q.email t ≡ false) built.1 (apart_email m q (old k q e));
          stored = ground (arith, h.2 m'.id);
          name = rw h.0 built.0;
          email = rw h.0 built.1;
          pending = rw h.0 built.2;
          others = λ k ne.
              let missed : (m.id == k) ≡ false = subst (λ i. (i == k) ≡ false) id ne in
              h.2 k ∙ rw missed (same.0 k);
        },
        same.1,
      )
  Created-Ends m v built same (inr e, t) h = inl (λ k. h k ∙ same.0 k, same.1)

  pub create_merchant-triple :
      (m : Merchant)
      → IsBuilt m
      → Triple
          (On Same)
          (create_merchant x m)
          (λ m'. On (Keyless m'))
          (λ _. Unregistered)
          Unregistered
          Never
  unfolding create_merchant on_merchants
  create_merchant-triple m built = record {
    at = λ v same. Created-Ends m v built same _ (l.create_lem m v.merchants);
  }
