-- ===== src/Merchant/Registration/Keys.antt =====
-- `Register`: the key that it adds, and every way in which it ends.
pub mod Secrets
use card_payment_service.Prelude.{
  ◌<◌, String, ◌≡◌, refl, ap, sym, subst, ◌∙◌, Option, none, some, false, inl, inr, ltb, ◌==◌, ◌||◌,
  str_eq, arith,
}
use Prim.Native.String
use card_payment_service.Domain.{Uuid, Merchant, ApiKey}
use card_payment_service.Effect.{panicking, slice_bounds}
use card_payment_service.Effect.Triple.{
  Ends, Triple, Triple-pure, Triple-raise, Triple-raise_if, Triple-catch, Triple-bind, Triple-if,
  Triple-before, Triple-assume, Triple-after,
}
use card_payment_service.External.Table.{TableLaws, Reply, Created}
use card_payment_service.World.{Externals, World, on_api_keys, take_outside, result_of}
use card_payment_service.Repository.{merchant_columns, api_key_columns, create_api_key}
use card_payment_service.Crypto.{hex_encode, hash_sha256}
use card_payment_service.Merchant.{
  RegisterInput, register, registered, create_secret, generate_secret, key_prefix,
  map_register_api_key, is_record_not_found,
}
use card_payment_service.Merchant.Registration.{
  On, Same, Keyless, IsAdded, IsKeyed, Unregistered, RegisterAnswer, outside-triple, find-triple,
  map_merchant-triple, create_merchant-triple,
}
use card_payment_service.Payment.Guards.{Never}

module _ (x : Externals) (l : TableLaws x.merchants merchant_columns)
    (lk : TableLaws x.api_keys api_key_columns) (input : RegisterInput) (w : World x) where
  -- The merchant is there, and has no key.
  abbrev Alone : Merchant → World x → Type 0
  Alone m v = On x l lk input w (Keyless x l lk input w m) v

  abbrev Fail : World x → Type 0
  Fail = Unregistered x l lk input w

  -- a key as `mapRegisterAPIKey` builds it
  abbrev IsBuiltKey : Merchant → String → ApiKey → Type 0
  IsBuiltKey m secret key =
      (key.merchant_id ≡ m.id) × (key.hashed_key ≡ hash_sha256 x secret) × (key.revoked_at ≡ none)

  free_lem :
      (key : ApiKey) (o : Option ApiKey)
      → lk.at w.api_keys key.id ≡ o
      → ((k : Uuid) (q : ApiKey)
          → lk.at w.api_keys k ≡ some q
          → (q.id == key.id || str_eq q.hashed_key key.hashed_key) ≡ false)
      → o ≡ none
  free_lem key none e h = refl
  free_lem key (some q) e h =
      let same = lk.at_key w.api_keys key.id q e in
      let apart = h key.id q e in absurd (ground arith)

  Created-Ends :
      (m : Merchant) (secret : String) (key : ApiKey) (v : World x)
      → IsBuiltKey m secret key
      → Alone m v
      → (r : Reply ApiKey × x.api_keys.State)
      → Created api_key_columns lk.at lk.clock key v.api_keys r
      → Ends {W = World x}
          (λ _ v. IsAdded x l lk input w m v.merchants × IsKeyed x l lk input w m secret v.api_keys)
          (λ _. Fail)
          Fail
          Never
          (result_of r.0)
          (record v { api_keys = r.1 })
  Created-Ends m secret key v built alone (inl key', t) h =
      let id : key'.id ≡ key.id = rw h.0 in
      let free = free_lem key _ refl (λ k q e. h.1 k q (alone.1 k ∙ e)) in
      (
        alone.0,
        record {
          key = key';
          fresh = subst (λ k. lk.at w.api_keys k ≡ none) (sym id) free;
          stored = ground (arith, h.2 key'.id);
          owner = rw h.0 built.0;
          hashed = rw h.0 built.1;
          live = rw h.0 built.2;
          alone = λ k q e.
              let apart = h.1 k q (alone.1 k ∙ e) in
              let same : key'.hashed_key ≡ key.hashed_key = rw h.0 in rw same (ground arith);
          others = λ k ne.
              let missed : (key.id == k) ≡ false = subst (λ i. (i == k) ≡ false) id ne in
              h.2 k ∙ rw missed (alone.1 k);
        },
      )
  Created-Ends m secret key v built alone (inr e, t) h = inr (m, (alone.0, λ k. h k ∙ alone.1 k))

  create_key-triple :
      (m : Merchant) (secret : String) (key : ApiKey)
      → IsBuiltKey m secret key
      → Triple
          (Alone m)
          (create_api_key x key)
          (λ _ v. IsAdded x l lk input w m v.merchants × IsKeyed x l lk input w m secret v.api_keys)
          (λ _. Fail)
          Fail
          Never
  unfolding create_api_key on_api_keys
  create_key-triple m secret key built = record {
    at = λ v alone. Created-Ends m secret key v built alone _ (lk.create_lem key v.api_keys);
  }

  map_key-triple :
      {E X : World x → Type 0} (m : Merchant) (prefix secret : String)
      → Triple
          (Alone m)
          (map_register_api_key x m.id prefix (hash_sha256 x secret))
          (λ key v. IsBuiltKey m secret key × Alone m v)
          (λ _. E)
          E
          X
  unfolding map_register_api_key
  map_key-triple m prefix secret =
      Triple-bind (outside-triple x l lk input w (Keyless x l lk input w m) _) λ id.
        Triple-bind (outside-triple x l lk input w (Keyless x l lk input w m) _)
          λ created. Triple-pure _ (λ v h. ((refl, refl, refl), h))

  -- a secret that `generateSecret` makes of what the random source gives
  abbrev IsGenerated : String → Type 0
  IsGenerated secret =
      (o : x.Outside) × (secret ≡ String.◌++◌ "sk_live_" (hex_encode (x.random_bytes 24 o).0))

  -- Nothing has changed or a merchant without a key was added, and a secret was too short to slice.
  abbrev pub Shorn : World x → Type 0
  Shorn v = Fail v × (secret : String) × IsGenerated secret × (String.len secret < 16)

  secret-triple :
      {E X : World x → Type 0} (m : Merchant)
      → Triple (Alone m) (generate_secret x) (λ s v. Alone m v × IsGenerated s) (λ _. E) E X
  unfolding generate_secret take_outside
  secret-triple m =
      Triple-bind {R = λ bytes v. Alone m v × ((o : x.Outside) × (bytes ≡ (x.random_bytes 24 o).0))}
        (record { at = λ v h. (h, (v.outside, refl)) })
        λ bytes.
          Triple-pure _
            (λ v h. (h.0, (h.1.0, ap (λ b. String.◌++◌ "sk_live_" (hex_encode b)) h.1.1)))

  prefix-triple :
      {E : World x → Type 0} (m : Merchant) (secret : String)
      → Triple
          (λ v. Alone m v × IsGenerated secret)
          (key_prefix secret)
          (λ _. Alone m)
          (λ _. E)
          E
          Shorn
  unfolding key_prefix panicking
  prefix-triple m secret =
      Triple-if (ltb (String.len secret) 16) {m = panicking slice_bounds}
        (λ short. record { at = λ v h. (inr (m, h.0), secret, h.1, ground arith) })
        (λ long. Triple-pure _ (λ v h. h.0))

  -- The secret came back, and its key is there.
  abbrev Secret : Merchant → Option String → World x → Type 0
  Secret m none v = ⊥
  Secret m (some secret) v =
      IsAdded x l lk input w m v.merchants × IsKeyed x l lk input w m secret v.api_keys

  Secret-triple :
      (m : Merchant) → Triple (Alone m) (create_secret x m.id) (Secret m) (λ _. Fail) Fail Shorn
  unfolding create_secret
  Secret-triple m = Triple-bind (secret-triple m) λ secret.
      Triple-bind (prefix-triple m secret) λ prefix.
        Triple-bind (map_key-triple m prefix secret) λ key. Triple-assume λ v h.
          Triple-before (λ u k. k.1)
            (Triple-bind
              (Triple-after (create_key-triple m secret key h.0) (λ r u k. k) (λ r u k. k)
                (λ u k. k) (λ u e. absurd e))
              λ r. Triple-pure (some secret) (λ u k. k))

  registered-triple :
      (m : Merchant) (secret : Option String)
      → Triple
          (Secret m secret)
          (registered x m secret)
          (RegisterAnswer x l lk input w)
          (λ _. Fail)
          Fail
          Shorn
  unfolding registered
  registered-triple m none = record { at = λ v h. absurd h }
  registered-triple m (some secret) = Triple-pure _ (λ v h. (m, h.0, h.1, refl, rw h.0.pending))

  pub register-triple :
      Triple
        (On x l lk input w (Same x l lk input w))
        (register x input)
        (RegisterAnswer x l lk input w)
        (λ _. Fail)
        Fail
        Shorn
  unfolding register
  register-triple =
      Triple-bind
        (Triple-catch
          (Triple-after (find-triple x l lk input w) (λ o v h. h) (λ o v h. h) (λ v h. h)
            (λ v e. absurd e))
          (λ e.
            Triple-if (is_record_not_found e) (λ _. Triple-pure none (λ v h. h))
              (λ _. Triple-raise _ (λ v h. inl h)))
          (λ o. Triple-pure o (λ v h. h)))
        λ existing. Triple-bind (Triple-raise_if _ _ (λ _ v h. inl h)) λ _.
          Triple-before (λ v h. h.0)
            (Triple-bind (map_merchant-triple x l lk input w) λ built. Triple-assume λ v h.
              Triple-before (λ u k. k.1)
                (Triple-bind
                  (Triple-after (create_merchant-triple x l lk input w built h.0) (λ m u k. k)
                    (λ m u k. k) (λ u k. k) (λ u e. absurd e))
                  λ m. Triple-bind (Secret-triple m) λ secret. registered-triple m secret))

-- How `Register` ends, whatever the database answers. With an output and no error: no merchant had
-- the address, a pending merchant with the request's name and address was added under an id where
-- none was, a key of that merchant with the hash of the secret in the output, which no key had, was
-- added and is not revoked, no other merchant and no other key changed, and the output has the merchant's id and
-- "pending". With an error or a panic: no merchant and no key changed, or such a merchant was added
-- without a key; and it panics only on a secret below 16 bytes that `generateSecret` has made. It
-- never gives no output and no error.
pub register_settles :
    (x : Externals) (l : TableLaws x.merchants merchant_columns)
    (lk : TableLaws x.api_keys api_key_columns) (input : RegisterInput) (w : World x)
    → let (r, v) = register x input w in
      Ends
        (RegisterAnswer x l lk input w)
        (λ _. Unregistered x l lk input w)
        (Unregistered x l lk input w)
        (Shorn x l lk input w)
        r
        v
register_settles x l lk input w = (register-triple x l lk input w).at w (λ k. refl, λ k. refl)
