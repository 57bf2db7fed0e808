-- ===== src/Auth/Keys.antt =====
-- `ValidateAPIKey`: whom it lets through.
use card_payment_service.Prelude.{
  String, ◌≡◌, refl, sym, subst, ap, ◌∙◌, Option, none, some, false, not, inl, inr, ◌==◌, str_eq,
  eq_iff, arith,
}
use card_payment_service.Domain.{Uuid, Time, Merchant, MerchantStatus, ApiKey}
use card_payment_service.Effect.{deref, pure}
use card_payment_service.Effect.Triple.{
  Ends, Triple, Triple-pure, Triple-raise, Triple-raise_if, Triple-catch, Triple-bind,
  Triple-assume, Triple-before,
}
use card_payment_service.External.Table.{TableLaws, Reply, Found}
use card_payment_service.World.{Externals, World, on_merchants, on_api_keys, result_of}
use card_payment_service.Repository.{
  merchant_columns, api_key_columns, find_api_key, find_merchant_by_id,
}
use card_payment_service.Crypto.{hash_sha256}
use card_payment_service.Auth.{validate_api_key, is_active}
use card_payment_service.Payment.Guards.{Never}

module _ (x : Externals) (l : TableLaws x.merchants merchant_columns)
    (lk : TableLaws x.api_keys api_key_columns) (w : World x) where
  -- Neither the merchants nor the keys have changed, nor anything else.
  pub record SameRows (v : World x) : Type 0 where
    pub merchants : (k : Uuid) → l.at v.merchants k ≡ l.at w.merchants k
    pub api_keys : (k : Uuid) → lk.at v.api_keys k ≡ lk.at w.api_keys k
    pub rest : v ≡ record w { merchants = v.merchants; api_keys = v.api_keys }

  -- A stored row of a key.
  abbrev IsKey : String → ApiKey → Type 0
  IsKey hashed key = (lk.at w.api_keys key.id ≡ some key) × (key.hashed_key ≡ hashed)

  -- A merchant that a stored key with the hash of the text belongs to, and that is active.
  pub record IsOwner (api_key : String) (m : Merchant) : Type 0 where
    pub key : ApiKey
    pub key_stored : lk.at w.api_keys key.id ≡ some key
    pub hashed : key.hashed_key ≡ hash_sha256 x api_key
    pub stored : l.at w.merchants key.merchant_id ≡ some m
    pub same_id : m.id ≡ key.merchant_id
    pub active : m.status ≡ MerchantStatus.active

  abbrev KeyRow : String → Option ApiKey → World x → Type 0
  KeyRow hashed none v = ⊥
  KeyRow hashed (some key) v = IsKey hashed key × SameRows v

  key-Ends :
      (hashed : String) (v : World x)
      → SameRows v
      → (r : Reply ApiKey × x.api_keys.State)
      → Found api_key_columns lk.at lk.clock
          (λ (_ : Time) (r : ApiKey). str_eq r.hashed_key hashed)
          v.api_keys
          r
      → Ends {W = World x}
          (λ key v. IsKey hashed key × SameRows v)
          (λ _. SameRows)
          SameRows
          Never
          (result_of r.0)
          (record v { api_keys = r.1 })
  key-Ends hashed v q (inl key, t) h = (
    (sym (q.api_keys key.id) ∙ h.1, (eq_iff key.hashed_key hashed).0 h.0),
    record {
      merchants = q.merchants;
      api_keys = λ k. h.2 k ∙ q.api_keys k;
      rest = ap (λ (u : World x). record u { api_keys = t }) q.rest;
    },
  )
  key-Ends hashed v q (inr e, t) h = record {
    merchants = q.merchants;
    api_keys = λ k. h.1 k ∙ q.api_keys k;
    rest = ap (λ (u : World x). record u { api_keys = t }) q.rest;
  }

  find_key-triple :
      (hashed : String)
      → Triple SameRows (find_api_key x hashed) (KeyRow hashed) (λ _. SameRows) SameRows Never
  unfolding find_api_key on_api_keys
  find_key-triple hashed =
      Triple-bind {R = λ key v. IsKey hashed key × SameRows v}
        (record { at = λ v q. key-Ends hashed v q _ (lk.first_lem _ v.api_keys) })
        (λ key. Triple-pure (some key) (λ v h. h))

  deref_key :
      (hashed : String) (found : Option ApiKey)
      → Triple
          (KeyRow hashed found)
          (deref found)
          (λ key v. IsKey hashed key × SameRows v)
          (λ _. SameRows)
          SameRows
          Never
  unfolding deref pure
  deref_key hashed none = record { at = λ v h. absurd h }
  deref_key hashed (some key) = record { at = λ v h. h }

  abbrev IsMerchant : Uuid → Merchant → Type 0
  IsMerchant id m = (l.at w.merchants id ≡ some m) × (m.id ≡ id)

  abbrev MerchantRow : Uuid → Option Merchant → World x → Type 0
  MerchantRow id none v = ⊥
  MerchantRow id (some m) v = IsMerchant id m × SameRows v

  merchant-Ends :
      (id : Uuid) (v : World x)
      → SameRows v
      → (r : Reply Merchant × x.merchants.State)
      → Found merchant_columns l.at l.clock (λ (_ : Time) (r : Merchant). r.id == id) v.merchants r
      → Ends {W = World x}
          (λ m v. IsMerchant id m × SameRows v)
          (λ _. SameRows)
          SameRows
          Never
          (result_of r.0)
          (record v { merchants = r.1 })
  merchant-Ends id v q (inl m, t) h =
      let same : m.id ≡ id = ground arith in
      (
        (subst (λ k. l.at w.merchants k ≡ some m) same (sym (q.merchants m.id) ∙ h.1), same),
        record {
          merchants = λ k. h.2 k ∙ q.merchants k;
          api_keys = q.api_keys;
          rest = ap (λ (u : World x). record u { merchants = t }) q.rest;
        },
      )
  merchant-Ends id v q (inr e, t) h = record {
    merchants = λ k. h.1 k ∙ q.merchants k;
    api_keys = q.api_keys;
    rest = ap (λ (u : World x). record u { merchants = t }) q.rest;
  }

  find_merchant-triple :
      (id : Uuid)
      → Triple SameRows (find_merchant_by_id x id) (MerchantRow id) (λ _. SameRows) SameRows Never
  unfolding find_merchant_by_id on_merchants
  find_merchant-triple id =
      Triple-bind {R = λ m v. IsMerchant id m × SameRows v}
        (record { at = λ v q. merchant-Ends id v q _ (l.first_lem _ v.merchants) })
        (λ m. Triple-pure (some m) (λ v h. h))

  deref_merchant :
      (id : Uuid) (found : Option Merchant)
      → Triple
          (MerchantRow id found)
          (deref found)
          (λ m v. IsMerchant id m × SameRows v)
          (λ _. SameRows)
          SameRows
          Never
  unfolding deref pure
  deref_merchant id none = record { at = λ v h. absurd h }
  deref_merchant id (some m) = record { at = λ v h. h }

  -- The merchant that came back, and the state.
  abbrev pub AuthAnswer : String → Option Merchant → World x → Type 0
  AuthAnswer api_key none v = ⊥
  AuthAnswer api_key (some m) v = IsOwner api_key m × SameRows v

  is_active_eq : (t : MerchantStatus) → not (is_active t) ≡ false → t ≡ MerchantStatus.active
  is_active_eq MerchantStatus.active h = refl
  is_active_eq _ h = cc

  pub validate-triple :
      (api_key : String)
      → Triple SameRows
          (validate_api_key x api_key)
          (AuthAnswer api_key)
          (λ _. SameRows)
          SameRows
          Never
  unfolding validate_api_key
  validate-triple api_key =
      let hashed = hash_sha256 x api_key in
      Triple-bind
        (Triple-catch (find_key-triple hashed) (λ e. Triple-raise _ (λ v q. q))
          (λ f. Triple-pure f (λ v h. h)))
        λ found. Triple-bind (deref_key hashed found) λ key. Triple-assume λ v h.
          Triple-before {P' = SameRows} (λ u k. k.1)
            (Triple-bind (find_merchant-triple key.merchant_id) λ owner.
              Triple-bind (deref_merchant key.merchant_id owner) λ m.
                Triple-bind (Triple-raise_if _ _ (λ _ v k. k.1)) λ _. Triple-pure (some m) λ u k. (
                  record {
                    key = key;
                    key_stored = h.0.0;
                    hashed = h.0.1;
                    stored = k.0.0.0;
                    same_id = k.0.0.1;
                    active = is_active_eq m.status k.1;
                  },
                  k.0.1,
                ))

-- `ValidateAPIKey` lets through only the active merchant that a stored key with the hash of the
-- given text belongs to, and never answers no merchant without an error. However it ends it does
-- not panic, and no table, request, lock or background job has changed.
pub validate_settles :
    (x : Externals) (l : TableLaws x.merchants merchant_columns)
    (lk : TableLaws x.api_keys api_key_columns) (api_key : String) (w : World x)
    → let (r, v) = validate_api_key x api_key w in
      Ends (AuthAnswer x l lk w api_key) (λ _. SameRows x l lk w) (SameRows x l lk w) Never r v
validate_settles x l lk api_key w =
    (validate-triple x l lk w api_key).at w
      (record { merchants = λ k. refl; api_keys = λ k. refl; rest = refl })
