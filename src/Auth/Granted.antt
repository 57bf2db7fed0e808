-- ===== src/Auth/Granted.antt =====
-- `ValidateAPIKey` of a secret whose key is there, on a database that answers.
use card_payment_service.Prelude.{
  String, ◌≡◌, refl, sym, ap, subst, ◌∙◌, some, true, not, inl, inr, ◌==◌, ==_iff, str_eq, eq_iff,
  arith,
}
use card_payment_service.Domain.{Uuid, Time, Merchant, MerchantStatus, ApiKey, record_not_found}
use card_payment_service.Effect.Triple.{
  Ends, Triple, Triple-pure, Triple-raise, Triple-raise_if, Triple-deref_some, Triple-catch,
  Triple-bind, Triple-before, Triple-assume,
}
use card_payment_service.External.Table
use card_payment_service.External.Table.{TableLaws, Reply, Found}
use card_payment_service.World.{Externals, World, on_merchants, on_api_keys, result_of}
use card_payment_service.Repository.{
  merchant_columns, api_key_columns, find_api_key, find_merchant_by_id,
}
use card_payment_service.Crypto.{hash_sha256}
use card_payment_service.Auth.{validate_api_key, is_active}
use card_payment_service.Payment.Guards.{Never}

module _ (x : Externals) (l : TableLaws x.merchants merchant_columns)
    (lk : TableLaws x.api_keys api_key_columns) where
  module _ (secret : String) (m : Merchant) where
    -- Both tables answer; the secret has a key, all its keys are the merchant's, and the merchant is
    -- active.
    pub record IsGranted (v : World x) : Type 0 where
      pub up_merchants : l.up v.merchants ≡ true
      pub up_keys : lk.up v.api_keys ≡ true
      pub key : ApiKey
      pub key_stored : lk.at v.api_keys key.id ≡ some key
      pub hashed : key.hashed_key ≡ hash_sha256 x secret
      pub only :
          (k : Uuid) (q : ApiKey)
          → lk.at v.api_keys k ≡ some q
          → q.hashed_key ≡ hash_sha256 x secret
          → q.merchant_id ≡ m.id
      pub stored : l.at v.merchants m.id ≡ some m
      pub active : m.status ≡ MerchantStatus.active

    key-Ends :
        (v : World x)
        → IsGranted v
        → (r : Reply ApiKey × x.api_keys.State)
        → Found api_key_columns lk.at lk.clock
            (λ (_ : Time) (r : ApiKey). str_eq r.hashed_key (hash_sha256 x secret))
            v.api_keys
            r
        → Table.Answers lk.up (λ e. e ≡ record_not_found) v.api_keys r
        → Ends {W = World x}
            (λ q v. (q.merchant_id ≡ m.id) × IsGranted v)
            (λ _. Never)
            Never
            Never
            (result_of r.0)
            (record v { api_keys = r.1 })
    key-Ends v h (inl q, t) found up = (
      h.only q.id q found.1 ((eq_iff q.hashed_key (hash_sha256 x secret)).0 found.0),
      record {
        up_merchants = h.up_merchants;
        up_keys = up;
        key = h.key;
        key_stored = found.2 h.key.id ∙ h.key_stored;
        hashed = h.hashed;
        only = λ k p e. h.only k p (sym (found.2 k) ∙ e);
        stored = h.stored;
        active = h.active;
      },
    )
    key-Ends v h (inr e, t) found up =
        let unlike = found.0 up.1 h.key.id h.key h.key_stored in
        let like = (eq_iff h.key.hashed_key (hash_sha256 x secret)).1 h.hashed in cc

    merchant-Ends :
        (v : World x)
        → IsGranted v
        → (r : Reply Merchant × x.merchants.State)
        → Found merchant_columns l.at l.clock
            (λ (_ : Time) (r : Merchant). r.id == m.id)
            v.merchants
            r
        → Table.Answers l.up (λ e. e ≡ record_not_found) v.merchants r
        → Ends {W = World x}
            (λ q _. q ≡ m)
            (λ _. Never)
            Never
            Never
            (result_of r.0)
            (record v { merchants = r.1 })
    merchant-Ends v h (inl q, t) found up =
        let same : q.id ≡ m.id = (==_iff q.id m.id).0 found.0 in
        let at : l.at v.merchants m.id ≡ some q =
          subst (λ k. l.at v.merchants k ≡ some q) same found.1 in
        let here = h.stored in ground arith
    merchant-Ends v h (inr e, t) found up =
        let unlike = found.0 up.1 m.id m h.stored in let like = (==_iff m.id m.id).1 refl in cc

    find_key-triple :
        Triple IsGranted
          (find_api_key x (hash_sha256 x secret))
          (λ o v. (q : ApiKey) × (o ≡ some q) × (q.merchant_id ≡ m.id) × IsGranted v)
          (λ _. Never)
          Never
          Never
    unfolding find_api_key on_api_keys
    find_key-triple =
        Triple-bind {R = λ q v. (q.merchant_id ≡ m.id) × IsGranted v}
          (record {
            at = λ v h.
                key-Ends v h _ (lk.first_lem _ v.api_keys) (lk.first_up _ v.api_keys h.up_keys);
          })
          λ q. Triple-pure (some q) (λ v h. (q, refl, h.0, h.1))

    find_merchant-triple :
        Triple IsGranted (find_merchant_by_id x m.id) (λ o _. o ≡ some m) (λ _. Never) Never Never
    unfolding find_merchant_by_id on_merchants
    find_merchant-triple =
        Triple-bind {R = λ q _. q ≡ m}
          (record {
            at = λ v h.
                merchant-Ends v h _ (l.first_lem _ v.merchants)
                  (l.first_up _ v.merchants h.up_merchants);
          })
          λ q. Triple-pure (some q) (λ v h. ap some h)

    pub validate-triple :
        Triple IsGranted (validate_api_key x secret) (λ o _. o ≡ some m) (λ _. Never) Never Never
    unfolding validate_api_key
    validate-triple =
        Triple-bind
          (Triple-catch find_key-triple (λ e. Triple-raise _ (λ v h. h))
            (λ o. Triple-pure o (λ v h. h)))
          λ found. Triple-assume λ v (q, e, owner, granted).
            Triple-before {P' = IsGranted} (λ u h. h.3)
              (Triple-deref_some _ found q e (
                rw owner (
                  Triple-bind find_merchant-triple λ o. Triple-assume λ u same.
                    Triple-deref_some _ o m same (
                      Triple-bind
                        (Triple-raise_if (not (is_active m.status)) _
                          (λ e u k. let on = granted.active in cc))
                        λ _. Triple-pure (some m) (λ u k. refl)))))
