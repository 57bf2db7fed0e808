-- ===== src/Merchant/Activation.antt =====
-- `Activate`: what it does to the merchants, however it ends.
use card_payment_service.Prelude.{
  String, ◌≡◌, ◌≢◌, refl, sym, subst, ap, ◌∙◌, Option, none, some, false, not, inl, inr, ◌==◌,
  ==_iff, str_eq, eq_iff, arith,
}
use card_payment_service.Domain.{Uuid, Time, Merchant, MerchantStatus}
use card_payment_service.Effect.Triple.{
  Ends, Triple, Triple-pure, Triple-raise, Triple-raise_if, Triple-bind, Triple-before,
  Triple-assume,
}
use card_payment_service.External.Table.{TableLaws, Reply, Found, Updated, changed}
use card_payment_service.World.{Externals, World, on_merchants, result_of}
use card_payment_service.Repository.{
  merchant_columns, find_merchant_by_email, update_merchant, returned, unmatched_merchant,
}
use card_payment_service.Merchant.{activate, activate_found, is_pending_merchant}
use card_payment_service.Payment.Guards.{Never}

module _ (x : Externals) (l : TableLaws x.merchants merchant_columns) (email : String)
    (s : x.merchants.State) where
  -- No merchant has changed.
  abbrev pub Unchanged : World x → Type 0
  Unchanged v = (k : Uuid) → l.at v.merchants k ≡ l.at s k

  -- The merchant of the address was pending and is active, with the same name, and no other
  -- merchant has changed.
  pub record IsActivated (m : Merchant) (v : World x) : Type 0 where
    pub old : Merchant
    pub stored : l.at s old.id ≡ some old
    pub same_email : old.email ≡ email
    pub pending : old.status ≡ MerchantStatus.pending
    pub now_stored : l.at v.merchants old.id ≡ some m
    pub active : m.status ≡ MerchantStatus.active
    pub kept : (m.id ≡ old.id) × (m.email ≡ old.email) × (m.name ≡ old.name)
    pub others : (k : Uuid) → k ≢ old.id → l.at v.merchants k ≡ l.at s k

  -- A merchant came back, and it was activated.
  abbrev pub ActivateAnswer : Option Merchant → World x → Type 0
  ActivateAnswer none v = ⊥
  ActivateAnswer (some m) v = IsActivated m v

  abbrev FoundMerchant : Option Merchant → World x → Type 0
  FoundMerchant none v = ⊥
  FoundMerchant (some m) v = (l.at s m.id ≡ some m) × (m.email ≡ email) × Unchanged v

  Found-Ends :
      (v : World x)
      → v.merchants ≡ s
      → (r : Reply Merchant × x.merchants.State)
      → Found merchant_columns l.at l.clock
          (λ (_ : Time) (m : Merchant). str_eq m.email email)
          v.merchants
          r
      → Ends {W = World x}
          (λ m v. (l.at s m.id ≡ some m) × (m.email ≡ email) × Unchanged v)
          (λ _. Unchanged)
          Unchanged
          Never
          (result_of r.0)
          (record v { merchants = r.1 })
  Found-Ends v e (inl m, t) h = (
    subst (λ t. l.at t m.id ≡ some m) e h.1,
    (eq_iff m.email email).0 h.0,
    λ k. h.2 k ∙ ap (λ t. l.at t k) e,
  )
  Found-Ends v e (inr f, t) h = λ k. h.1 k ∙ ap (λ t. l.at t k) e

  find-triple :
      Triple
        (λ v. v.merchants ≡ s)
        (find_merchant_by_email x email)
        FoundMerchant
        (λ _. Unchanged)
        Unchanged
        Never
  unfolding find_merchant_by_email on_merchants
  find-triple =
      Triple-bind {R = λ m v. (l.at s m.id ≡ some m) × (m.email ≡ email) × Unchanged v}
        (record { at = λ v e. Found-Ends v e _ (l.first_lem _ v.merchants) })
        (λ m. Triple-pure (some m) (λ v h. h))

  module _ (old : Merchant) (stored : l.at s old.id ≡ some old) (same : old.email ≡ email)
      (pending : old.status ≡ MerchantStatus.pending) where
    others_kept :
        (t : x.merchants.State) (k : Uuid) (o : Option Merchant)
        → l.at t k ≡ o
        → k ≢ old.id
        → changed merchant_columns l.at l.clock (λ r. r.id == old.id) MerchantStatus.active t o ≡ o
    others_kept t k none e ne = refl
    others_kept t k (some q) e ne = ground (arith, l.at_key t k q e)

    Updated-Ends :
        (v : World x)
        → Unchanged v
        → (r : Reply (Option Merchant) × x.merchants.State)
        → Updated merchant_columns l.at l.clock
            (λ (r : Merchant). r.id == old.id)
            MerchantStatus.active
            v.merchants
            r
        → Ends {W = World x}
            (λ o. IsActivated (returned (unmatched_merchant MerchantStatus.active) o))
            (λ _. Unchanged)
            Unchanged
            Never
            (result_of r.0)
            (record v { merchants = r.1 })
    Updated-Ends v u (inl none, t) h =
        let missed = h.0 old.id old (u old.id ∙ stored) in absurd (ground arith)
    Updated-Ends v u (inl (some m), t) ((r, here, hit, made), rows) =
        let at_old = u old.id ∙ stored in
        let r_id : r.id ≡ old.id = ground arith in
        let both : some r ≡ some old = sym here ∙ ap (l.at v.merchants) r_id ∙ at_old in
        let r_old : r ≡ old = cc in
        record {
          old = old;
          stored = stored;
          same_email = same;
          pending = pending;
          now_stored = rows old.id ∙ rw (at_old, (==_iff old.id old.id).1 refl, made, r_old);
          active = rw made;
          kept = (rw (made, r_old), rw (made, r_old), rw (made, r_old));
          others = λ k ne. rows k ∙ others_kept v.merchants k _ refl ne ∙ u k;
        }
    Updated-Ends v u (inr e, t) h = λ k. h k ∙ u k

    update-triple :
        Triple Unchanged
          (update_merchant x old.id MerchantStatus.active)
          ActivateAnswer
          (λ _. Unchanged)
          Unchanged
          Never
    unfolding update_merchant on_merchants
    update-triple =
        Triple-bind {R = λ o. IsActivated (returned (unmatched_merchant MerchantStatus.active) o)}
          (record { at = λ v u. Updated-Ends v u _ (l.updates_lem _ _ v.merchants) })
          (λ o. Triple-pure _ (λ v h. h))

  is_pending_eq :
      (t : MerchantStatus) → not (is_pending_merchant t) ≡ false → t ≡ MerchantStatus.pending
  is_pending_eq MerchantStatus.pending h = refl
  is_pending_eq _ h = cc

  activate_found-triple :
      (found : Option Merchant)
      → Triple
          (FoundMerchant found)
          (activate_found x found)
          ActivateAnswer
          (λ _. Unchanged)
          Unchanged
          Never
  unfolding activate_found
  activate_found-triple none = Triple-raise _ (λ v h. absurd h)
  activate_found-triple (some old) = Triple-bind (Triple-raise_if _ _ (λ _ v h. h.2)) λ _.
      Triple-assume λ v h.
        Triple-before (λ u k. k.0.2) (update-triple old h.0.0 h.0.1 (is_pending_eq old.status h.1))

  pub activate-triple :
      Triple
        (λ v. v.merchants ≡ s)
        (activate x email)
        ActivateAnswer
        (λ _. Unchanged)
        Unchanged
        Never
  unfolding activate
  activate-triple = Triple-bind find-triple activate_found-triple

-- How `Activate` ends, whatever the database answers. With a merchant and no error: a row with the
-- address was pending, the merchant is that row made active, with its id, address and name, it is
-- stored under that id, and no other merchant changed. With an error: no merchant changed. It never
-- panics, and never gives no merchant and no error.
pub activate_settles :
    (x : Externals) (l : TableLaws x.merchants merchant_columns) (email : String) (w : World x)
    → let (r, v) = activate x email w in
      Ends
        (ActivateAnswer x l email w.merchants)
        (λ _. Unchanged x l email w.merchants)
        (Unchanged x l email w.merchants)
        Never
        r
        v
activate_settles x l email w = (activate-triple x l email w.merchants).at w refl
