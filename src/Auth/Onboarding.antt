-- ===== src/Auth/Onboarding.antt =====
-- From `Register` over `Activate` to `ValidateAPIKey`: the key that was handed out lets its merchant
-- in.
use card_payment_service.Prelude.{
  String, ◌≡◌, refl, sym, ap, subst, ◌∙◌, Option, none, some, true, inl, inr, ◌==◌, ==_iff,
  Bool-cases, eq_iff, arith,
}
use card_payment_service.Domain.{Uuid, Merchant, MerchantStatus, ApiKey}
use card_payment_service.Effect.{Result, ok, err, both, panic}
use card_payment_service.Effect.Keeps.{Keeps, Anything, IsPreorder, Gives-any_result, any_rules}
use card_payment_service.Effect.Triple.{Ends}
use card_payment_service.External.Table.{TableLaws, Reply}
use card_payment_service.World.{Externals, World, on_merchants}
use card_payment_service.Repository.{
  merchant_columns, api_key_columns, find_merchant_by_email, update_merchant,
}
use card_payment_service.Crypto.{hash_sha256}
use card_payment_service.Merchant.{
  RegisterInput, RegisterOutput, register, activate, activate_found,
}
use card_payment_service.Merchant.Registration.{RegisterAnswer, Unregistered, IsAdded, IsKeyed}
use card_payment_service.Merchant.Registration.Keys.{Shorn, register_settles}
use card_payment_service.Merchant.Activation.{
  ActivateAnswer, Unchanged, IsActivated, activate_settles,
}
use card_payment_service.Auth.{validate_api_key}
use card_payment_service.Auth.Granted.{IsGranted, validate-triple}
use card_payment_service.Payment.Guards.{Never}

-- What holds where a value comes back holds of the value.
given :
    {W A : Type 0} (Q B : A → W → Type 0) (E X : W → Type 0) (r : Result A) (v : W) (a : A)
    → r ≡ ok a
    → Ends Q B E X r v
    → Q a v
given Q B E X r v a e h = subst (λ q. Ends Q B E X q v) e h

only_value :
    {W A : Type 0} (r : Result A) (v : W) (a : A)
    → Ends (λ b _. b ≡ a) (λ _. Never) Never Never r v
    → r ≡ ok a
only_value (ok b) v a h = ap ok h
only_value (err e) v a h = absurd h
only_value (both b e) v a h = absurd h
only_value (panic p) v a h = absurd h

module _ {x : Externals} where
  SameKeys : World x → World x → Type 0
  SameKeys w v = v.api_keys ≡ w.api_keys

  SameKeys-preorder : IsPreorder SameKeys
  unfolding SameKeys
  SameKeys-preorder = record { same = λ w. refl; trans = λ u v w h k. k ∙ h }

  on_merchants-same :
      {A : Type 0} (f : x.merchants.State → Reply A × x.merchants.State)
      → Keeps SameKeys Anything (on_merchants {x = x} f)
  unfolding SameKeys on_merchants
  on_merchants-same f = record { at = λ w. (refl, Gives-any_result _) }

ruleset same_rules = (any_rules, SameKeys-preorder, on_merchants-same)

module _ (x : Externals) (l : TableLaws x.merchants merchant_columns)
    (lk : TableLaws x.api_keys api_key_columns) where
  activate_found-same : (o : Option Merchant) → Keeps SameKeys Anything (activate_found x o)
  unfolding activate_found update_merchant
  activate_found-same none = search same_rules
  activate_found-same (some m) = search same_rules depth 9

  activate-same : (email : String) → Keeps SameKeys Anything (activate x email)
  unfolding activate find_merchant_by_email
  activate-same email = search (same_rules, activate_found-same) depth 9

  api_keys-activate : (email : String) (w : World x) → (activate x email w).1.api_keys ≡ w.api_keys
  unfolding SameKeys
  api_keys-activate email w = ((activate-same email).at w).0

  module _ (input : RegisterInput) (w v u : World x) (out : RegisterOutput) (new : Merchant)
      (m : Merchant) (added : IsAdded x l lk input w m v.merchants)
      (keyed : IsKeyed x l lk input w m out.api_key v.api_keys)
      (activated : IsActivated x l input.email v.merchants new u)
      (same : u.api_keys ≡ v.api_keys) where
    -- The merchant that was activated is the one that was registered.
    same_merchant : activated.old.id ≡ m.id
    same_merchant = elim (Bool-cases (m.id == activated.old.id)) [
      | inl e ↦ sym ((==_iff m.id activated.old.id).0 e)
      | inr e ↦
          let before = sym (added.others activated.old.id e) ∙ activated.stored in
          let unlike = added.alone activated.old.id activated.old before in
          let like = (eq_iff activated.old.email input.email).1 activated.same_email in cc
    ]

    new_id : new.id ≡ m.id
    new_id = activated.kept.0 ∙ same_merchant

    only_key :
        (k : Uuid) (q : ApiKey)
        → lk.at v.api_keys k ≡ some q
        → q.hashed_key ≡ hash_sha256 x out.api_key
        → q.merchant_id ≡ new.id
    only_key k q at e = elim (Bool-cases (keyed.key.id == k)) [
      | inl here ↦
          let place = (==_iff keyed.key.id k).0 here in
          let there : lk.at v.api_keys k ≡ some keyed.key =
            subst (λ i. lk.at v.api_keys i ≡ some keyed.key) place keyed.stored in
          let one : q ≡ keyed.key = ground (arith, at, there) in
          ap (λ (r : ApiKey). r.merchant_id) one ∙ keyed.owner ∙ sym new_id
      | inr other ↦
          let before = sym (keyed.others k other) ∙ at in
          let unlike = keyed.alone k q before in
          let like = (eq_iff q.hashed_key keyed.key.hashed_key).1 (e ∙ sym keyed.hashed) in cc
    ]

    granted : l.up u.merchants ≡ true → lk.up u.api_keys ≡ true → IsGranted x l lk out.api_key new u
    granted up up_keys = record {
      up_merchants = up;
      up_keys = up_keys;
      key = keyed.key;
      key_stored = ap (λ s. lk.at s keyed.key.id) same ∙ keyed.stored;
      hashed = keyed.hashed;
      only = λ k q at. only_key k q (sym (ap (λ s. lk.at s k) same) ∙ at);
      stored =
          subst (λ i. l.at u.merchants i ≡ some new) (sym activated.kept.0) activated.now_stored;
      active = activated.active;
    }

  -- The key that `Register` hands out lets its merchant in: where `Register` has come back with an
  -- output, then `Activate` on its address with a merchant, and the tables of merchants and keys
  -- answer, `ValidateAPIKey` on the key of the output comes back with that merchant, which is active
  -- and has the identifier of the output.
  pub validate-activate-register :
      (input : RegisterInput) (w : World x) (out : RegisterOutput) (new : Merchant)
      → (register x input w).0 ≡ ok (some out)
      → let v = (register x input w).1 in
        (activate x input.email v).0 ≡ ok (some new)
        → let u = (activate x input.email v).1 in
          l.up u.merchants ≡ true
          → lk.up u.api_keys ≡ true
          → ((validate_api_key x out.api_key u).0 ≡ ok (some new))
            × (new.status ≡ MerchantStatus.active)
            × (out.merchant_id ≡ x.uuid_text new.id)
  validate-activate-register input w out new e f up up_keys =
      let v = (register x input w).1 in
      let u = (activate x input.email v).1 in
      let (m, added, keyed, text, status) =
        given (RegisterAnswer x l lk input w) (λ _. Unregistered x l lk input w)
          (Unregistered x l lk input w) (Shorn x l lk input w) _ v (some out) e
          (register_settles x l lk input w) in
      let activated : IsActivated x l input.email v.merchants new u =
        given (ActivateAnswer x l input.email v.merchants)
          (λ _. Unchanged x l input.email v.merchants) (Unchanged x l input.email v.merchants) Never
          _ u (some new) f (activate_settles x l input.email v) in
      let same = api_keys-activate input.email v in
      let grant = granted input w v u out new m added keyed activated same up up_keys in
      (
        only_value _ _ (some new) ((validate-triple x l lk out.api_key new).at u grant),
        activated.active,
        text ∙ ap x.uuid_text (sym (new_id input w v u out new m added keyed activated same)),
      )
