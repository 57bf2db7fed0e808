-- ===== src/Payment/Replay/Saved.antt =====
-- What a lookup of an idempotency key answers after a save and a history.
use card_payment_service.Prelude.{
  ◌≡◌, refl, sym, subst, ap, ◌∙◌, Option, none, some, List, Bool, true, false, inl, inr, ltb, ◌+◌,
  ◌==◌, ==_iff, ◌&&◌, arith,
}
use card_payment_service.Domain.{Uuid, Time, Json, IdempotencyKey, record_not_found}
use card_payment_service.Effect.{ok, resume, pure, effects}
use card_payment_service.External.Table.{TableLaws, Reply, Created, Found, Answers, Refused}
use card_payment_service.World.{
  Externals, World, SaveJob, on_idempotency_keys, take_outside, result_of,
}
use card_payment_service.Repository.{
  idempotency_key_columns, create_idempotency_key, find_idempotency_key,
}
use card_payment_service.Gateway.{Gateway}
use card_payment_service.Payment.History.{Event, run}
use card_payment_service.Payment.Footprint.Operations.{run-keys}
use card_payment_service.Payment.Idempotency.{one_day, cached_idempotency, save_idempotency}

module _ (x : Externals) (li : TableLaws x.idempotency_keys idempotency_key_columns)
    (job : SaveJob) where
  -- the row that is saved
  abbrev pub row_at_time : Time → IdempotencyKey
  row_at_time now = record {
    key = job.key;
    merchant_id = job.merchant_id;
    response = job.response;
    expires_at = now + one_day;
    created_at = 0;
  }

  -- The row is stored, with the response, the merchant and the time at which it expires, and the
  -- database answers.
  record IsSaved (now : Time) (s : x.idempotency_keys.State) : Type 0 where
    row : IdempotencyKey
    stored : li.at s job.key ≡ some row
    response : row.response ≡ job.response
    owner : row.merchant_id ≡ job.merchant_id
    expires : row.expires_at ≡ now + one_day
    up : li.up s ≡ true

  IsSaved-create :
      (now : Time) (s : x.idempotency_keys.State)
      (r : Reply IdempotencyKey × x.idempotency_keys.State)
      → li.at s job.key ≡ none
      → Created idempotency_key_columns li.at li.clock (row_at_time now) s r
      → li.refers s (row_at_time now) ≡ true
      → Answers li.up
          (Refused idempotency_key_columns li.at li.storable li.refers (row_at_time now) s)
          s
          r
      → IsSaved now r.1
  IsSaved-create now s (inl row, t) free h there up = record {
    row = row;
    stored = h.2 job.key ∙ rw ((==_iff job.key job.key).1 refl) refl;
    response = rw h.0 refl;
    owner = rw h.0 refl;
    expires = rw h.0 refl;
    up = up;
  }
  IsSaved-create now s (inr e, t) free h there (up, inl (dup, (k, q, at, clash))) =
      let same : q.key ≡ job.key = ground arith in
      let key : q.key ≡ k = li.at_key s k q at in
      let both : none ≡ some q = sym free ∙ ap (li.at s) (sym same ∙ key) ∙ at in cc
  IsSaved-create now s (inr e, t) free h there (up, inr (inl unfit)) = cc
  IsSaved-create now s (inr e, t) free h there (up, inr (inr gone)) = cc

  same_state :
      (r : Reply IdempotencyKey) (v : World x)
      → (resume (result_of r) (λ _. pure tt) (λ _. pure tt) v).1 ≡ v
  unfolding pure
  same_state (inl row) v = refl
  same_state (inr e) v = refl

  IsSaved-save :
      (w : World x)
      → li.up w.idempotency_keys ≡ true
      → li.at w.idempotency_keys job.key ≡ none
      → li.refers w.idempotency_keys (row_at_time (x.now w.outside).0) ≡ true
      → IsSaved (x.now w.outside).0 (save_idempotency x job w).1.idempotency_keys
  unfolding save_idempotency create_idempotency_key on_idempotency_keys take_outside effects
  IsSaved-save w up free there =
      let now = (x.now w.outside).0 in
      let s = w.idempotency_keys in
      let r = x.idempotency_keys.create (row_at_time now) s in
      subst (λ (v : World x). IsSaved now v.idempotency_keys) (sym (same_state r.0 _))
        (IsSaved-create now s r free (li.create_lem (row_at_time now) s) there
          (li.create_up (row_at_time now) s up))

  -- What the lookup asks of a row.
  abbrev is_hit : Time → IdempotencyKey → Bool
  is_hit now r = r.key == job.key && r.merchant_id == job.merchant_id && ltb now r.expires_at

  Found-saved :
      (now : Time) (s : x.idempotency_keys.State) (saved : IsSaved now s)
      (r : Reply IdempotencyKey × x.idempotency_keys.State)
      → ltb (li.clock s) (now + one_day) ≡ true
      → Found idempotency_key_columns li.at li.clock is_hit s r
      → Answers li.up (λ e. e ≡ record_not_found) s r
      → (row : IdempotencyKey) × (r.0 ≡ inl row) × (row.response ≡ job.response)
  Found-saved now s saved (inl row, t) live h up =
      let key : row.key ≡ job.key = ground arith in
      let both : some row ≡ some saved.row = sym h.1 ∙ ap (li.at s) key ∙ saved.stored in
      let same : row ≡ saved.row = cc in (row, refl, rw same saved.response)
  Found-saved now s saved (inr e, t) live h (up, missing) =
      let hit = h.0 missing job.key saved.row saved.stored in
      let a = (==_iff saved.row.key job.key).1 (li.at_key s job.key saved.row saved.stored) in
      let b = (==_iff saved.row.merchant_id job.merchant_id).1 saved.owner in
      let c = subst (λ d. ltb (li.clock s) d ≡ true) (sym saved.expires) live in
      let both : is_hit (li.clock s) saved.row ≡ true = rw (a, b, c) refl in
      let two : true ≡ false = sym both ∙ hit in cc

  cached_found :
      {A : Type 0} (decode : Json → Option A) (v : World x) (row : IdempotencyKey)
      → (x.idempotency_keys.first is_hit v.idempotency_keys).0 ≡ inl row
      → (cached_idempotency x decode job.key job.merchant_id v).0 ≡ ok (decode row.response)
  unfolding cached_idempotency find_idempotency_key on_idempotency_keys effects
  cached_found decode v row e = rw e refl

  kept :
      (now : Time) (s t : x.idempotency_keys.State)
      → IsSaved now s
      → ((k : Uuid) (r : IdempotencyKey) → li.at s k ≡ some r → li.at t k ≡ some r)
      → li.up t ≡ true
      → IsSaved now t
  kept now s t saved keys up = record {
    row = saved.row;
    stored = keys job.key saved.row saved.stored;
    response = saved.response;
    owner = saved.owner;
    expires = saved.expires;
    up = up;
  }

  -- After a save, on a database that answers, where the key was free and the rows are there which
  -- the new row refers to, and after any history of requests and background saves that follows it,
  -- with any failures, a lookup by the same merchant under the same key answers what the saved
  -- response decodes to, if the database then answers and its clock is before the time of the save
  -- and a day.
  pub cached_idempotency-save_idempotency :
      {A : Type 0} (decode : Json → Option A) (g : Gateway x.Outside) (es : List Event)
      (w : World x)
      → li.up w.idempotency_keys ≡ true
      → li.at w.idempotency_keys job.key ≡ none
      → li.refers w.idempotency_keys (row_at_time (x.now w.outside).0) ≡ true
      → let v = run x g es (save_idempotency x job w).1 in
        li.up v.idempotency_keys ≡ true
        → ltb (li.clock v.idempotency_keys) ((x.now w.outside).0 + one_day) ≡ true
        → (cached_idempotency x decode job.key job.merchant_id v).0 ≡ ok (decode job.response)
  cached_idempotency-save_idempotency decode g es w up free there up_then live =
      let u = (save_idempotency x job w).1 in
      let v = run x g es u in
      let now = (x.now w.outside).0 in
      let s = v.idempotency_keys in
      let saved =
        kept now u.idempotency_keys s (IsSaved-save w up free there) (run-keys x li g es u)
          up_then in
      let found =
        Found-saved now s saved (x.idempotency_keys.first is_hit s) live (li.first_lem is_hit s)
          (li.first_up is_hit s saved.up) in
      cached_found decode v found.0 found.1 ∙ ap (λ j. ok (decode j)) found.2
