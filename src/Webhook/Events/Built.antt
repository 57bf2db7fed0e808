-- ===== src/Webhook/Events/Built.antt =====
-- Which payloads `buildPayload` gives: those of the events that /events lists.
use mathlib.Core.List.{Memᴰ}
use mathlib.Core.List.Memᴰ.{head, tail}
use card_payment_service.Prelude.{String, ◌≡◌, refl, ap, ◌∙◌, true, false, str_eq, eq_iff, arith}
use card_payment_service.Domain.{pos}
use card_payment_service.Effect.Triple.{
  Triple, Triple-pure, Triple-raise, Triple-bind, Triple-if, Ends,
}
use card_payment_service.Payment.Guards.{Never}
use card_payment_service.Webhook.{Tool, Desk, take}
use card_payment_service.Webhook.Events.{
  EventType, WebhookPayload, event_refund_completed, event_refund_failed, event_payment_success,
  event_payment_failed, base_payload, refund_payload, fill_payload, build_payload, available_events,
}

-- An event that differs from the four of the list is not in it.
unlisted :
    (event : EventType)
    → str_eq event event_refund_completed ≡ false
    → str_eq event event_refund_failed ≡ false
    → str_eq event event_payment_success ≡ false
    → str_eq event event_payment_failed ≡ false
    → ¬ Memᴰ event available_events
unlisted event a b c d (head e) = ground (arith, eq_iff event event_refund_completed)
unlisted event a b c d (tail (head e)) = ground (arith, eq_iff event event_refund_failed)
unlisted event a b c d (tail (tail (head e))) = ground (arith, eq_iff event event_payment_success)
unlisted event a b c d (tail (tail (tail (head e)))) =
    ground (arith, eq_iff event event_payment_failed)
unlisted event a b c d (tail (tail (tail (tail m)))) = elim m [ ]

module _ (t : Tool) (name : EventType) (ref : String) (w : Desk t) where
  -- A payload of an event that is listed, about the reference and of the time before.
  pub record IsBuilt (p : WebhookPayload) (v : Desk t) : Type 0 where
    pub listed : Memᴰ name available_events
    pub event : p.event ≡ name
    pub gateway_ref : p.gateway_ref ≡ ref
    pub currency : p.currency ≡ "THB"
    pub occurred_at : p.occurred_at ≡ (t.now w.outside).0
    pub posts : v.posts ≡ w.posts

  pub record IsUnlisted (v : Desk t) : Type 0 where
    pub unlisted : ¬ Memᴰ name available_events
    pub posts : v.posts ≡ w.posts

  -- the payload that the switch starts from
  record IsBase (base : WebhookPayload) (v : Desk t) : Type 0 where
    event : base.event ≡ name
    gateway_ref : base.gateway_ref ≡ ref
    currency : base.currency ≡ "THB"
    occurred_at : base.occurred_at ≡ (t.now w.outside).0
    posts : v.posts ≡ w.posts

  built :
      (base p : WebhookPayload) (v v' : Desk t)
      → Memᴰ name available_events
      → IsBase base v
      → p.event ≡ base.event
      → p.gateway_ref ≡ base.gateway_ref
      → p.currency ≡ base.currency
      → p.occurred_at ≡ base.occurred_at
      → v'.posts ≡ v.posts
      → IsBuilt p v'
  built base p v v' m h a b c d e = record {
    listed = m;
    event = a ∙ h.event;
    gateway_ref = b ∙ h.gateway_ref;
    currency = c ∙ h.currency;
    occurred_at = d ∙ h.occurred_at;
    posts = e ∙ h.posts;
  }

  refund_payload-triple :
      (status : String) (base : WebhookPayload)
      → Memᴰ name available_events
      → Triple
          (IsBase base)
          (refund_payload t status (pos 100000) base)
          IsBuilt
          (λ _. Never)
          IsUnlisted
          Never
  unfolding refund_payload take
  refund_payload-triple status base m =
      Triple-bind {R = λ _. IsBase base}
        (record {
          at = λ v h. record {
            event = h.event;
            gateway_ref = h.gateway_ref;
            currency = h.currency;
            occurred_at = h.occurred_at;
            posts = h.posts;
          };
        })
        (λ id. Triple-pure _ (λ v h. built base _ v v m h refl refl refl refl refl))

  fill_payload-triple :
      (base : WebhookPayload)
      → Triple (IsBase base) (fill_payload t name base) IsBuilt (λ _. Never) IsUnlisted Never
  unfolding fill_payload
  fill_payload-triple base =
      Triple-if _ (λ a. refund_payload-triple _ base (head (same a)))
        λ a.
          Triple-if _ (λ b. refund_payload-triple _ base (tail (head (same b))))
            λ b.
              Triple-if _
                (λ c. Triple-pure _ (λ v h.
                  built base _ v v (tail (tail (head (same c)))) h refl refl refl refl refl))
                λ c.
                  Triple-if _
                    (λ d. Triple-pure _ (λ v h.
                      built base _ v v (tail (tail (tail (head (same d))))) h refl refl refl refl
                        refl))
                    λ d.
                      Triple-raise _
                        (λ v h. record { unlisted = unlisted name a b c d; posts = h.posts })
    where
      same : {s r : String} → str_eq s r ≡ true → s ≡ r
      same {s} {r} e = (eq_iff s r).0 e

  pub build_payload-triple :
      Triple (λ v. v ≡ w) (build_payload t name ref) IsBuilt (λ _. Never) IsUnlisted Never
  unfolding build_payload take
  build_payload-triple =
      Triple-bind {R = λ now. IsBase (base_payload name ref now)}
        (record {
          at = λ v e. record {
            event = refl;
            gateway_ref = refl;
            currency = refl;
            occurred_at = ap (λ u. (t.now u.outside).0) e;
            posts = ap (λ (u : Desk t). u.posts) e;
          };
        })
        (λ now. fill_payload-triple (base_payload name ref now))

  -- `buildPayload` gives a payload for exactly the events that `availableEvents` lists: the payload
  -- is of that event, reference and time, and for any other event there is an error. It does not
  -- panic, and sends nothing.
  pub build_payload_lem :
      let (r, v) = build_payload t name ref w in Ends IsBuilt (λ _. Never) IsUnlisted Never r v
  build_payload_lem = build_payload-triple.at w refl
