-- ===== src/Webhook/Simulator/Sent.antt =====
-- What `Send` has posted when it ends, and what its result says of the answer.
use Prim.Native.String
use mathlib.Core.List.{Memᴰ}
use card_payment_service.Prelude.{
  ℕ, ◌≤◌, ◌<◌, String, ◌≡◌, ◌↔◌, ◌⊎◌, refl, ap, true, false, Option, none, some, List, [], ◌∷◌, inl,
  inr, arith,
}
use card_payment_service.Domain.{Error, error_text}
use card_payment_service.Effect.{pure, catch, resume}
use card_payment_service.Effect.Triple.{
  Triple, Triple-pure, Triple-raise, Triple-bind, Triple-after, Ends,
}
use card_payment_service.External.Table.{Reply}
use card_payment_service.World.{result_of}
use card_payment_service.Crypto.{hex_encode}
use card_payment_service.Payment.Guards.{Never}
use card_payment_service.Webhook.{HttpRequest, Tool, Desk, post}
use card_payment_service.Webhook.Events.{
  EventType, WebhookPayload, payload_fields, available_events, build_payload,
}
use card_payment_service.Webhook.Events.Built.{IsBuilt, build_payload-triple}
use card_payment_service.Webhook.Simulator.{
  Simulator, SimulateResult, set_header, answered, unanswered, sign, build_http_request, marshalled,
  with_headers, is_success, decimal, send,
}

module _ (t : Tool) (s : Simulator) where
  -- a POST of the body to the target, with its signature
  abbrev pub signed_post : List ℕ → HttpRequest
  signed_post body = record {
    method = "POST";
    url = s.target_url;
    headers =
        ("Content-Type", "application/json")
        ∷ ("X-Signature", hex_encode (t.hmac_sha256 s.secret body))
        ∷ [];
    body = body;
  }

  -- The result says what the client has answered.
  abbrev pub Tells : SimulateResult → Reply ℕ → Type 0
  Tells r (inl code) =
      (r.status_code ≡ code)
      × (r.success ≡ false → r.error ≡ String.◌++◌ "payment service returned " (decimal code))
  Tells r (inr e) = (r.status_code ≡ 0) × (r.error ≡ error_text e)

  module _ (name : EventType) (ref : String) (w : Desk t) where
    -- The body of a payload of the event and the reference.
    pub record IsBody (body : List ℕ) : Type 0 where
      pub listed : Memᴰ name available_events
      pub payload : WebhookPayload
      pub event : payload.event ≡ name
      pub gateway_ref : payload.gateway_ref ≡ ref
      pub coded : t.marshal (payload_fields payload) ≡ inl body

    pub record IsDelivered (r : SimulateResult) (v : Desk t) : Type 0 where
      pub body : List ℕ
      pub is_body : IsBody body
      pub posts : v.posts ≡ signed_post body ∷ w.posts
      pub event : r.event ≡ name
      pub gateway_ref : r.gateway_ref ≡ ref
      pub verdict : (r.success ≡ true) ↔ ((200 ≤ r.status_code) × (r.status_code < 300))
      pub silent : r.success ≡ true → r.error ≡ ""
      pub told : (o : t.Outside) × Tells r (t.do_request (signed_post body) o).0

    -- Nothing was posted: the event is not listed, or its payload or the target was turned down.
    pub record IsUndelivered (v : Desk t) : Type 0 where
      pub posts : v.posts ≡ w.posts
      pub why :
          (¬ Memᴰ name available_events)
          ⊎ ((p : WebhookPayload) × (e : Error) × (p.event ≡ name)
              × (t.marshal (payload_fields p) ≡ inr e))
          ⊎ ((e : Error) × (t.url_error s.target_url ≡ some e))

    build-triple :
        Triple
          (λ v. v ≡ w)
          (build_payload t name ref)
          (IsBuilt t name ref w)
          (λ _. IsUndelivered)
          IsUndelivered
          Never
    build-triple =
        Triple-after (build_payload-triple t name ref w) (λ p v h. h) (λ p v h. absurd h)
          (λ v h. record { posts = h.posts; why = inl h.unlisted }) (λ v h. h)

    marshalled-triple :
        (p : WebhookPayload) (reply : Reply (List ℕ))
        → t.marshal (payload_fields p) ≡ reply
        → Triple
            (IsBuilt t name ref w p)
            (marshalled t s reply)
            (λ body v. IsBody body × (v.posts ≡ w.posts))
            (λ _. IsUndelivered)
            IsUndelivered
            Never
    unfolding marshalled
    marshalled-triple p (inl body) e = Triple-pure body λ v h. (
      record {
        listed = h.listed;
        payload = p;
        event = h.event;
        gateway_ref = h.gateway_ref;
        coded = e;
      },
      h.posts,
    )
    marshalled-triple p (inr e') e =
        Triple-raise _ λ v h. record { posts = h.posts; why = inr (inl (p, e', h.event, e)) }

    build_http_request-triple :
        (body : List ℕ) (o : Option Error)
        → t.url_error s.target_url ≡ o
        → Triple
            (λ v. IsBody body × (v.posts ≡ w.posts))
            (build_http_request t s body)
            (λ r v.
              (with_headers t s (sign t s body) r ≡ signed_post body)
              × IsBody body
              × (v.posts ≡ w.posts))
            (λ _. IsUndelivered)
            IsUndelivered
            Never
    unfolding build_http_request with_headers sign set_header
    build_http_request-triple body none e = record { at = λ v h. rw e (refl, h.0, h.1) }
    build_http_request-triple body (some err) e = record {
      at = λ v h. rw e (record { posts = h.1; why = inr (inr (err, e)) });
    }

    verdict : (code : ℕ) → (is_success code ≡ true) ↔ ((200 ≤ code) × (code < 300))
    verdict code = ground arith

    silent : (code : ℕ) → is_success code ≡ true → (answered name ref code).error ≡ ""
    unfolding answered
    silent code e = rw e refl

    loud :
        (code : ℕ)
        → is_success code ≡ false
        → (answered name ref code).error ≡ String.◌++◌ "payment service returned " (decimal code)
    unfolding answered
    loud code e = rw e refl

    delivered :
        (body : List ℕ) (v : Desk t)
        → IsBody body
        → v.posts ≡ w.posts
        → (answer : Reply ℕ) → (t.do_request (signed_post body) v.outside).0 ≡ answer
        → (o : t.Outside)
        → let u : Desk t = record { outside = o; posts = signed_post body ∷ v.posts } in
          let (r, u') =
            resume
              (result_of answer)
              (λ e. pure (record (unanswered name ref) { error = error_text e }))
              (λ code. pure (answered name ref code))
              u in
          Ends IsDelivered (λ _. Never) IsUndelivered Never r u'
    unfolding pure answered
    delivered body v b p (inl code) e o = record {
      body = body;
      is_body = b;
      posts = ap (λ ps. signed_post body ∷ ps) p;
      event = refl;
      gateway_ref = refl;
      verdict = verdict code;
      silent = silent code;
      told = (v.outside, rw e (refl, loud code));
    }
    delivered body v b p (inr err) e o = record {
      body = body;
      is_body = b;
      posts = ap (λ ps. signed_post body ∷ ps) p;
      event = refl;
      gateway_ref = refl;
      verdict = ground arith;
      silent = λ h. cc;
      told = (v.outside, rw e (refl, refl));
    }

    post-triple :
        (body : List ℕ) (r : HttpRequest)
        → Triple
            (λ v.
              (with_headers t s (sign t s body) r ≡ signed_post body)
              × IsBody body
              × (v.posts ≡ w.posts))
            (catch
              (post (with_headers t s (sign t s body) r))
              (λ e. pure (record (unanswered name ref) { error = error_text e }))
              (λ code. pure (answered name ref code)))
            IsDelivered
            (λ _. Never)
            IsUndelivered
            Never
    unfolding catch post
    post-triple body r = record { at = λ v h. rw h.0 (delivered body v h.1 h.2 _ refl _) }

    -- How `Send` ends, whatever the client answers. With a result and no error: the event is listed,
    -- one POST to the target was handed to the client, whose body is the JSON of a payload of that
    -- event and reference and whose signature is the HMAC of that very body in hexadecimal; the
    -- result names the event and the reference, has the status of the answer, or status 0 and the
    -- text of the client's error, is a success exactly for a status from 200 to 299, and then has no
    -- error, and else an error with the status. With an error: nothing was posted, and the event is not listed, or its payload was not
    -- marshalled, or the target is no URL. It does not panic.
    pub send_settles :
        let (r, v) = send t s name ref w in Ends IsDelivered (λ _. Never) IsUndelivered Never r v
    unfolding send
    send_settles =
        (Triple-bind build-triple λ p.
            Triple-bind (marshalled-triple p _ refl) λ body.
              Triple-bind (build_http_request-triple body _ refl) λ r. post-triple body r).at
          w refl
