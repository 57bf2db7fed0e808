-- ===== src/Webhook/Routes/Batch.antt =====
-- What /simulate/batch answers: one result for each item, in their order.
use mathlib.Core.List.{append_assoc, append-nil}
use mathlib.Core.Path.{ap₂}
use card_payment_service.Prelude.{
  String, ◌≡◌, ◌⊎◌, refl, ap, sym, ◌∙◌, some, List, [], ◌∷◌, ◌++◌, map, inl, inr,
}
use card_payment_service.Domain.{Error, error_text}
use card_payment_service.Effect.{Result, ok, err, both, panic, pure, catch, resume}
use card_payment_service.Effect.Runs.{>>=_ok}
use card_payment_service.Effect.Triple.{Ends}
use card_payment_service.Payment.Guards.{Never}
use card_payment_service.Http.{Payload, succeed}
use card_payment_service.Webhook.{Tool, Desk}
use card_payment_service.Webhook.Simulator.{Simulator, SimulateResult}
use card_payment_service.Webhook.Simulator.Sent.{IsDelivered, IsUndelivered, send_settles}
use card_payment_service.Webhook.Routes.{BatchItem, Request, refused, send_all, answer}

abbrev pub named : BatchItem → String × String
named item = (item.event, item.gateway_ref)

abbrev pub name_of : SimulateResult → String × String
name_of r = (r.event, r.gateway_ref)

module _ (t : Tool) (s : Simulator) where
  -- One item's result: its event was posted, or nothing was and the result has an error.
  abbrev pub IsReported : BatchItem → SimulateResult → Desk t → Desk t → Type 0
  IsReported item r w v =
      IsDelivered t s item.event item.gateway_ref w r v
      ⊎ ((e : Error) × (r ≡ refused item (error_text e))
          × IsUndelivered t s item.event item.gateway_ref w v)

  -- The results of the items one after the other, from one state to another.
  pub data Reports : List BatchItem → List SimulateResult → Desk t → Desk t → Type 0 where
    done : {w : Desk t} → Reports [] [] w w
    next :
        {item : BatchItem} {r : SimulateResult} {items : List BatchItem}
        {results : List SimulateResult} {w u v : Desk t}
        → IsReported item r w u
        → Reports items results u v
        → Reports (item ∷ items) (r ∷ results) w v

  IsReported-name :
      (item : BatchItem) (r : SimulateResult) (w v : Desk t)
      → IsReported item r w v
      → name_of r ≡ named item
  IsReported-name item r w v (inl d) = ap₂ (λ a b. (a, b)) d.event d.gateway_ref
  IsReported-name item r w v (inr (e, same, u)) = ap name_of same

  pub Reports-names :
      {items : List BatchItem} {results : List SimulateResult} {w v : Desk t}
      → Reports items results w v
      → map name_of results ≡ map named items
  Reports-names done = refl
  Reports-names (next h rest) = ap₂ (λ a b. a ∷ b) (IsReported-name _ _ _ _ h) (Reports-names rest)

  -- What the loop adds to the results so far.
  abbrev Adds :
      List BatchItem → List SimulateResult → Desk t → Result (List SimulateResult) × Desk t → Type 0
  Adds items results w (r, v) =
      (added : List SimulateResult) × (r ≡ ok (results ++ added)) × Reports items added w v

  Adds-next :
      (item : BatchItem) (items : List BatchItem) (results : List SimulateResult)
      (r : SimulateResult) (w u : Desk t) (end : Result (List SimulateResult) × Desk t)
      → IsReported item r w u
      → Adds items (results ++ r ∷ []) u end
      → Adds (item ∷ items) results w end
  Adds-next item items results r w u (end, v) h (added, e, rest) =
      (r ∷ added, e ∙ ap ok (append_assoc results (r ∷ []) added), next h rest)

  sent-Adds :
      (item : BatchItem) (items : List BatchItem) (results : List SimulateResult) (w : Desk t)
      (sent : Result SimulateResult) (u : Desk t)
      → Ends
          (IsDelivered t s item.event item.gateway_ref w)
          (λ _. Never)
          (IsUndelivered t s item.event item.gateway_ref w)
          Never
          sent
          u
      → ((results : List SimulateResult) (u : Desk t)
          → Adds items results u (send_all t s items results u))
      → Adds (item ∷ items) results w (
          resume sent
            (λ e. send_all t s items (results ++ refused item (error_text e) ∷ []))
            (λ r. send_all t s items (results ++ r ∷ []))
            u)
  sent-Adds item items results w (ok r) u h loop =
      Adds-next item items results r w u _ (inl h) (loop _ u)
  sent-Adds item items results w (err e) u h loop =
      Adds-next item items results (refused item (error_text e)) w u _ (inr (e, refl, h)) (loop _ u)
  sent-Adds item items results w (both r e) u h loop = absurd h
  sent-Adds item items results w (panic p) u h loop = absurd h

  send_all-Adds :
      (items : List BatchItem) (results : List SimulateResult) (w : Desk t)
      → Adds items results w (send_all t s items results w)
  unfolding send_all pure catch
  send_all-Adds [] results w = ([], ap ok (sym (append-nil results)), done)
  send_all-Adds (item ∷ items) results w =
      sent-Adds item items results w _ _ (send_settles t s item.event item.gateway_ref w)
        (send_all-Adds items)

  -- The route for a batch that was bound always answers 200, with one result for each item, in the
  -- items' order and with their names: whatever happens to one item, the next is sent, from the
  -- state that the one before left, and each result is of an event that was posted, or is no
  -- success, and then nothing was posted for it.
  pub batch_answers :
      (items : List BatchItem) (w : Desk t)
      → let (r, v) = answer t s (Request.batch (some items)) w in
        (results : List SimulateResult) × (r ≡ ok (succeed 200 (Payload.results results)))
        × (map name_of results ≡ map named items)
        × Reports items results w v
  unfolding answer pure
  batch_answers items w =
      let (results, e, reports) = send_all-Adds items [] w in
      rw (>>=_ok (send_all t s items []) w (λ rs. pure (succeed 200 (Payload.results rs))) e)
        (results, refl, Reports-names reports, reports)
