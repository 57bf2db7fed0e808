-- ===== src/Payment/Authorize/Created.antt =====
-- `Authorize` up to the row that it saves.
use card_payment_service.Prelude.{
  ◌≡◌, refl, sym, subst, ◌∙◌, Option, none, some, false, ◌∷◌, inl, inr, ◌==◌, ◌||◌, str_eq, arith,
}
use card_payment_service.Domain.{Uuid, Transaction, TransactionStatus, PaymentType}
use card_payment_service.Effect.Triple.{
  Ends, Triple, Triple-pure, Triple-raise, Triple-deref, Triple-catch, Triple-bind, Triple-before,
  Triple-after,
}
use card_payment_service.External.Table.{TableLaws, Reply, Created}
use card_payment_service.Gateway.{Gateway, TokenizeResponse}
use card_payment_service.World.{Externals, World, on_transactions, result_of}
use card_payment_service.Repository.{transaction_columns, create_transaction}
use card_payment_service.Payment.Types.{ChargeInput}
use card_payment_service.Payment.Transactions.{save_transaction}
use card_payment_service.Payment.Service.{tokenize_card_to_gateway}
use card_payment_service.Payment.Guards.{Ledger, ledger, IsQuiet, Never}
use card_payment_service.Payment.Settle.{IsSent}
use card_payment_service.Payment.Settle.Steps.{send-triple, take_outside-triple}
use card_payment_service.Payment.Authorize.{card_call, IsAbout, IsOpened, HasNotHeld}

module _ (x : Externals) (l : TableLaws x.transactions transaction_columns) (input : ChargeInput)
    (w : Ledger x) where
  abbrev pub NotHeld : World x → Type 0
  NotHeld v = HasNotHeld x l input w (ledger v)

  abbrev pub CardSent : World x → Type 0
  CardSent v = IsSent x l (card_call input) w (ledger v)

  -- The row is saved, and no hold requested yet.
  abbrev pub Saved : Transaction → World x → Type 0
  Saved t v =
      IsOpened x l input TransactionStatus.pending (λ t. card_call input ∷ w.calls) t w (ledger v)

  -- a row as `saveTransaction` builds it
  abbrev IsNew : Transaction → Type 0
  IsNew t = IsAbout input t × (t.status ≡ TransactionStatus.pending)

  free_lem :
      (s : x.transactions.State) (r : Transaction) (o : Option Transaction)
      → l.at s r.id ≡ o
      → ((k : Uuid) (q : Transaction)
          → l.at s k ≡ some q
          → (q.id == r.id || str_eq q.idempotency_key r.idempotency_key) ≡ false)
      → o ≡ none
  free_lem s r none e h = refl
  free_lem s r (some q) e h =
      let key = l.at_key s r.id q e in let apart = h r.id q e in absurd (ground arith)

  Created-Ends :
      (t : Transaction) (v : World x)
      → IsNew t
      → CardSent v
      → (r : Reply Transaction × x.transactions.State)
      → Created transaction_columns l.at l.clock t v.transactions r
      → Ends {W = World x} Saved
          (λ _. NotHeld)
          NotHeld
          Never
          (result_of r.0)
          (record v { transactions = r.1 })
  Created-Ends t v new c (inl t', s) h =
      let same : t'.id ≡ t.id = rw h.0 in
      let free = free_lem v.transactions t _ refl h.1 in
      record {
        fresh = sym (c.row t'.id) ∙ subst (λ k. l.at v.transactions k ≡ none) (sym same) free;
        stored = ground (arith, h.2 t'.id);
        about = record {
          merchant_id = rw h.0 new.0.merchant_id;
          amount = rw h.0 new.0.amount;
          currency = rw h.0 new.0.currency;
          idempotency_key = rw h.0 new.0.idempotency_key;
          payment_type = rw h.0 new.0.payment_type;
        };
        status_is = rw h.0 new.1;
        others = λ k ne.
            let missed : (t.id == k) ≡ false = ground (arith, ne, same) in
            h.2 k ∙ rw missed (c.row k);
        calls = c.calls;
        refunds = c.refunds;
      }
  Created-Ends t v new c (inr e, s) h =
      inr (inl (record { row = λ k. h k ∙ c.row k; calls = c.calls; refunds = c.refunds }))

  create_transaction-triple :
      (t : Transaction)
      → IsNew t
      → Triple CardSent (create_transaction x t) Saved (λ _. NotHeld) NotHeld Never
  unfolding create_transaction on_transactions
  create_transaction-triple t new =
      Triple-catch {R = Saved} {E' = NotHeld}
        (record { at = λ v c. Created-Ends t v new c _ (l.create_lem t v.transactions) })
        (λ f. Triple-raise _ (λ v c. c)) (λ t. Triple-pure t (λ v h. h))

  pub save_transaction-triple :
      (tokenized : Option TokenizeResponse)
      → Triple CardSent
          (save_transaction x input PaymentType.authorize_capture tokenized)
          Saved
          (λ _. NotHeld)
          NotHeld
          NotHeld
  unfolding save_transaction
  save_transaction-triple tokenized =
      Triple-bind (Triple-deref tokenized (λ e v c. inr (inl c))) λ token.
        Triple-before (λ v h. h.0)
          (Triple-bind (take_outside-triple x l w (IsSent x l (card_call input) w) x.new_uuid) λ id.
            Triple-after
              (create_transaction-triple _ (
                record {
                  merchant_id = refl;
                  amount = refl;
                  currency = refl;
                  idempotency_key = refl;
                  payment_type = refl;
                },
                refl,
              ))
              (λ t v h. h) (λ t v h. h) (λ v h. h) (λ v h. absurd h))

  pub tokenize-triple :
      (g : Gateway x.Outside)
      → Triple
          (λ v. IsQuiet x l w (ledger v))
          (tokenize_card_to_gateway x g input)
          (λ _. CardSent)
          (λ _. NotHeld)
          NotHeld
          NotHeld
  unfolding tokenize_card_to_gateway
  tokenize-triple g =
      Triple-catch {R = λ _. CardSent} {E' = CardSent}
        (Triple-after (send-triple x l w (card_call input) _) (λ r v s. s) (λ r v s. s) (λ v s. s)
          (λ v s. inr (inl s)))
        (λ e. Triple-raise _ (λ v s. inr (inl s))) (λ r. Triple-pure r (λ v s. s))
