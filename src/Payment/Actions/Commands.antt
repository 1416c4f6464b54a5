-- ===== src/Payment/Actions/Commands.antt =====
-- The methods of the payment aggregate (internal/payment/domain/payment.go) as one data type of
-- commands, and histories of calls.
use go_marketplace_backend.Base.{
  ℕ, ◌≤◌, ◌≡◌, ◌⊎◌, inl, inr, true, List, [], ◌∷◌, none, some, ok, err, Option, Result, Outcome,
  arith, any, Option-cases, find,
}
use go_marketplace_backend.Base.Text.{Text}
use go_marketplace_backend.Kernel.Identifier.{Ident}
use go_marketplace_backend.Kernel.Money.{Money}
use go_marketplace_backend.Kernel.Money.Laws.{IsMoney}
use go_marketplace_backend.Payment.Types.{
  same_status, transitions, is_terminal, Payment, PaymentRequest, PaymentError,
}
use go_marketplace_backend.Payment.Refunds.{
  has_refund_id, outstanding_total, succeeded_total, succeeded-le-outstanding,
}
use go_marketplace_backend.Payment.Actions.{
  initiate_payment, attach_intent, authorize, fail, capture, cancel, accept_refund, request_refund,
  complete_refund, fail_refund, allows,
}
use go_marketplace_backend.Payment.Actions.Invariant.{
  IsPayment, initiate_payment-IsPayment, attach_intent-IsPayment, authorize-IsPayment,
  fail-IsPayment, capture-IsPayment, cancel-IsPayment, request_refund-IsPayment,
  complete_refund-IsPayment, fail_refund-IsPayment,
}

pub data PaymentCommand : Type 0 where
  attaches : (provider_payment_id redirect_url : Text) → PaymentCommand
  authorizes : (amount : Money) → PaymentCommand
  fails : (reason : Text) → PaymentCommand
  captures : (amount : Money) → PaymentCommand
  cancels : (reason : Text) → PaymentCommand
  requests_refund : (id : Ident) (amount : Money) (reason : Text) → PaymentCommand
  completes_refund : (id : Ident) (provider_refund_id : Text) → PaymentCommand
  fails_refund : (id : Ident) (reason : Text) → PaymentCommand

abbrev error_of : {A : Type 0} → Result PaymentError A → Option PaymentError
error_of (ok _) = none
error_of (err e) = some e

unfoldable pub call : PaymentCommand → ℕ → Payment → Outcome Payment PaymentError
call (attaches id url) now p = attach_intent id url now p
call (authorizes amount) now p = authorize amount now p
call (fails reason) now p = fail reason now p
call (captures amount) now p = capture amount now p
call (cancels reason) now p = cancel reason now p
call (requests_refund id amount reason) now p =
    let (q, r) = request_refund id amount reason now p in (q, error_of r)
call (completes_refund id provider_id) now p = complete_refund id provider_id now p
call (fails_refund id reason) now p = fail_refund id reason now p

-- A history of calls, each at its time, failed ones included.
unfoldable pub run : List (ℕ × PaymentCommand) → Payment → Payment
run [] p = p
run ((now, c) ∷ cs) p = run cs (call c now p).0

pub call-IsPayment :
    (c : PaymentCommand) (now : ℕ) (p : Payment) → IsPayment p → IsPayment (call c now p).0
unfolding call
call-IsPayment (attaches id url) now p v = attach_intent-IsPayment id url now p v
call-IsPayment (authorizes amount) now p v = authorize-IsPayment amount now p v
call-IsPayment (fails reason) now p v = fail-IsPayment reason now p v
call-IsPayment (captures amount) now p v = capture-IsPayment amount now p v
call-IsPayment (cancels reason) now p v = cancel-IsPayment reason now p v
call-IsPayment (requests_refund id amount reason) now p v =
    request_refund-IsPayment id amount reason now p v
call-IsPayment (completes_refund id provider_id) now p v =
    complete_refund-IsPayment id provider_id now p v
call-IsPayment (fails_refund id reason) now p v = fail_refund-IsPayment id reason now p v

run-IsPayment : (cs : List (ℕ × PaymentCommand)) (p : Payment) → IsPayment p → IsPayment (run cs p)
unfolding run
run-IsPayment [] p v = v
run-IsPayment ((now, c) ∷ cs) p v = run-IsPayment cs (call c now p).0 (call-IsPayment c now p v)

-- After any history of calls on a payment that was initiated for an amount within an int64, what is
-- refunded is the sum of the successful refunds, that is at most what is requested in refunds, that is at most what is captured, that is at most what is authorized, and
-- that is at most the amount of the payment.
pub run_bounds :
    (req : PaymentRequest) (start : ℕ) (cs : List (ℕ × PaymentCommand)) {p : Payment}
    → IsMoney req.amount
    → initiate_payment req start ≡ ok p
    → let q = run cs p in
      (q.refunded_amount.amount ≡ succeeded_total q.refunds)
      × (q.refunded_amount.amount ≤ outstanding_total q.refunds)
      × (outstanding_total q.refunds ≤ q.captured_amount.amount)
      × (q.captured_amount.amount ≤ q.authorized_amount.amount)
      × (q.authorized_amount.amount ≤ q.amount.amount)
run_bounds req start cs {p} b e =
    let v = run-IsPayment cs p (initiate_payment-IsPayment req start b e) in
    omega (arith, v, succeeded-le-outstanding (run cs p).refunds)

-- On a payment that keeps the invariant, a call leaves the status alone or takes one edge of the table
-- of transitions.
pub call-edge :
    (c : PaymentCommand) (now : ℕ) (p : Payment)
    → IsPayment p
    → let q = (call c now p).0 in
      (q.status ≡ p.status) ⊎ (any (λ s. same_status s q.status) (transitions p.status) ≡ true)
unfolding call attach_intent authorize fail capture cancel request_refund accept_refund
    complete_refund fail_refund allows transitions
call-edge (attaches id url) now p v = ground arith
call-edge (authorizes amount) now p v = ground arith
call-edge (fails reason) now p v = ground arith
call-edge (captures amount) now p v = ground arith
call-edge (cancels reason) now p v = ground arith
call-edge (requests_refund id amount reason) now p v = ground arith
call-edge (completes_refund id provider_id) now p v =
    elim (Option-cases (find (has_refund_id id) p.refunds)) [
      | inl missing ↦ ground (arith, missing)
      | inr (r, found) ↦ ground (arith, found)
    ]
call-edge (fails_refund id reason) now p v = ground arith

-- No call changes the status of a payment that keeps the invariant and has failed or is cancelled or
-- refunded.
pub payment_call_terminal :
    (c : PaymentCommand) (now : ℕ) (p : Payment)
    → is_terminal p.status ≡ true
    → IsPayment p
    → (call c now p).0.status ≡ p.status
unfolding call attach_intent authorize fail capture cancel request_refund accept_refund
    complete_refund fail_refund allows is_terminal
payment_call_terminal (attaches id url) now p t v = ground arith
payment_call_terminal (authorizes amount) now p t v = ground arith
payment_call_terminal (fails reason) now p t v = ground arith
payment_call_terminal (captures amount) now p t v = ground arith
payment_call_terminal (cancels reason) now p t v = ground arith
payment_call_terminal (requests_refund id amount reason) now p t v = ground arith
payment_call_terminal (completes_refund id provider_id) now p t v =
    elim (Option-cases (find (has_refund_id id) p.refunds)) [
      | inl missing ↦ ground (arith, missing)
      | inr (r, found) ↦ ground (arith, found)
    ]
payment_call_terminal (fails_refund id reason) now p t v = ground arith
