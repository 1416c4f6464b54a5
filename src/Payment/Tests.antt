-- ===== src/Payment/Tests.antt =====
-- Payments at concrete inputs: one that is authorized, captured and refunded in part.
use go_marketplace_backend.Base.{
  ◌+◌, ◌<◌, ℕ, ◌≤◌, ◌<◌, ◌≡◌, refl, ◌⊎◌, true, List, [], ◌∷◌, ◌++◌, ok, err, any, arith,
}
use go_marketplace_backend.Base.Text.{text_eq, trim_space}
use go_marketplace_backend.Kernel.Money.{Money, kzt, max_int64}
use go_marketplace_backend.Payment.Types.{
  currency_mismatch, created, captured, refunded, same_status, transitions, is_terminal, Refund,
  refund_pending, refund_succeeded, refund_exceeds_charge, Payment, PaymentRequest,
}
use go_marketplace_backend.Payment.Refunds.{outstanding_total, succeeded_total}
use go_marketplace_backend.Payment.Actions.{initiate_payment, request_refund, refundable_amount}
use go_marketplace_backend.Payment.Actions.Invariant.{IsPayment}
use go_marketplace_backend.Payment.Actions.Commands.{
  PaymentCommand, attaches, authorizes, captures, requests_refund, completes_refund, call, run,
  run_bounds, call-edge,
}
use go_marketplace_backend.Payment.Actions.RefundRules.{IsRequest, request_refund_rule}

abbrev tenge : ℕ → Money
tenge n = record { amount = n; currency = kzt }

abbrev request : PaymentRequest
request = record {
  id = 1 ∷ [];
  order_id = 2 ∷ [];
  buyer_id = 3 ∷ [];
  provider = b'p' ∷ [];
  amount = tenge 1000;
  method_id = [];
  save_method = true;
}

abbrev started : Payment
started = record {
  id = 1 ∷ [];
  order_id = 2 ∷ [];
  buyer_id = 3 ∷ [];
  provider = b'p' ∷ [];
  provider_payment_id = [];
  redirect_url = [];
  method_id = [];
  save_method = true;
  status = created;
  amount = tenge 1000;
  authorized_amount = tenge 0;
  captured_amount = tenge 0;
  refunded_amount = tenge 0;
  refunds = [];
  failure_reason = [];
  created_at = 5;
  updated_at = 5;
  version = 0;
  events = [];
}

request_starts : initiate_payment request 5 ≡ ok started
unfolding initiate_payment trim_space
request_starts = refl

abbrev history : List (ℕ × PaymentCommand)
history =
    (6, attaches (b'i' ∷ []) (b'u' ∷ []))
    ∷ (7, authorizes (tenge 1000))
    ∷ (8, captures (tenge 800))
    ∷ (9, requests_refund (4 ∷ []) (tenge 300) [])
    ∷ (10, completes_refund (4 ∷ []) (b'r' ∷ []))
    ∷ (11, requests_refund (5 ∷ []) (tenge 200) [])
    ∷ []

run_bounds_example :
    let q = run history started in
    (q.refunded_amount.amount ≡ succeeded_total q.refunds)
    × (q.refunded_amount.amount ≤ outstanding_total q.refunds)
    × (outstanding_total q.refunds ≤ q.captured_amount.amount)
    × (q.captured_amount.amount ≤ q.authorized_amount.amount)
    × (q.authorized_amount.amount ≤ q.amount.amount)
run_bounds_example = run_bounds request 5 history (omega arith) request_starts

abbrev old_refund : Refund
old_refund = record {
  id = 4 ∷ [];
  amount = tenge 300;
  reason = [];
  status = refund_pending;
  provider_refund_id = [];
  created_at = 9;
  completed_at = 0;
}

abbrev paid_out : Payment
paid_out = record started {
  status = captured;
  authorized_amount = tenge 1000;
  captured_amount = tenge 800;
  refunds = old_refund ∷ [];
}

paid_out-IsPayment : IsPayment paid_out
paid_out-IsPayment = ground arith

abbrev given_back : Payment
given_back = record paid_out {
  status = refunded;
  captured_amount = tenge 300;
  refunded_amount = tenge 300;
  refunds = record old_refund { status = refund_succeeded } ∷ [];
}

given_back-IsPayment : IsPayment given_back
given_back-IsPayment = ground arith

call-edge_example :
    let q = (call (completes_refund (4 ∷ []) []) 12 paid_out).0 in
    (q.status ≡ paid_out.status)
    ⊎ (any (λ s. same_status s q.status) (transitions paid_out.status) ≡ true)
call-edge_example = call-edge (completes_refund (4 ∷ []) []) 12 paid_out paid_out-IsPayment

given_back_is_terminal : is_terminal given_back.status ≡ true
unfolding is_terminal
given_back_is_terminal = refl

next_refund-IsRequest : IsRequest (5 ∷ []) (tenge 500) paid_out
unfolding text_eq
next_refund-IsRequest = ground arith

request_refund_rule_example :
    ((500 ≤ (refundable_amount paid_out).amount)
      × ((r : Refund) × ((request_refund (5 ∷ []) (tenge 500) [] 12 paid_out).1 ≡ ok r)
          × (r.amount ≡ tenge 500)
          × ((request_refund (5 ∷ []) (tenge 500) [] 12 paid_out).0.refunds
              ≡ paid_out.refunds ++ r ∷ [])))
    ⊎ (((refundable_amount paid_out).amount < 500)
        × (outstanding_total paid_out.refunds + 500 ≤ max_int64)
        × (request_refund (5 ∷ []) (tenge 500) [] 12 paid_out
            ≡ (paid_out, err refund_exceeds_charge)))
    ⊎ ((max_int64 < outstanding_total paid_out.refunds + 500)
        × (request_refund (5 ∷ []) (tenge 500) [] 12 paid_out ≡ (paid_out, err currency_mismatch)))
request_refund_rule_example =
    request_refund_rule (5 ∷ []) (tenge 500) [] 12 paid_out paid_out-IsPayment next_refund-IsRequest
