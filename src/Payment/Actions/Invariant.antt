-- ===== src/Payment/Actions/Invariant.antt =====
-- The invariant of the money of a payment (internal/payment/domain/payment.go), method by method.
use go_marketplace_backend.Base.{
  ℕ, ◌+◌, ◌≤◌, ◌≡◌, refl, ◌⊎◌, inl, inr, [], ok, arith, Option-cases, Result-cases, find,
}
use go_marketplace_backend.Base.Text.{Text, trim_space}
use go_marketplace_backend.Kernel.Identifier.{Ident}
use go_marketplace_backend.Kernel.Money.{Money, zero_like}
use go_marketplace_backend.Kernel.Money.Laws.{IsMoney, add_cases, compare_cases, equals_iff}
use go_marketplace_backend.Payment.Types.{
  captured, refunded, Payment, PaymentRequest, Refund, refund_pending, refund_succeeded,
  refund_failed,
}
use go_marketplace_backend.Payment.Refunds.{
  has_refund_id, outstanding_total, succeeded_total, SameCurrency, outstanding_from-exact,
  outstanding_total-append, SameCurrency-append, SameCurrency-update, totals-update_succeeded,
  totals-update_failed, succeeded-le-outstanding,
}
use go_marketplace_backend.Payment.Actions.{
  initiate_payment, attach_intent, authorize, fail, capture, cancel, accept_refund, request_refund,
  complete_refund, fail_refund, outstanding_refunds,
}

pub record IsPayment (p : Payment) : Type 0 where
  pub amount_bounded : IsMoney p.amount
  pub authorized_currency : p.authorized_amount.currency ≡ p.amount.currency
  pub captured_currency : p.captured_amount.currency ≡ p.amount.currency
  pub refunded_currency : p.refunded_amount.currency ≡ p.amount.currency
  pub authorized_fits : p.authorized_amount.amount ≤ p.amount.amount
  pub captured_fits : p.captured_amount.amount ≤ p.authorized_amount.amount
  pub uncaptured :
      (p.status ≡ captured)
      ⊎ (p.status ≡ refunded)
      ⊎ ((p.captured_amount.amount ≡ 0) × (p.refunds ≡ []))
  pub refunds_currency : SameCurrency p.amount.currency p.refunds
  pub outstanding_fits : outstanding_total p.refunds ≤ p.captured_amount.amount
  pub refunded_exact : p.refunded_amount.amount ≡ succeeded_total p.refunds
  pub refunded_full : p.status ≡ refunded → p.refunded_amount.amount ≡ p.captured_amount.amount

pub initiate_payment-IsPayment :
    (req : PaymentRequest) (now : ℕ) {p : Payment}
    → IsMoney req.amount
    → initiate_payment req now ≡ ok p
    → IsPayment p
unfolding initiate_payment
initiate_payment-IsPayment req now b e = ground arith

pub attach_intent-IsPayment :
    (id url : Text) (now : ℕ) (p : Payment) → IsPayment p → IsPayment (attach_intent id url now p).0
unfolding attach_intent
attach_intent-IsPayment id url now p v = ground arith

pub authorize-IsPayment :
    (amount : Money) (now : ℕ) (p : Payment) → IsPayment p → IsPayment (authorize amount now p).0
unfolding authorize
authorize-IsPayment amount now p v = ground (arith, equals_iff amount p.amount)

pub fail-IsPayment :
    (reason : Text) (now : ℕ) (p : Payment) → IsPayment p → IsPayment (fail reason now p).0
unfolding fail
fail-IsPayment reason now p v = ground arith

pub cancel-IsPayment :
    (reason : Text) (now : ℕ) (p : Payment) → IsPayment p → IsPayment (cancel reason now p).0
unfolding cancel
cancel-IsPayment reason now p v = ground arith

pub capture-IsPayment :
    (amount : Money) (now : ℕ) (p : Payment) → IsPayment p → IsPayment (capture amount now p).0
unfolding capture
capture-IsPayment amount now p v = ground (arith, compare_cases amount p.authorized_amount)

-- The sum that `RequestRefund` starts from is what is outstanding.
outstanding_refunds-exact :
    (p : Payment) (r : Money)
    → outstanding_refunds p ≡ ok r
    → (r.amount ≡ outstanding_total p.refunds) × (r.currency ≡ p.amount.currency) × IsMoney r
unfolding outstanding_refunds
outstanding_refunds-exact p r e =
    let (sum, currency, fits) =
      outstanding_from-exact (zero_like p.amount) p.refunds {r = r} (omega arith) e in
    (omega arith, currency, fits)

accept_refund-IsPayment :
    (id : Ident) (amount : Money) (reason : Text) (now : ℕ) (p : Payment)
    → p.status ≡ captured
    → IsPayment p
    → IsPayment (accept_refund id amount reason now p).0
unfolding accept_refund
accept_refund-IsPayment id amount reason now p st v = elim (Result-cases (outstanding_refunds p)) [
  | inr (x, bad) ↦ ground (arith, bad)
  | inl (out, fine) ↦
      let refund : Refund = record {
        id = id;
        amount = amount;
        reason = trim_space reason;
        status = refund_pending;
        provider_refund_id = [];
        created_at = now;
        completed_at = 0;
      } in
      let (exact, cur, fits) = outstanding_refunds-exact p out fine in
      ground (
        arith,
        fine,
        add_cases out amount fits,
        compare_cases (record { amount = out.amount + amount.amount; currency = out.currency })
            p.captured_amount,
        outstanding_total-append p.refunds refund refl,
        SameCurrency-append p.amount.currency p.refunds refund v.refunds_currency,
      )
]

pub request_refund-IsPayment :
    (id : Ident) (amount : Money) (reason : Text) (now : ℕ) (p : Payment)
    → IsPayment p
    → IsPayment (request_refund id amount reason now p).0
unfolding request_refund
request_refund-IsPayment id amount reason now p v =
    ground (arith, accept_refund-IsPayment id amount reason now p)

pub fail_refund-IsPayment :
    (id : Ident) (reason : Text) (now : ℕ) (p : Payment)
    → IsPayment p
    → IsPayment (fail_refund id reason now p).0
unfolding fail_refund
fail_refund-IsPayment id reason now p v = elim (Option-cases (find (has_refund_id id) p.refunds)) [
  | inl missing ↦ ground (arith, missing)
  | inr (r, found) ↦
      let done : Refund → Refund =
        λ x. record x { status = refund_failed; reason = trim_space reason; completed_at = now } in
      ground (
        arith,
        found,
        totals-update_failed id done p.refunds r (λ x. refl),
        SameCurrency-update p.amount.currency id done p.refunds (λ x. refl) v.refunds_currency,
      )
]

pub complete_refund-IsPayment :
    (id : Ident) (provider_refund_id : Text) (now : ℕ) (p : Payment)
    → IsPayment p
    → IsPayment (complete_refund id provider_refund_id now p).0
unfolding complete_refund
complete_refund-IsPayment id pid now p v = elim (Option-cases (find (has_refund_id id) p.refunds)) [
  | inl missing ↦ ground (arith, missing)
  | inr (r, found) ↦
      let done : Refund → Refund =
        λ x. record x { status = refund_succeeded; provider_refund_id = pid; completed_at = now } in
      ground (
        arith,
        found,
        add_cases p.refunded_amount r.amount (omega (arith, succeeded-le-outstanding p.refunds)),
        equals_iff
            (record {
              amount = p.refunded_amount.amount + r.amount.amount;
              currency = p.refunded_amount.currency;
            })
            p.captured_amount,
        totals-update_succeeded id done p.refunds r (λ x. refl) (λ x. refl),
        SameCurrency-update p.amount.currency id done p.refunds (λ x. refl) v.refunds_currency,
      )
]
