-- ===== src/Payment/Actions/RefundRules.antt =====
-- Which refunds `RequestRefund` accepts, and `RefundableAmount` (internal/payment/domain/payment.go).
use go_marketplace_backend.Base.{
  ℕ, ◌+◌, ◌≤◌, ◌<◌, ◌≡◌, refl, ◌⊎◌, inl, inr, [], ◌∷◌, ◌++◌, none, ok, err, arith, find,
}
use native.Mathlib.Decide.{dec_le}
use go_marketplace_backend.Base.Text.{Text, trim_space, text_eq_iff}
use go_marketplace_backend.Kernel.Identifier.{Ident}
use go_marketplace_backend.Kernel.Money.{Money, add, sub, compare, max_int64, zero_like}
use go_marketplace_backend.Payment.Types.{
  refund_pending, captured, Payment, Refund, refund_exceeds_charge, currency_mismatch,
}
use go_marketplace_backend.Payment.Refunds.{
  has_refund_id, outstanding_total, outstanding_from-total,
}
use go_marketplace_backend.Payment.Actions.{
  accept_refund, request_refund, outstanding_refunds, refundable_amount,
}
use go_marketplace_backend.Payment.Actions.Invariant.{IsPayment}

outstanding_refunds-total :
    (p : Payment)
    → IsPayment p
    → outstanding_refunds p
      ≡ ok (record { amount = outstanding_total p.refunds; currency = p.amount.currency })
unfolding outstanding_refunds
outstanding_refunds-total p v = ground (
  arith,
  outstanding_from-total (zero_like p.amount) p.refunds v.refunds_currency (omega (arith, v)),
)

-- On a payment that keeps the invariant, `RefundableAmount` and the outstanding refunds make up what is
-- captured, and it is in the currency of the payment.
pub refundable_amount-exact :
    (p : Payment)
    → IsPayment p
    → ((refundable_amount p).amount + outstanding_total p.refunds ≡ p.captured_amount.amount)
      × ((refundable_amount p).currency ≡ p.amount.currency)
unfolding refundable_amount sub
refundable_amount-exact p v =
    ground (
      arith,
      outstanding_refunds-total p v,
      text_eq_iff p.captured_amount.currency p.amount.currency,
    )

-- A refund of a positive amount under a new identifier that is not empty, in the currency of the payment,
-- which is captured.
pub record IsRequest (id : Ident) (amount : Money) (p : Payment) : Type 0 where
  pub fresh : find (has_refund_id id) p.refunds ≡ none
  pub named : ¬ (id ≡ [])
  pub positive : 0 < amount.amount
  pub in_currency : amount.currency ≡ p.amount.currency
  pub of_captured : p.status ≡ captured

-- On a payment that keeps the invariant, a refund of a positive amount under a new identifier that is not
-- empty, in the currency of the payment, which is captured: within the refundable amount it is accepted
-- and appended; a larger one is refused and nothing changes, as exceeding the charge while the
-- outstanding refunds and the amount are together within an int64, and as a currency mismatch above it.
pub request_refund_rule :
    (id : Ident) (amount : Money) (reason : Text) (now : ℕ) (p : Payment)
    → IsPayment p
    → IsRequest id amount p
    → ((amount.amount ≤ (refundable_amount p).amount)
        × ((r : Refund) × ((request_refund id amount reason now p).1 ≡ ok r)
            × (r.amount ≡ amount)
            × ((request_refund id amount reason now p).0.refunds ≡ p.refunds ++ r ∷ [])))
      ⊎ (((refundable_amount p).amount < amount.amount)
          × (outstanding_total p.refunds + amount.amount ≤ max_int64)
          × (request_refund id amount reason now p ≡ (p, err refund_exceeds_charge)))
      ⊎ ((max_int64 < outstanding_total p.refunds + amount.amount)
          × (request_refund id amount reason now p ≡ (p, err currency_mismatch)))
unfolding request_refund accept_refund add compare
request_refund_rule id amount reason now p v q =
    let limit = refundable_amount-exact p v in
    let total = outstanding_refunds-total p v in
    let same_amount = text_eq_iff p.amount.currency amount.currency in
    let same_captured = text_eq_iff p.amount.currency p.captured_amount.currency in
    elim (dec_le amount.amount (refundable_amount p).amount) [
      | yes within_limit ↦ inl (
        within_limit,
        (
          record {
            id = id;
            amount = amount;
            reason = trim_space reason;
            status = refund_pending;
            provider_refund_id = [];
            created_at = now;
            completed_at = 0;
          },
          ground (arith, v, limit, total, same_amount, same_captured),
          refl,
          ground (arith, v, limit, total, same_amount, same_captured),
        ),
      )
      | no beyond ↦ elim (dec_le (outstanding_total p.refunds + amount.amount) max_int64) [
        | yes fits ↦ inr (
            inl (omega arith, fits, ground (arith, fits, limit, total, same_amount, same_captured)))
        | no wraps ↦
            inr (inr (omega arith, ground (arith, wraps, total, same_amount, same_captured)))
      ]
    ]
