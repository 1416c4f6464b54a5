-- ===== src/Payment/Actions.antt =====
-- The payment aggregate (internal/payment/domain/payment.go), method by method. A method gives the
-- payment that it leaves behind, also when it returns an error.
pub mod Invariant
pub mod Commands
pub mod RefundRules
use go_marketplace_backend.Base.{
  ℕ, Bool, true, false, ◌&&◌, ◌||◌, not, List, [], ◌∷◌, ◌++◌, ltb, ◌==◌, if◌then◌else◌, Option,
  none, some, Result, ok, err, Outcome, then_do, fail_if, find, update_first, any,
}
use go_marketplace_backend.Base.Text.{Text, is_empty, is_blank, trim_space, text_eq}
use go_marketplace_backend.Kernel.Identifier.{Ident, id_is_zero}
use go_marketplace_backend.Kernel.Money.{Money, Sign, add, sub, compare, equals, zero_like}
use go_marketplace_backend.Payment.Types.{
  Status, created, pending, authorized, captured, failed, cancelled, refunded, same_status,
  transitions, is_terminal, Refund, RefundStatus, refund_pending, refund_succeeded, refund_failed,
  PaymentEvent, payment_pending, payment_authorized, payment_failed, payment_captured,
  payment_cancelled, refund_requested, refund_completed, PaymentError, invalid_id, invalid_amount,
  invalid_provider, invalid_intent, refund_not_found, amount_mismatch, capture_exceeds_hold,
  refund_exceeds_charge, payment_terminal, currency_mismatch, transition_error, Payment,
  PaymentRequest,
}
use go_marketplace_backend.Payment.Refunds.{has_refund_id, is_pending, outstanding_from}

unfoldable pub initiate_payment : PaymentRequest → ℕ → Result PaymentError Payment
initiate_payment req now =
    if id_is_zero req.id || id_is_zero req.order_id || id_is_zero req.buyer_id
    then err invalid_id
    else if is_blank req.provider
    then err invalid_provider
    else if req.amount.amount == 0
    then err invalid_amount
    else ok (record {
      id = req.id;
      order_id = req.order_id;
      buyer_id = req.buyer_id;
      provider = req.provider;
      provider_payment_id = [];
      redirect_url = [];
      method_id = req.method_id;
      save_method = req.save_method && id_is_zero req.method_id;
      status = created;
      amount = req.amount;
      authorized_amount = zero_like req.amount;
      captured_amount = zero_like req.amount;
      refunded_amount = zero_like req.amount;
      refunds = [];
      failure_reason = [];
      created_at = now;
      updated_at = now;
      version = 0;
      events = [];
    })

unfoldable pub allows : Status → Payment → Result PaymentError (Unit {0})
unfolding is_terminal transitions
allows target p =
    if is_terminal p.status
    then err payment_terminal
    else if not (any (λ s. same_status s target) (transitions p.status))
    then err (transition_error p.status target)
    else ok tt

-- `transition`, with what the caller does when it succeeds.
abbrev pub move : Status → ℕ → Payment → (Payment → Payment) → Outcome Payment PaymentError
move target now p after =
    then_do p (allows target p) λ _. (after (record p { status = target; updated_at = now }), none)

abbrev pub emit : PaymentEvent → Payment → Payment
emit e p = record p { events = p.events ++ e ∷ [] }

unfoldable pub attach_intent : Text → Text → ℕ → Payment → Outcome Payment PaymentError
unfolding allows
attach_intent provider_payment_id redirect_url now p =
    if same_status p.status pending && text_eq p.provider_payment_id provider_payment_id
    then (p, none)
    else if is_empty provider_payment_id || is_empty redirect_url
    then (p, some invalid_intent)
    else move pending now p λ q.
      emit (payment_pending q.id q.order_id q.amount now)
        (record q { provider_payment_id = provider_payment_id; redirect_url = redirect_url })

unfoldable pub authorize : Money → ℕ → Payment → Outcome Payment PaymentError
unfolding allows
authorize amount now p =
    if same_status p.status authorized || same_status p.status captured
    then (p, none)
    else then_do p (allows authorized p) λ _.
      if not (equals amount p.amount)
      then (p, some amount_mismatch)
      else move authorized now p λ q.
        emit (payment_authorized q.id q.order_id amount now)
          (record q { authorized_amount = amount })

unfoldable pub fail : Text → ℕ → Payment → Outcome Payment PaymentError
unfolding allows
fail reason now p =
    if same_status p.status failed
    then (p, none)
    else move failed now p λ q.
      emit (payment_failed q.id q.order_id (trim_space reason) now)
        (record q { failure_reason = trim_space reason })

unfoldable pub capture : Money → ℕ → Payment → Outcome Payment PaymentError
unfolding allows
capture amount now p =
    if same_status p.status captured && equals amount p.captured_amount
    then (p, none)
    else then_do p (allows captured p) λ _.
      if amount.amount == 0
      then (p, some invalid_amount)
      else elim (compare amount p.authorized_amount) [
        | err _ ↦ (p, some currency_mismatch)
        | ok Sign.more ↦ (p, some capture_exceeds_hold)
        | ok _ ↦ move captured now p λ q.
            emit (payment_captured q.id q.order_id amount now)
              (record q { captured_amount = amount })
      ]

unfoldable pub cancel : Text → ℕ → Payment → Outcome Payment PaymentError
unfolding allows
cancel reason now p =
    if same_status p.status cancelled
    then (p, none)
    else move cancelled now p λ q.
      emit (payment_cancelled q.id q.order_id (trim_space reason) now)
        (record q { failure_reason = trim_space reason })

unfoldable pub outstanding_refunds : Payment → Result PaymentError Money
unfolding outstanding_from
outstanding_refunds p = outstanding_from (zero_like p.amount) p.refunds

-- The part of `RequestRefund` behind the checks of the identifier, the status and the amount.
accept_refund : Ident → Money → Text → ℕ → Payment → Payment × Result PaymentError Refund
unfolding outstanding_refunds
accept_refund id amount reason now p = elim (outstanding_refunds p) [
  | err e ↦ (p, err e)
  | ok outstanding ↦ elim (add outstanding amount) [
    | err _ ↦ (p, err currency_mismatch)
    | ok total ↦ elim (compare total p.captured_amount) [
      | err _ ↦ (p, err refund_exceeds_charge)
      | ok Sign.more ↦ (p, err refund_exceeds_charge)
      | ok _ ↦
          let refund : Refund = record {
            id = id;
            amount = amount;
            reason = trim_space reason;
            status = refund_pending;
            provider_refund_id = [];
            created_at = now;
            completed_at = 0;
          } in
          (
            emit (refund_requested p.id p.order_id id amount refund.reason now)
                (record p { refunds = p.refunds ++ refund ∷ []; updated_at = now }),
            ok refund,
          )
    ]
  ]
]

unfoldable pub request_refund :
    Ident → Money → Text → ℕ → Payment → Payment × Result PaymentError Refund
unfolding accept_refund
request_refund id amount reason now p = elim (find (has_refund_id id) p.refunds) [
  | some existing ↦ (p, ok existing)
  | none ↦
      if id_is_zero id
      then (p, err invalid_id)
      else if not (same_status p.status captured)
      then (p, err (transition_error p.status refunded))
      else if amount.amount == 0
      then (p, err invalid_amount)
      else accept_refund id amount reason now p
]

-- `pendingRefund`: `none` for a refund that is there and no longer pending.
unfoldable pub pending_refund : Ident → Payment → Result PaymentError (Option Refund)
pending_refund id p = elim (find (has_refund_id id) p.refunds) [
  | none ↦ err refund_not_found
  | some r ↦ ok (if is_pending r.status then some r else none)
]

unfoldable pub complete_refund : Ident → Text → ℕ → Payment → Outcome Payment PaymentError
unfolding pending_refund
complete_refund id provider_refund_id now p = then_do p (pending_refund id p) λ found. elim found [
  | none ↦ (p, none)
  | some refund ↦ elim (add p.refunded_amount refund.amount) [
    | err _ ↦ (p, some currency_mismatch)
    | ok total ↦
        let done : Refund → Refund = λ r. record r {
          status = refund_succeeded;
          provider_refund_id = provider_refund_id;
          completed_at = now;
        } in
        (
          emit (refund_completed p.id p.order_id id refund.amount total true [] now) (record p {
            refunds = update_first (has_refund_id id) done p.refunds;
            refunded_amount = total;
            updated_at = now;
            status = if equals total p.captured_amount then refunded else p.status;
          }),
          none,
        )
  ]
]

unfoldable pub fail_refund : Ident → Text → ℕ → Payment → Outcome Payment PaymentError
unfolding pending_refund
fail_refund id reason now p = then_do p (pending_refund id p) λ found. elim found [
  | none ↦ (p, none)
  | some refund ↦
      let done : Refund → Refund =
        λ r. record r { status = refund_failed; reason = trim_space reason; completed_at = now } in
      (
        emit
            (refund_completed p.id p.order_id id refund.amount p.refunded_amount false
              (trim_space reason) now)
            (record p {
              refunds = update_first (has_refund_id id) done p.refunds;
              updated_at = now;
            }),
        none,
      )
]

unfoldable pub refundable_amount : Payment → Money
unfolding outstanding_refunds
refundable_amount p = elim (outstanding_refunds p) [
  | err _ ↦ zero_like p.amount
  | ok outstanding ↦ elim (sub p.captured_amount outstanding) [
    | err _ ↦ zero_like p.amount
    | ok left ↦ left
  ]
]
