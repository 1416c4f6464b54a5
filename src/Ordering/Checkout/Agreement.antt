-- ===== src/Ordering/Checkout/Agreement.antt =====
-- How an order and its saga stand to one another, and what the methods of both make of that
-- (internal/ordering/domain: order.go, saga.go).
use go_marketplace_backend.Base.{ℕ, ◌≡◌, ◌≢◌, Bool, true, false, ◌&&◌, ◌||◌, not, ok, arith}
use go_marketplace_backend.Base.Text.{Text}
use go_marketplace_backend.Kernel.Identifier.{Ident}
use go_marketplace_backend.Ordering.Status.{Status, Actor, is_paid, can_transition_to, transitions}
use go_marketplace_backend.Ordering.Types.{Order}
use go_marketplace_backend.Ordering.Order
use go_marketplace_backend.Ordering.Saga
use go_marketplace_backend.Ordering.Saga.{
  CheckoutSaga, SagaStatus, Step, close_order, is_done, pending, plan,
}
use go_marketplace_backend.Ordering.Checkout.{wrap}
use go_marketplace_backend.Ordering.Checkout.Compensation.{is_open}

abbrev pub is_closed : Status → Bool
is_closed Status.cancelled = true
is_closed Status.failed = true
is_closed _ = false

abbrev pub is_early : Step → Bool
is_early Step.stock_reserved = true
is_early Step.promo_redeemed = true
is_early _ = false

abbrev pub is_late : Step → Bool
is_late Step.awaiting_payment = true
is_late Step.committing_stock = true
is_late Step.stock_committed = true
is_late Step.payment_captured = true
is_late _ = false

abbrev pub is_last : Step → Bool
is_last Step.all_done = true
is_last _ = false

abbrev pub is_awaiting : Status → Bool
is_awaiting Status.awaiting_payment = true
is_awaiting _ = false

abbrev pub is_taken : Step → Bool
is_taken Step.payment_captured = true
is_taken _ = false

-- `taken` is whether the payment has been captured, `closed` whether the closing of the order is among
-- the compensations done. While the saga runs, the order is open, and awaits its payment from that step
-- on; the last step is reached with the payment captured. A completed saga has a captured payment and
-- a paid order. A compensation that is under way never meets a paid order and has the closing of the order
-- before it; it ends with a closed order.
abbrev pub in_phase : SagaStatus → Step → Bool → Bool → Status → Bool
in_phase SagaStatus.running step taken closed order =
    not closed
    && (not (is_taken step) || taken)
    && (is_early step && is_open order || is_late step && is_awaiting order)
in_phase SagaStatus.completed step taken closed order =
    not closed && is_last step && taken && is_paid order
in_phase SagaStatus.compensated step taken closed order = is_closed order
in_phase SagaStatus.compensating step taken closed order =
    not closed && (is_closed order || is_open order)
in_phase SagaStatus.manual step taken closed order =
    not closed && (is_closed order || is_open order)

pub record Agree (id : Ident) (o : Order) (s : CheckoutSaga) : Type 0 where
  pub order_key : o.id ≡ id
  pub saga_key : s.order_id ≡ id
  pub amount_agrees : s.amount ≡ o.total
  pub phase :
      in_phase s.status s.step s.captured (is_done s.compensations close_order) o.status ≡ true

module _ (id : Ident) (o : Order) (s : CheckoutSaga) (a : Agree id o s) where
  -- Orders that change under a saga that stays.

  pub fail-Agree :
      (reason : Text) (now : ℕ) (p : Order)
      → s.status ≡ SagaStatus.compensating
      → is_open o.status ≡ true
      → wrap (Order.fail reason now o) ≡ ok p
      → Agree id p s × (is_closed p.status ≡ true)
  unfolding Order.fail Order.transition can_transition_to transitions is_paid
  fail-Agree reason now p c h e = ground (arith, a, c, e, h)

  pub mark_shipped-Agree :
      (actor : Actor) (now : ℕ) (p : Order)
      → wrap (Order.mark_shipped actor now o) ≡ ok p
      → Agree id p s
  unfolding Order.mark_shipped Order.transition can_transition_to transitions is_paid
  mark_shipped-Agree actor now p e = ground (arith, a, e)

  pub mark_delivered-Agree :
      (actor : Actor) (now : ℕ) (p : Order)
      → wrap (Order.mark_delivered actor now o) ≡ ok p
      → Agree id p s
  unfolding Order.mark_delivered Order.transition can_transition_to transitions is_paid
  mark_delivered-Agree actor now p e = ground (arith, a, e)

  pub complete_order-Agree :
      (now : ℕ) (p : Order) → wrap (Order.complete now o) ≡ ok p → Agree id p s
  unfolding Order.complete Order.transition can_transition_to transitions is_paid
  complete_order-Agree now p e = ground (arith, a, e)

  -- Sagas that change under an order that stays.

  pub redeem_promo-Agree :
      (now : ℕ) (t : CheckoutSaga)
      → is_early s.step ≡ true
      → wrap (Saga.redeem_promo now s) ≡ ok t
      → Agree id o t
  unfolding Saga.redeem_promo
  redeem_promo-Agree now t h e = ground (arith, a, e, h)

  pub begin_commit-Agree :
      (payment : Text) (now : ℕ) → Agree id o (Saga.begin_commit payment now s).0
  unfolding Saga.begin_commit
  begin_commit-Agree payment now = ground (arith, a)

  pub commit_stock-Agree :
      (now : ℕ) (t : CheckoutSaga)
      → is_late s.step ≡ true
      → wrap (Saga.commit_stock now s) ≡ ok t
      → Agree id o t
  unfolding Saga.commit_stock
  commit_stock-Agree now t h e = ground (arith, a, e, h)

  pub capture_payment-Agree :
      (now : ℕ) (t : CheckoutSaga)
      → is_late s.step ≡ true
      → wrap (Saga.capture_payment now s) ≡ ok t
      → Agree id o t
  unfolding Saga.capture_payment
  capture_payment-Agree now t h e = ground (arith, a, e, h)

  pub record_error-Agree : (error : Text) (now : ℕ) → Agree id o (Saga.record_error error now s)
  unfolding Saga.record_error
  record_error-Agree error now = ground (arith, a)

  pub begin_compensation-Agree :
      (reason reference : Text) (now : ℕ) (t : CheckoutSaga)
      → s.status ≢ SagaStatus.completed
      → wrap (Saga.begin_compensation reason reference now s) ≡ ok t
      → Agree id o t
  unfolding Saga.begin_compensation
  begin_compensation-Agree reason reference now t h e = ground (arith, a, e, h)

  pub fail_compensation-Agree :
      (error : Text) (max_attempts now : ℕ)
      → s.status ≡ SagaStatus.compensating
      → Agree id o (Saga.fail_compensation error max_attempts now s)
  unfolding Saga.fail_compensation
  fail_compensation-Agree error max_attempts now h = ground (arith, a, h)

  pub resume-Agree : (now : ℕ) (t : CheckoutSaga) → wrap (Saga.resume now s) ≡ ok t → Agree id o t
  unfolding Saga.resume
  resume-Agree now t e = ground (arith, a, e)
