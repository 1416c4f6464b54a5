-- ===== src/Ordering/Checkout/Safety.antt =====
-- The handlers after an authorization (internal/ordering/application/command/progress.go), on the stored
-- orders and sagas.
use go_marketplace_backend.Base.{refl, ap, subst, Bool, not, List, ok-injective}
use go_marketplace_backend.Base.Text.{Text}
use go_marketplace_backend.Kernel.Identifier.{Ident, parse_id}
use go_marketplace_backend.Ordering.Saga.{CheckoutSaga, committing_stock, stock_committed}
use go_marketplace_backend.Ordering.Checkout.{Dependencies}
use go_marketplace_backend.Ordering.Checkout.Progress.{
  Reasons, commit_reserved, capture_authorized, advance, authorizing, payment_authorized,
  resume_stalled,
}
use go_marketplace_backend.Ordering.Checkout.Agreement.{Agree, begin_commit-Agree}
use go_marketplace_backend.Ordering.Checkout.Rules.{
  call-Keeps, bind-Keeps, attempt-Keeps, cases-Keeps, pure-Keeps, fail-Keeps, read-Keeps,
  pull-Keeps, if-Keeps, with_id-Keeps, weaken-Keeps,
}
use go_marketplace_backend.Ordering.Checkout.Transactions.{mutate_saga-Keeps, load_saga-Keeps}
use go_marketplace_backend.Ordering.Checkout.Runs.{
  Any, Safe, about, for_each-Safe, joined-Safe, Ends-both,
}
use go_marketplace_backend.Ordering.Checkout.Stages.{
  loaded, at_stage-Keeps, and_then-Keeps, complete_last-Keeps, commit_reserved-Keeps,
  capture_authorized-Keeps,
}

module _ {W : Type 0} (d : Dependencies W) (reasons : Reasons) where
  advance-Safe : (id : Ident) → Safe (advance d reasons id)
  unfolding advance
  advance-Safe id =
      bind-Keeps (weaken-Keeps (load_saga-Keeps id Any) (about id) (λ _ _ p. p) (λ _ p. p.0))
        λ saga. pull-Keeps λ key.
          bind-Keeps
            (weaken-Keeps
              (at_stage-Keeps d reasons committing_stock (commit_reserved d reasons) saga refl
                (commit_reserved-Keeps d reasons saga))
              (λ st p. loaded id saga st key p) (λ _ _ p. p) (λ _ p. p))
            λ first.
              bind-Keeps
                (and_then-Keeps d reasons first _ (λ s.
                  at_stage-Keeps d reasons stock_committed (capture_authorized d reasons) s refl
                    (capture_authorized-Keeps d reasons s)))
                λ second. complete_last-Keeps d reasons second

  pub payment_authorized-Safe :
      (raw payment : Text) → Safe (payment_authorized d reasons raw payment)
  unfolding payment_authorized
  payment_authorized-Safe raw payment =
      with_id-Keeps (parse_id raw) (pure-Keeps tt (λ _ p. p)) λ id. bind-Keeps (read-Keeps _) λ now.
        bind-Keeps
          (attempt-Keeps (
            weaken-Keeps
              (mutate_saga-Keeps id (authorizing d reasons payment now) Any (λ _. Any)
                (λ o s t x a f e. (
                  subst (Agree id o)
                      (ap (λ (y : (Bool × Bool) × CheckoutSaga). y.1) (ok-injective e))
                      (begin_commit-Agree id o s a payment now),
                  tt,
                )))
              (about id) (λ _ _ p. p.0) (λ _ p. p.0)))
          λ answer.
            cases-Keeps answer
              (λ x.
                if-Keeps x.0 (call-Keeps _)
                  (if-Keeps (not x.1) (pure-Keeps tt (λ _ p. p)) (advance-Safe id)))
              (λ e. if-Keeps _ (pure-Keeps tt (λ _ p. p)) (fail-Keeps e (λ _ p. p)))

  pub resume_stalled-Safe : (ids : List Ident) → Safe (resume_stalled d reasons ids)
  unfolding resume_stalled
  resume_stalled-Safe ids =
      bind-Keeps
        (for_each-Safe _
          (λ id. bind-Keeps (attempt-Keeps (advance-Safe id)) λ ran. pure-Keeps _ (Ends-both ran))
          ids)
        λ e. joined-Safe _ e
