-- ===== src/Ordering/Checkout/Completion.antt =====
-- The steps of a compensation, one after another, and the abort of a checkout
-- (internal/ordering/application/command/compensation.go: `Run`, `Abort`).
use go_marketplace_backend.Base.{
  ℕ, zero, suc, ◌<◌, ◌≡◌, ◌≢◌, refl, sym, ap, ◌∙◌, subst, Bool, true, false, List, [], ◌∷◌, some,
  Result, ok, arith, length, inl,
}
use go_marketplace_backend.Base.Text.{Text, is_blank}
use go_marketplace_backend.Kernel.Identifier.{Ident}
use go_marketplace_backend.Ordering.Saga
use go_marketplace_backend.Ordering.Saga.{
  CheckoutSaga, SagaStatus, Step, pending, close_order, compensate, at_step,
}
use go_marketplace_backend.Ordering.Saga.Compensation.{pending_compensating}
use go_marketplace_backend.Ordering.Checkout.{Fails, Store, Dependencies, PaymentInfo, World, M}
use go_marketplace_backend.Ordering.Checkout.Compensation.{
  Settling, by_cancel, by_refund, nothing, settling, settle_status, settle_payment, return_reserved,
  closing, close_failed, execute, record_step, round, run, rounds, abort,
}
use go_marketplace_backend.Ordering.Checkout.Agreement.{begin_compensation-Agree}
use go_marketplace_backend.Ordering.Checkout.Pairs.{at_close, compensate-Agree}
use go_marketplace_backend.Ordering.Checkout.Stores.{Fact, Holds, IsConsistent, Ends, paired_saga}
use go_marketplace_backend.Ordering.Checkout.Rules.{
  bind-Keeps, attempt-Keeps, cases-Keeps, then-Keeps, pure-Keeps, read-Keeps, pull-Keeps,
  weaken-Keeps,
}
use go_marketplace_backend.Ordering.Checkout.Undo.{Stored, Done, closing_total, undone_step}
use go_marketplace_backend.Ordering.Checkout.Rounds.{
  Undoing, Left, compensate-Left, length-pending, run-some, some-injective,
}
use go_marketplace_backend.Ordering.Checkout.Closing.{
  IsClosed, IsAbortable, begin_compensation-Undoing, nothing_left,
}
use go_marketplace_backend.Ordering.Checkout.Success.{
  Kept, Succeeds, Ensures, never-Keeps, call_succeeds, mutate_saga_succeeds, mutate_order_succeeds,
  read_known, begin_total, ended_ok,
}

-- A saga with fewer steps to undo than there are rounds.
abbrev Within : ℕ → Fact
Within n o s = Undoing o s × (length (pending s) < n)

within_rest :
    (id : Ident) (fuel : ℕ) (s : CheckoutSaga) (x : Step) (rest : List Step) (st : Store)
    → pending s ≡ x ∷ rest
    → length (pending s) < suc fuel
    → Holds id (Left rest) st
    → Holds id (Within fuel) st
within_rest id fuel s x rest st g short h = (
  h.0,
  λ o t ho ht.
      let (left, undoing) = h.1 o t ho ht in
      let len : length (pending s) ≡ suc (length rest) = ap length g in
      let same : length (pending t) ≡ length rest = ap length left in
      (undoing, omega (arith, len, same, short)),
)

-- The steps that undo a checkout.
abbrev is_undo : Step → Bool
is_undo Step.refund_payment = true
is_undo Step.cancel_payment = true
is_undo Step.return_stock = true
is_undo Step.release_promo = true
is_undo Step.close_order = true
is_undo _ = false

no_undo :
    (s : CheckoutSaga) (step : Step) (steps : List Step)
    → pending s ≡ step ∷ steps
    → is_undo step ≢ false
unfolding pending Saga.plan
no_undo s step steps e h = ground (arith, e, h)

module _ {W : Type 0} (d : Dependencies W) (info : (p : Text) → Succeeds (d.info p))
    (cancel : (p r : Text) → Succeeds (d.cancel_payment p r))
    (refund : (p r : Text) (n : ℕ) (t : Text) → Succeeds (d.refund p r n t))
    (release : (r : Text) → Succeeds (d.release r))
    (release_code : (c : Text) (o : Ident) → Succeeds (d.release_code c o)) where
  settle_succeeds :
      {P : Store → Type 0} (how : Settling) (saga : CheckoutSaga) (i : PaymentInfo)
      → Ensures P (settle_status d how saga i) (λ _. P)
  settle_succeeds by_cancel saga i =
      bind-Keeps (attempt-Keeps (call_succeeds _ (cancel i.payment_id saga.reason)))
        λ answer. cases-Keeps answer (λ _. pure-Keeps tt (λ _ p. p)) (λ e. never-Keeps)
  settle_succeeds by_refund saga i =
      call_succeeds _ (refund i.payment_id saga.refund_id 0 saga.reason)
  settle_succeeds nothing saga i = pure-Keeps tt (λ _ p. p)

  settle_payment_succeeds :
      {P : Store → Type 0} (saga : CheckoutSaga) → Ensures P (settle_payment d saga) (λ _. P)
  unfolding settle_payment
  settle_payment_succeeds saga =
      bind-Keeps (attempt-Keeps (call_succeeds _ (info saga.payment_id))) λ answer.
        cases-Keeps answer (λ i. settle_succeeds (settling i.status) saga i) (λ e. never-Keeps)

  return_succeeds :
      {P : Store → Type 0} (reservation : Text) → Ensures P (return_reserved d reservation) (λ _. P)
  unfolding return_reserved
  return_succeeds reservation =
      bind-Keeps (attempt-Keeps (call_succeeds _ (release reservation)))
        λ answer. cases-Keeps answer (λ _. pure-Keeps tt (λ _ p. p)) (λ e. never-Keeps)

  module _ (saga : CheckoutSaga) (steps : List Step) where
    close_succeeds :
        saga.status ≡ SagaStatus.compensating
        → Ensures
            (Kept saga.order_id (Stored saga))
            (close_failed d saga)
            (λ _. Kept saga.order_id (Done saga close_order))
    unfolding close_failed
    close_succeeds c = bind-Keeps (read-Keeps _) λ now.
        bind-Keeps
          (attempt-Keeps (
            mutate_order_succeeds saga.order_id (closing saga now) (Stored saga)
              (Done saga close_order) (λ o s a e. closing_total saga.order_id o s saga now a c e)))
          λ answer. cases-Keeps answer (λ _. pure-Keeps tt (λ _ p. p)) (λ e. never-Keeps)

    called :
        (step : Step) {m : M W (Unit {0})}
        → saga.status ≡ SagaStatus.compensating
        → at_close step ≡ false
        → Ensures (Kept saga.order_id (Stored saga)) m (λ _. Kept saga.order_id (Stored saga))
        → Ensures (Kept saga.order_id (Stored saga)) m (λ _. Kept saga.order_id (Done saga step))
    called step c h k =
        weaken-Keeps k (λ _ p. p) (λ _ st p. (undone_step d saga c step st h p.0, p.1)) (λ _ p. p)

    execute_succeeds :
        (step : Step)
        → pending saga ≡ step ∷ steps
        → Ensures
            (Kept saga.order_id (Stored saga))
            (execute d saga step)
            (λ _. Kept saga.order_id (Done saga step))
    unfolding execute at_step
    execute_succeeds Step.refund_payment e =
        called Step.refund_payment (pending_compensating _ steps saga e) refl
          (settle_payment_succeeds saga)
    execute_succeeds Step.cancel_payment e =
        called Step.cancel_payment (pending_compensating _ steps saga e) refl
          (settle_payment_succeeds saga)
    execute_succeeds Step.return_stock e =
        called Step.return_stock (pending_compensating _ steps saga e) refl
          (return_succeeds saga.reservation_id)
    execute_succeeds Step.release_promo e =
        called Step.release_promo (pending_compensating _ steps saga e) refl
          (call_succeeds _ (release_code saga.promo_code saga.order_id))
    execute_succeeds Step.close_order e = close_succeeds (pending_compensating _ steps saga e)
    execute_succeeds Step.stock_reserved e = absurd (no_undo saga Step.stock_reserved steps e refl)
    execute_succeeds Step.promo_redeemed e = absurd (no_undo saga Step.promo_redeemed steps e refl)
    execute_succeeds Step.awaiting_payment e =
        absurd (no_undo saga Step.awaiting_payment steps e refl)
    execute_succeeds Step.committing_stock e =
        absurd (no_undo saga Step.committing_stock steps e refl)
    execute_succeeds Step.stock_committed e =
        absurd (no_undo saga Step.stock_committed steps e refl)
    execute_succeeds Step.payment_captured e =
        absurd (no_undo saga Step.payment_captured steps e refl)
    execute_succeeds Step.all_done e = absurd (no_undo saga Step.all_done steps e refl)

    record_succeeds :
        (step : Step) (answer : Result Fails (Unit {0}))
        → pending saga ≡ step ∷ steps
        → Ensures
            (Ends (λ _. Kept saga.order_id (Done saga step)) (λ _. ⊥) answer)
            (record_step d saga.order_id step answer)
            (λ _. Kept saga.order_id (Left steps))
    unfolding record_step
    record_succeeds step answer e =
        let c = pending_compensating step steps saga e in
        bind-Keeps (read-Keeps _) λ now.
          cases-Keeps answer
            (λ _. mutate_saga_succeeds saga.order_id _ (Done saga step) (Left steps) (λ o s a f.
              let status = ap (λ (y : CheckoutSaga). y.status) f.0 ∙ c in
              let first = ap pending f.0 ∙ e in
              (
                tt,
                compensate step now s,
                refl,
                compensate-Agree saga.order_id o s step steps now a status first f.1,
                compensate-Left o s step steps now status first,
              )))
            (λ x. never-Keeps)

  round_succeeds :
      (saga : CheckoutSaga) (steps : List Step) (next : M W (Unit {0}))
      → pending saga ≡ steps
      → ((x : Step) (rest : List Step)
          → steps ≡ x ∷ rest
          → Ensures (Kept saga.order_id (Left rest)) next (λ _. IsClosed saga.order_id))
      → Ensures
          (λ st. Kept saga.order_id Undoing st × (st.sagas saga.order_id ≡ some saga))
          (round d saga.order_id saga next steps)
          (λ _. IsClosed saga.order_id)
  round_succeeds saga [] next e later =
      pure-Keeps tt (λ st p. nothing_left saga.order_id saga st e p.0.0 p.1)
  round_succeeds saga (step ∷ steps) next e later =
      bind-Keeps
        (weaken-Keeps (attempt-Keeps {F = λ _. ⊥} (execute_succeeds saga steps step e))
          (λ st p. ((p.0.0.0, λ o s ho hs. some-injective (sym hs ∙ p.1)), p.0.1)) (λ _ _ p. p)
          (λ _ p. p))
        λ answer. then-Keeps (record_succeeds saga steps step answer e) (later step steps refl)

  run_succeeds :
      (fuel : ℕ) (id : Ident) → Ensures (Kept id (Within fuel)) (run d fuel id) (λ _. IsClosed id)
  run_succeeds zero id = record {
    ends = λ w p. let (o, s, f, e) = p.1 in let (_, short) = p.0.1 o s f e in absurd (omega arith);
  }
  run_succeeds (suc fuel) id = record {
    ends = λ w p.
        let (o, s, f, e) = p.1 in
        let (undoing, short) = p.0.1 o s f e in
        let (_, _, a) = paired_saga id w.store s p.0.0 e in
        let kept : Kept id Undoing w.store = ((p.0.0, λ o' s' ho hs. (p.0.1 o' s' ho hs).0), p.1) in
        let later = λ (x : Step) (rest : List Step) (g : pending s ≡ x ∷ rest).
          weaken-Keeps (run_succeeds fuel id)
            (λ st (q : Kept id (Left rest) st). (within_rest id fuel s x rest st g short q.0, q.1))
            (λ _ _ q. q) (λ _ q. q) in
        rw (run-some d fuel id w s e) (
          (subst
              (λ k.
                ((x : Step) (rest : List Step)
                  → pending s ≡ x ∷ rest
                  → Ensures (Kept k (Left rest)) (run d fuel id) (λ _. IsClosed k))
                → Ensures (λ st. Kept k Undoing st × (st.sagas k ≡ some s))
                    (round d k s (run d fuel id) (pending s)) (λ _. IsClosed k))
              a.saga_key (round_succeeds s (pending s) (run d fuel id) refl) later).ends
            w (kept, e));
  }

  abort_succeeds :
      (id : Ident) (reason : Text)
      → ((v : W) → is_blank (d.reference v) ≡ false)
      → Ensures (Kept id (λ o s. IsAbortable s)) (abort d id reason) (λ _. IsClosed id)
  unfolding abort
  abort_succeeds id reason named = bind-Keeps (read-Keeps _) λ now.
      bind-Keeps (read_known d.reference (λ r. is_blank r ≡ false) named) λ reference.
        pull-Keeps λ given.
          then-Keeps
            (mutate_saga_succeeds id _ (λ o s. IsAbortable s) (Within rounds)
              (λ o s a f.
                let (t, began) = begin_total s reason reference now given in
                (
                  tt,
                  t,
                  rw began refl,
                  begin_compensation-Agree id o s a reason reference now t f.0 began,
                  (
                    begin_compensation-Undoing o s t reason reference now f began,
                    omega (arith, length-pending t),
                  ),
                )))
            (run_succeeds rounds id)

  -- On consistent stores, where the payment's information, its cancelling and its refund, the release of
  -- the stock and that of the promo code answer without errors, and references are not blank: the abort
  -- of a checkout whose saga is stored, and neither completed nor left to an operator, answers without an
  -- error, and leaves the saga stored as compensated and its order stored as cancelled or failed.
  pub abort_total :
      (id : Ident) (reason : Text) (w : World W) (s : CheckoutSaga)
      → ((v : W) → is_blank (d.reference v) ≡ false)
      → IsConsistent w.store
      → w.store.sagas id ≡ some s
      → s.status ≢ SagaStatus.completed
      → s.status ≢ SagaStatus.manual
      → ((abort d id reason w).0 ≡ ok tt) × IsClosed id (abort d id reason w).1.store
  abort_total id reason w s named c e h k =
      let (o, f, _) = paired_saga id w.store s c e in
      ended_ok (λ _. IsClosed id) (abort d id reason w).0 (abort d id reason w).1.store
        ((abort_succeeds id reason named).ends w
          ((c, λ p t hp ht. subst IsAbortable (some-injective (sym e ∙ ht)) (h, k)), (o, s, f, e)))

  -- On consistent stores, where the payment's information, its cancelling and its refund, the release of
  -- the stock and that of the promo code answer without errors: the compensator's loop on a stored saga that
  -- is compensating, whichever of its steps are done already, ends without an error, and leaves the saga
  -- stored as compensated and its order stored as cancelled or failed.
  pub run_undoes :
      (id : Ident) (w : World W) (s : CheckoutSaga)
      → IsConsistent w.store
      → w.store.sagas id ≡ some s
      → s.status ≡ SagaStatus.compensating
      → ((run d rounds id w).0 ≡ ok tt) × IsClosed id (run d rounds id w).1.store
  run_undoes id w s c e h =
      let (o, f, _) = paired_saga id w.store s c e in
      let within : Undoing o s × (length (pending s) < rounds) =
        (inl h, let short = length-pending s in omega (arith, short)) in
      ended_ok (λ _. IsClosed id) (run d rounds id w).0 (run d rounds id w).1.store
        ((run_succeeds rounds id).ends w (
          (
            c,
            λ p t hp ht.
                subst (λ x. Undoing p x × (length (pending x) < rounds))
                  (some-injective (sym e ∙ ht)) within,
          ),
          (o, s, f, e),
        ))
