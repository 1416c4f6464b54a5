-- ===== src/Ordering/Checkout/Success.antt =====
-- The compensator where the calls of the other contexts succeed
-- (internal/ordering/application/command/compensation.go: `Run`, `Abort`).
use go_marketplace_backend.Base.{ℕ, ◌≡◌, refl, sym, subst, false, some, Result, ok, err, arith}
use go_marketplace_backend.Base.Text.{Text, is_blank, text_eq_refl}
use go_marketplace_backend.Kernel.Identifier.{Ident}
use go_marketplace_backend.Ordering.Types.{Order}
use go_marketplace_backend.Ordering.Saga
use go_marketplace_backend.Ordering.Saga.{
  CheckoutSaga, SagaStatus, Step, pending, close_order, compensate, at_step,
}
use go_marketplace_backend.Ordering.Checkout.{
  Fails, Store, M, call, read, wrap, mutate_saga, mutate_order,
}
use go_marketplace_backend.Ordering.Checkout.Agreement.{Agree}
use go_marketplace_backend.Ordering.Checkout.Stores.{
  Fact, Holds, Ends, paired_saga, put_saga-Holds, put_order-Holds,
}
use go_marketplace_backend.Ordering.Checkout.Rules.{Keeps}
use go_marketplace_backend.Ordering.Checkout.Transactions.{mutate_saga_ok, mutate_order_ok}

-- An order and its saga are stored, and the fact holds of them.
abbrev pub Kept : Ident → Fact → Store → Type 0
Kept id F st =
    Holds id F st
    × ((o : Order) × (s : CheckoutSaga) × (st.orders id ≡ some o) × (st.sagas id ≡ some s))

-- A call that answers without an error, whatever has happened outside.
abbrev pub Succeeds : {W A : Type 0} → (W → Result Fails A × W) → Type 0
Succeeds {W} {A} port = (v : W) → (a : A) × ((port v).0 ≡ ok a)

-- A handler that ends without an error.
abbrev pub Ensures : {W A : Type 0} → (Store → Type 0) → M W A → (A → Store → Type 0) → Type 0
Ensures P m Q = Keeps P m Q (λ _. ⊥)

pub never-Keeps :
    {W A : Type 0} {m : M W A} {Q : A → Store → Type 0} {E : Store → Type 0} → Keeps (λ _. ⊥) m Q E
never-Keeps = record { ends = λ w p. absurd p }

pub call_succeeds :
    {W A : Type 0} {P : Store → Type 0} (port : W → Result Fails A × W)
    → Succeeds port
    → Ensures P (call port) (λ _. P)
unfolding call
call_succeeds {P = P} port h = record {
  ends = λ w p. subst (λ r. Ends (λ _. P) (λ _. ⊥) r w.store) (sym (h w.outside).1) p;
}

module _ {W : Type 0} (id : Ident) where
  pub mutate_saga_succeeds :
      {A : Type 0} (change : CheckoutSaga → Result Fails (A × CheckoutSaga)) (F G : Fact)
      → ((o : Order) (s : CheckoutSaga)
          → Agree id o s
          → F o s
          → (a : A) × (t : CheckoutSaga) × (change s ≡ ok (a, t)) × Agree id o t × G o t)
      → Ensures {W = W} (Kept id F) (mutate_saga id change) (λ _. Kept id G)
  mutate_saga_succeeds change F G keep = record {
    ends = λ w h.
        let (o, s, f, e) = h.1 in
        let (p, g, a) = paired_saga id w.store s h.0.0 e in
        let (x, t, c, b, k) = keep p s a (h.0.1 p s g e) in
        let held = put_saga-Holds id w.store p t G h.0.0 g b k in
        rw (mutate_saga_ok id w change s t x e c)
          (held, (p, t, g, rw (b.saga_key, text_eq_refl id) refl));
  }

  pub mutate_order_succeeds :
      (change : Order → Result Fails Order) (F G : Fact)
      → ((o : Order) (s : CheckoutSaga)
          → Agree id o s
          → F o s
          → (p : Order) × (change o ≡ ok p) × Agree id p s × G p s)
      → Ensures {W = W} (Kept id F) (mutate_order id change) (λ _. Kept id G)
  mutate_order_succeeds change F G keep = record {
    ends = λ w h.
        let (_, s, _, e) = h.1 in
        let (o, g, a) = paired_saga id w.store s h.0.0 e in
        let (p, c, b, k) = keep o s a (h.0.1 o s g e) in
        let held = put_order-Holds id w.store p s G h.0.0 e b k in
        rw (mutate_order_ok id w change o p g c)
          (held, (p, s, rw (b.order_key, text_eq_refl id) refl, e));
  }

pub read_known :
    {W A : Type 0} {P E : Store → Type 0} (f : W → A) (X : A → Type 0)
    → ((v : W) → X (f v))
    → Keeps P (read f) (λ a st. X a × P st) E
unfolding read
read_known f X h = record { ends = λ w p. (h w.outside, p) }

pub begin_total :
    (s : CheckoutSaga) (reason reference : Text) (now : ℕ)
    → is_blank reference ≡ false
    → (t : CheckoutSaga) × (wrap (Saga.begin_compensation reason reference now s) ≡ ok t)
unfolding Saga.begin_compensation
begin_total s reason reference now h =
    ((Saga.begin_compensation reason reference now s).0, ground (arith, h))

pub ended_ok :
    (Q : Unit {0} → Store → Type 0) (r : Result Fails (Unit {0})) (st : Store)
    → Ends Q (λ _. ⊥) r st
    → (r ≡ ok tt) × Q tt st
ended_ok Q (ok tt) st h = (refl, h)
ended_ok Q (err e) st h = absurd h
