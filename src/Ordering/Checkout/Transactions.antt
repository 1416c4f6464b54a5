-- ===== src/Ordering/Checkout/Transactions.antt =====
-- Rules for the transactions on orders and sagas (internal/ordering/application/command/support.go).
use go_marketplace_backend.Base.{
  ◌≡◌, [], ◌∷◌, none, some, Result, ok, err, arith, inl, inr, Option-cases, Result-cases,
}
use go_marketplace_backend.Kernel.Identifier.{Ident}
use go_marketplace_backend.Ordering.Types.{Order}
use go_marketplace_backend.Ordering.Saga.{CheckoutSaga}
use go_marketplace_backend.Ordering.Checkout.{
  Fails, Store, World, M, ◌>>=◌, ◌>>◌, put_saga, put_order, saga_not_found, order_not_found,
  load_saga, load_order, save_saga, save_order, mutate_saga, mutate_both, mutate_order,
}
use go_marketplace_backend.Ordering.Checkout.Agreement.{Agree}
use go_marketplace_backend.Ordering.Checkout.Stores.{
  IsConsistent, Fact, Holds, put_saga-Holds, put_order-Holds, put_both-Holds, paired, paired_saga,
}
use go_marketplace_backend.Ordering.Checkout.Rules.{Keeps, weaken-Keeps}

module _ {W : Type 0} (id : Ident) (w : World W) where
  pub load_saga-none : w.store.sagas id ≡ none → load_saga id w ≡ (err (saga_not_found ∷ []), w)
  unfolding load_saga
  load_saga-none e = rw (e, load_saga)

  pub load_saga-some : (s : CheckoutSaga) → w.store.sagas id ≡ some s → load_saga id w ≡ (ok s, w)
  unfolding load_saga
  load_saga-some s e = rw (e, load_saga)

  load_order-none : w.store.orders id ≡ none → load_order id w ≡ (err (order_not_found ∷ []), w)
  unfolding load_order
  load_order-none e = rw (e, load_order)

  load_order-some : (o : Order) → w.store.orders id ≡ some o → load_order id w ≡ (ok o, w)
  unfolding load_order
  load_order-some o e = rw (e, load_order)

module _ {W A : Type 0} (id : Ident) (w : World W)
    (change : CheckoutSaga → Result Fails (A × CheckoutSaga)) where
  mutate_saga-none :
      w.store.sagas id ≡ none → mutate_saga id change w ≡ (err (saga_not_found ∷ []), w)
  unfolding mutate_saga
  mutate_saga-none e = ground (arith, load_saga-none id w e)

  mutate_saga_err :
      (s : CheckoutSaga) (x : Fails)
      → w.store.sagas id ≡ some s
      → change s ≡ err x
      → mutate_saga id change w ≡ (err x, w)
  unfolding mutate_saga
  mutate_saga_err s x e g = ground (arith, g, load_saga-some id w s e)

  pub mutate_saga_ok :
      (s t : CheckoutSaga) (x : A)
      → w.store.sagas id ≡ some s
      → change s ≡ ok (x, t)
      → mutate_saga id change w ≡ (ok x, record w { store = put_saga t w.store })
  unfolding mutate_saga
  mutate_saga_ok s t x e g = ground (arith, g, load_saga-some id w s e)

module _ {W : Type 0} (id : Ident) (w : World W)
    (change : Order → CheckoutSaga → Result Fails (Order × CheckoutSaga)) where
  mutate_both-none :
      w.store.orders id ≡ none → mutate_both id change w ≡ (err (order_not_found ∷ []), w)
  unfolding mutate_both
  mutate_both-none e = ground (arith, load_order-none id w e)

  mutate_both_err :
      (o : Order) (s : CheckoutSaga) (x : Fails)
      → w.store.orders id ≡ some o
      → w.store.sagas id ≡ some s
      → change o s ≡ err x
      → mutate_both id change w ≡ (err x, w)
  unfolding mutate_both
  mutate_both_err o s x e f g = ground (arith, g, load_order-some id w o e, load_saga-some id w s f)

  mutate_both_ok :
      (o p : Order) (s t : CheckoutSaga)
      → w.store.orders id ≡ some o
      → w.store.sagas id ≡ some s
      → change o s ≡ ok (p, t)
      → mutate_both id change w ≡ (ok tt, record w { store = put_saga t (put_order p w.store) })
  unfolding mutate_both
  mutate_both_ok o p s t e f g =
      ground (arith, g, load_order-some id w o e, load_saga-some id w s f)

module _ {W : Type 0} (id : Ident) (w : World W) (change : Order → Result Fails Order) where
  mutate_order-none :
      w.store.orders id ≡ none → mutate_order id change w ≡ (err (order_not_found ∷ []), w)
  unfolding mutate_order
  mutate_order-none e = ground (arith, load_order-none id w e)

  mutate_order_err :
      (o : Order) (x : Fails)
      → w.store.orders id ≡ some o
      → change o ≡ err x
      → mutate_order id change w ≡ (err x, w)
  unfolding mutate_order
  mutate_order_err o x e g = ground (arith, g, load_order-some id w o e)

  pub mutate_order_ok :
      (o p : Order)
      → w.store.orders id ≡ some o
      → change o ≡ ok p
      → mutate_order id change w ≡ (ok tt, record w { store = put_order p w.store })
  unfolding mutate_order
  mutate_order_ok o p e g = ground (arith, g, load_order-some id w o e)

module _ {W : Type 0} (id : Ident) where
  -- A transaction on the saga: what its closure makes of a saga that agrees, and of which the fact holds,
  -- agrees again. `X` is what is known of the value that it gives.
  pub mutate_saga_value :
      {A : Type 0} (change : CheckoutSaga → Result Fails (A × CheckoutSaga)) (F : Fact)
      (X : A → Type 0) (G : A → Fact)
      → ((o : Order) (s t : CheckoutSaga) (a : A)
          → Agree id o s
          → F o s
          → change s ≡ ok (a, t)
          → X a × Agree id o t × G a o t)
      → Keeps {W = W}
          (Holds id F)
          (mutate_saga id change)
          (λ a st. X a × Holds id (G a) st)
          (Holds id F)
  mutate_saga_value change F X G keep = record {
    ends = λ w h. elim (Option-cases (w.store.sagas id)) [
      | inl e ↦ rw (mutate_saga-none id w change e) h
      | inr (s, e) ↦
          let (o, f, a) = paired_saga id w.store s h.0 e in
          elim (Result-cases (change s)) [
            | inr (x, g) ↦ rw (mutate_saga_err id w change s x e g) h
            | inl ((x, t), g) ↦
                let (v, b, k) = keep o s t x a (h.1 o s f e) g in
                rw (mutate_saga_ok id w change s t x e g)
                  (v, put_saga-Holds id w.store o t (G x) h.0 f b k)
          ]
    ];
  }

  pub mutate_saga-Keeps :
      {A : Type 0} (change : CheckoutSaga → Result Fails (A × CheckoutSaga)) (F : Fact)
      (G : A → Fact)
      → ((o : Order) (s t : CheckoutSaga) (a : A)
          → Agree id o s
          → F o s
          → change s ≡ ok (a, t)
          → Agree id o t × G a o t)
      → Keeps {W = W} (Holds id F) (mutate_saga id change) (λ a. Holds id (G a)) (Holds id F)
  mutate_saga-Keeps change F G keep =
      weaken-Keeps
        (mutate_saga_value change F (λ _. Unit {0}) G
          (λ o s t a b f e. let (c, g) = keep o s t a b f e in (tt, c, g)))
        (λ _ p. p) (λ _ _ p. p.1) (λ _ p. p)

  pub mutate_both-Keeps :
      (change : Order → CheckoutSaga → Result Fails (Order × CheckoutSaga)) (F G : Fact)
      → ((o p : Order) (s t : CheckoutSaga)
          → Agree id o s
          → F o s
          → change o s ≡ ok (p, t)
          → Agree id p t × G p t)
      → Keeps {W = W} (Holds id F) (mutate_both id change) (λ _. Holds id G) (Holds id F)
  mutate_both-Keeps change F G keep = record {
    ends = λ w h. elim (Option-cases (w.store.orders id)) [
      | inl e ↦ rw (mutate_both-none id w change e) h
      | inr (o, e) ↦
          let (s, f, a) = paired id w.store o h.0 e in
          elim (Result-cases (change o s)) [
            | inr (x, g) ↦ rw (mutate_both_err id w change o s x e f g) h
            | inl ((p, t), g) ↦
                let (b, k) = keep o p s t a (h.1 o s e f) g in
                rw (mutate_both_ok id w change o p s t e f g)
                  (put_both-Holds id w.store p t G h.0 b k)
          ]
    ];
  }

  pub mutate_order-Keeps :
      (change : Order → Result Fails Order) (F G : Fact)
      → ((o p : Order) (s : CheckoutSaga)
          → Agree id o s
          → F o s
          → change o ≡ ok p
          → Agree id p s × G p s)
      → Keeps {W = W} (Holds id F) (mutate_order id change) (λ _. Holds id G) (Holds id F)
  mutate_order-Keeps change F G keep = record {
    ends = λ w h. elim (Option-cases (w.store.orders id)) [
      | inl e ↦ rw (mutate_order-none id w change e) h
      | inr (o, e) ↦
          let (s, f, a) = paired id w.store o h.0 e in
          elim (Result-cases (change o)) [
            | inr (x, g) ↦ rw (mutate_order_err id w change o x e g) h
            | inl (p, g) ↦
                let (b, k) = keep o p s a (h.1 o s e f) g in
                rw (mutate_order_ok id w change o p e g)
                  (put_order-Holds id w.store p s G h.0 f b k)
          ]
    ];
  }

  -- A transaction that fails only where there is no order.
  pub mutate_order_total :
      (change : Order → Result Fails Order) (F G : Fact)
      → ((o : Order) (s : CheckoutSaga)
          → Agree id o s
          → F o s
          → (p : Order) × (change o ≡ ok p) × Agree id p s × G p s)
      → Keeps {W = W}
          (Holds id F)
          (mutate_order id change)
          (λ _. Holds id G)
          (λ st. IsConsistent st × (st.orders id ≡ none))
  mutate_order_total change F G keep = record {
    ends = λ w h. elim (Option-cases (w.store.orders id)) [
      | inl e ↦ rw (mutate_order-none id w change e) (h.0, e)
      | inr (o, e) ↦
          let (s, f, a) = paired id w.store o h.0 e in
          let (p, g, b, k) = keep o s a (h.1 o s e f) in
          rw (mutate_order_ok id w change o p e g) (put_order-Holds id w.store p s G h.0 f b k)
    ];
  }

  -- A saga that is loaded is the one that is stored, and is stored under its own key.
  pub load_saga-Keeps :
      (F : Fact)
      → Keeps {W = W}
          (Holds id F)
          (load_saga id)
          (λ s st. (s.order_id ≡ id) × Holds id (λ o t. (t ≡ s) × F o t) st)
          (Holds id F)
  load_saga-Keeps F = record {
    ends = λ w h. elim (Option-cases (w.store.sagas id)) [
      | inl e ↦ rw (load_saga-none id w e) h
      | inr (s, e) ↦
          let (o, f, a) = paired_saga id w.store s h.0 e in
          rw (load_saga-some id w s e) (a.saga_key, (h.0, λ p t hp ht. (cc (ht, e), h.1 p t hp ht)))
    ];
  }

  -- An order that is loaded is the one that is stored.
  pub load_order-Keeps :
      Keeps {W = W} IsConsistent
        (load_order id)
        (λ o st. IsConsistent st × (st.orders id ≡ some o))
        IsConsistent
  load_order-Keeps = record {
    ends = λ w h. elim (Option-cases (w.store.orders id)) [
      | inl e ↦ rw (load_order-none id w e) h
      | inr (o, e) ↦ rw (load_order-some id w o e) (h, e)
    ];
  }

  -- A save of the order that was loaded.
  pub save_order-Keeps :
      (o p : Order)
      → ((s : CheckoutSaga) → Agree id o s → Agree id p s)
      → Keeps {W = W}
          (λ st. IsConsistent st × (st.orders id ≡ some o))
          (save_order p)
          (λ _. IsConsistent)
          IsConsistent
  unfolding save_order
  save_order-Keeps o p keep = record {
    ends = λ w h.
        let (s, f, a) = paired id w.store o h.0 h.1 in
        (put_order-Holds id w.store p s (λ _ _. Unit {0}) h.0 f (keep s a) tt).0;
  }

-- Both are saved, one after the other.
pub save_both-Keeps :
    {W B : Type 0} {rest : M W B} {R : B → Store → Type 0} (o : Order) (s : CheckoutSaga) (F : Fact)
    → Agree o.id o s
    → F o s
    → Keeps (Holds o.id F) rest R IsConsistent
    → Keeps IsConsistent (save_order o >> (save_saga s >> rest)) R IsConsistent
unfolding save_order save_saga ◌>>◌ ◌>>=◌
save_both-Keeps o s F a f h = record {
  ends = λ w p.
      h.ends (record w { store = put_saga s (put_order o w.store) })
        (put_both-Holds o.id w.store o s F p a f);
}
