-- ===== src/Ordering/Checkout/Stores.antt =====
-- The store of orders and sagas (internal/ordering/application/ports.go), and what holds of it.
use go_marketplace_backend.Base.{
  ◌≡◌, refl, subst, false, Option, none, some, Result, ok, err, inl, inr, Bool-cases, Option-cases,
}
use go_marketplace_backend.Base.Text.{text_eq, text_eq_iff, text_eq_refl}
use go_marketplace_backend.Kernel.Identifier.{Ident}
use go_marketplace_backend.Ordering.Types.{Order}
use go_marketplace_backend.Ordering.Saga.{CheckoutSaga}
use go_marketplace_backend.Ordering.Checkout.{Fails, Store, put_saga, put_order}
use go_marketplace_backend.Ordering.Checkout.Agreement.{Agree}

-- An order and its saga are stored together, and agree.
abbrev pub AgreeAt : Ident → Option Order → Option CheckoutSaga → Type 0
AgreeAt id none none = Unit
AgreeAt id none (some s) = ⊥
AgreeAt id (some o) none = ⊥
AgreeAt id (some o) (some s) = Agree id o s

abbrev pub IsConsistent : Store → Type 0
IsConsistent st = (id : Ident) → AgreeAt id (st.orders id) (st.sagas id)

abbrev pub Fact : Type 1
Fact = Order → CheckoutSaga → Type 0

-- A fact about one order and its saga, beside the consistency of all.
abbrev pub Holds : Ident → Fact → Store → Type 0
Holds id F st =
    IsConsistent st
    × ((o : Order) (s : CheckoutSaga) → st.orders id ≡ some o → st.sagas id ≡ some s → F o s)

abbrev pub Ends :
    {A : Type 0} → (A → Store → Type 0) → (Store → Type 0) → Result Fails A → Store → Type 0
Ends Q E (ok a) st = Q a st
Ends Q E (err e) st = E st

-- `P` holds before; then `Q` of the result, or `E` on an error.
pub Ends-IsConsistent :
    {A : Type 0} (id : Ident) (F : Fact) (G : A → Fact) (r : Result Fails A) (st : Store)
    → Ends (λ a. Holds id (G a)) (Holds id F) r st
    → IsConsistent st
Ends-IsConsistent id F G (ok a) st h = h.0
Ends-IsConsistent id F G (err e) st h = h.0

-- What is stored of one order and its saga changes, and nothing else.
change_at :
    (id : Ident) (st st' : Store) (p : Order) (t : CheckoutSaga) (F : Fact)
    → IsConsistent st
    → st'.orders id ≡ some p
    → st'.sagas id ≡ some t
    → ((j : Ident)
        → text_eq id j ≡ false
        → (st'.orders j ≡ st.orders j) × (st'.sagas j ≡ st.sagas j))
    → Agree id p t
    → F p t
    → Holds id F st'
change_at id st st' p t F c eo es others a f = (
  λ j. elim (Bool-cases (text_eq id j)) [
    | inl same ↦
        subst (λ k. AgreeAt k (st'.orders k) (st'.sagas k)) ((text_eq_iff id j).0 same)
          (rw (eo, es) a)
    | inr other ↦ let (o', s') = others j other in rw (o', s') (c j)
  ],
  λ o s ho hs.
      subst (λ (x : Order). F x s) (cc (eo, ho))
        (subst (λ (x : CheckoutSaga). F p x) (cc (es, hs)) f),
)

pub put_saga-Holds :
    (id : Ident) (st : Store) (o : Order) (t : CheckoutSaga) (F : Fact)
    → IsConsistent st
    → st.orders id ≡ some o
    → Agree id o t
    → F o t
    → Holds id F (put_saga t st)
put_saga-Holds id st o t F c e a f =
    change_at id st (put_saga t st) o t F c e (rw (a.saga_key, text_eq_refl id))
      (λ j h. (refl, rw (a.saga_key, h))) a f

pub put_order-Holds :
    (id : Ident) (st : Store) (p : Order) (s : CheckoutSaga) (F : Fact)
    → IsConsistent st
    → st.sagas id ≡ some s
    → Agree id p s
    → F p s
    → Holds id F (put_order p st)
put_order-Holds id st p s F c e a f =
    change_at id st (put_order p st) p s F c (rw (a.order_key, text_eq_refl id)) e
      (λ j h. (rw (a.order_key, h), refl)) a f

pub put_both-Holds :
    (id : Ident) (st : Store) (p : Order) (t : CheckoutSaga) (F : Fact)
    → IsConsistent st
    → Agree id p t
    → F p t
    → Holds id F (put_saga t (put_order p st))
put_both-Holds id st p t F c a f =
    change_at id st (put_saga t (put_order p st)) p t F c (rw (a.order_key, text_eq_refl id))
      (rw (a.saga_key, text_eq_refl id)) (λ j h. (rw (a.order_key, h), rw (a.saga_key, h))) a f

-- An order that is stored has its saga beside it.
pub paired :
    (id : Ident) (st : Store) (o : Order)
    → IsConsistent st
    → st.orders id ≡ some o
    → (s : CheckoutSaga) × (st.sagas id ≡ some s) × Agree id o s
paired id st o c e = elim (Option-cases (st.sagas id)) [
  | inl f ↦
      absurd
        (subst (λ x. AgreeAt id (some o) x) f (subst (λ x. AgreeAt id x (st.sagas id)) e (c id)))
  | inr (s, f) ↦ (
    s,
    f,
    subst (λ x. AgreeAt id (some o) x) f (subst (λ x. AgreeAt id x (st.sagas id)) e (c id)),
  )
]

pub paired_saga :
    (id : Ident) (st : Store) (s : CheckoutSaga)
    → IsConsistent st
    → st.sagas id ≡ some s
    → (o : Order) × (st.orders id ≡ some o) × Agree id o s
paired_saga id st s c e = elim (Option-cases (st.orders id)) [
  | inl f ↦
      absurd
        (subst (λ x. AgreeAt id x (some s)) f (subst (λ x. AgreeAt id (st.orders id) x) e (c id)))
  | inr (o, f) ↦ (
    o,
    f,
    subst (λ x. AgreeAt id x (some s)) f (subst (λ x. AgreeAt id (st.orders id) x) e (c id)),
  )
]
