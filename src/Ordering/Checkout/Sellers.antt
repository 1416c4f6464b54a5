-- ===== src/Ordering/Checkout/Sellers.antt =====
-- The handlers of fulfilment (internal/ordering/application/command/fulfillment.go), on the stored orders
-- and sagas.
use go_marketplace_backend.Base.{
  ℕ, ◌≡◌, not, List, [], ◌∷◌, Option, ok, inl, inr, Bool-cases, if◌then◌else◌, subst, ok-injective,
}
use go_marketplace_backend.Base.Text.{Text, is_empty}
use go_marketplace_backend.Kernel.Identifier.{Ident, parse_id}
use go_marketplace_backend.Ordering.Status.{Actor}
use go_marketplace_backend.Ordering.Types.{Order, OrderError}
use go_marketplace_backend.Ordering.Order
use go_marketplace_backend.Ordering.Order.{seller_ids}
use go_marketplace_backend.Ordering.Saga.{CheckoutSaga}
use go_marketplace_backend.Ordering.Checkout.{wrap, Store, Dependencies, M}
use go_marketplace_backend.Ordering.Checkout.Actors.{
  Principal, can, orders_support, member_actor, seller_actor,
}
use go_marketplace_backend.Ordering.Checkout.Fulfilment.{
  by_seller, ship_order, deliver_order, completing_order, complete_order, complete_delivered,
}
use go_marketplace_backend.Ordering.Checkout.Agreement.{
  Agree, mark_shipped-Agree, mark_delivered-Agree, complete_order-Agree,
}
use go_marketplace_backend.Ordering.Checkout.Stores.{IsConsistent}
use go_marketplace_backend.Ordering.Checkout.Rules.{
  Keeps, call-Keeps, bind-Keeps, attempt-Keeps, pure-Keeps, fail-Keeps, read-Keeps, pull-Keeps,
  if-Keeps, with_id-Keeps, weaken-Keeps, lift-Keeps,
}
use go_marketplace_backend.Ordering.Checkout.Transactions.{
  mutate_order-Keeps, load_order-Keeps, save_order-Keeps,
}
use go_marketplace_backend.Ordering.Checkout.Runs.{
  Any, Safe, about, for_each-Safe, joined-Safe, Ends-both,
}

module _ {W : Type 0} (d : Dependencies W) {P : Store → Type 0} where
  member_actor-Keeps :
      (user : Text) (sellers : List Ident) → Keeps P (member_actor d user sellers) (λ _. P) P
  unfolding member_actor
  member_actor-Keeps user [] = fail-Keeps _ (λ _ p. p)
  member_actor-Keeps user (seller ∷ sellers) =
      bind-Keeps (call-Keeps _)
        λ member. if-Keeps member (pure-Keeps _ (λ _ p. p)) (member_actor-Keeps user sellers)

  seller_actor-Keeps :
      (principal : Principal) (o : Order) → Keeps P (seller_actor d principal o) (λ _. P) P
  unfolding seller_actor
  seller_actor-Keeps principal o = if-Keeps (is_empty principal.user_id) (fail-Keeps _ (λ _ p. p)) (
      if-Keeps (can principal orders_support) (pure-Keeps _ (λ _ p. p))
        (member_actor-Keeps principal.user_id (seller_ids o)))

module _ {W : Type 0} (d : Dependencies W) where
  by_seller-Safe :
      (method : Actor → ℕ → Order → Order × Option OrderError) (principal : Principal) (raw : Text)
      → ((id : Ident) (o p : Order) (s : CheckoutSaga) (actor : Actor) (now : ℕ)
          → Agree id o s
          → wrap (method actor now o) ≡ ok p
          → Agree id p s)
      → Safe (by_seller d method principal raw)
  by_seller-Safe method principal raw keep =
      with_id-Keeps (parse_id raw) (fail-Keeps _ (λ _ p. p)) λ id.
        bind-Keeps (load_order-Keeps id) λ o.
          bind-Keeps (failing (seller_actor-Keeps d principal o)) λ actor.
            bind-Keeps (read-Keeps _) λ now.
              bind-Keeps (failing (lift-Keeps (wrap (method actor now o))))
                λ p. pull-Keeps λ e. save_order-Keeps id o p (λ s a. keep id o p s actor now a e)
    where
      failing :
          {A : Type 0} {m : M W A} {X : Store → Type 0} {Q : A → Store → Type 0}
          → Keeps (λ st. IsConsistent st × X st) m Q (λ st. IsConsistent st × X st)
          → Keeps (λ st. IsConsistent st × X st) m Q IsConsistent
      failing h = weaken-Keeps h (λ _ p. p) (λ _ _ p. p) (λ _ p. p.0)

  pub ship_order-Safe : (principal : Principal) (raw : Text) → Safe (ship_order d principal raw)
  unfolding ship_order
  ship_order-Safe principal raw =
      by_seller-Safe Order.mark_shipped principal raw
        (λ id o p s actor now a e. mark_shipped-Agree id o s a actor now p e)

  pub deliver_order-Safe :
      (principal : Principal) (raw : Text) → Safe (deliver_order d principal raw)
  unfolding deliver_order
  deliver_order-Safe principal raw =
      by_seller-Safe Order.mark_delivered principal raw
        (λ id o p s actor now a e. mark_delivered-Agree id o s a actor now p e)

  completing_order-Agree :
      (id : Ident) (o p : Order) (s : CheckoutSaga) (now : ℕ)
      → Agree id o s
      → completing_order d now o ≡ ok p
      → Agree id p s
  completing_order-Agree id o p s now a e =
      elim (Bool-cases (Order.ready_to_complete d.policy.return_window now o)) [
        | inl ready ↦
            complete_order-Agree id o s a now p
              (subst (λ b. (if not b then ok o else wrap (Order.complete now o)) ≡ ok p) ready e)
        | inr early ↦
            subst (λ q. Agree id q s)
              (ok-injective
                (subst (λ b. (if not b then ok o else wrap (Order.complete now o)) ≡ ok p) early e))
              a
      ]

  pub complete_delivered-Safe : (ids : List Ident) → Safe (complete_delivered d ids)
  unfolding complete_delivered complete_order
  complete_delivered-Safe ids =
      bind-Keeps
        (for_each-Safe _
          (λ id. bind-Keeps (read-Keeps _) λ now.
            bind-Keeps
              (attempt-Keeps (
                weaken-Keeps
                  (mutate_order-Keeps id (completing_order d now) Any Any
                    (λ o p s a f e. (completing_order-Agree id o p s now a e, tt)))
                  (about id) (λ _ _ p. p.0) (λ _ p. p.0)))
              λ answer. pure-Keeps _ (Ends-both answer))
          ids)
        λ e. joined-Safe _ e
