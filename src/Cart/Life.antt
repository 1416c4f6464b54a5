-- ===== src/Cart/Life.antt =====
-- The methods of a cart (internal/cart/domain/cart.go) as one data type of commands, and the invariant of a
-- cart under fixed limits.
use go_marketplace_backend.Base.{
  ℕ, ◌≡◌, ◌||◌, List, [], ◌∷◌, All, arith, none, some, inl, inr, Bool-cases, ok, Outcome,
  then_do-keeps, subst, ok-injective,
}
use go_marketplace_backend.Base.Int.{ℤ, pos, ◌≤ℤ◌}
use go_marketplace_backend.Base.Text.{Text}
use go_marketplace_backend.Kernel.Identifier.{Ident, id_is_zero}
use go_marketplace_backend.Cart.Types.{Limits, Owner, Offer, Cart, CartError}
use go_marketplace_backend.Cart.Owners.{owner_is_zero, normalize_promo_code}
use go_marketplace_backend.Cart.{
  new_cart, add, remove, set_quantity, remove_skus, apply_promo_code, clear_promo_code, absorb,
}
use go_marketplace_backend.Cart.Writes.{
  IsCart, Addable, add-IsCart, set_quantity-IsCart, remove-IsCart, remove_skus-IsCart,
}
use go_marketplace_backend.Cart.Absorb.{absorb-IsCart}

pub data CartCommand : Type 0 where
  adds : (offer : Offer) (quantity available : ℤ) → CartCommand
  sets_quantity : (offer : Offer) (quantity available : ℤ) → CartCommand
  removes : (sku : Text) → CartCommand
  removes_skus : (skus : List Text) → CartCommand
  applies_promo_code : (raw : Text) → CartCommand
  clears_promo_code : CartCommand
  absorbs : (other : Cart) (available : Text → ℤ) → CartCommand

unfoldable pub call : Limits → (Text → Text) → CartCommand → ℕ → Cart → Outcome Cart CartError
call limits to_upper (adds offer quantity available) now c =
    add offer quantity available limits now c
call limits to_upper (sets_quantity offer quantity available) now c =
    set_quantity offer quantity available limits now c
call limits to_upper (removes sku) now c = remove sku limits now c
call limits to_upper (removes_skus skus) now c = ((remove_skus skus limits now c).0, none)
call limits to_upper (applies_promo_code raw) now c = apply_promo_code to_upper raw limits now c
call limits to_upper clears_promo_code now c = (clear_promo_code limits now c, none)
call limits to_upper (absorbs other available) now c = absorb other available limits now c

-- A history of calls, each at its time, failed ones included.
unfoldable pub run : Limits → (Text → Text) → List (ℕ × CartCommand) → Cart → Cart
run limits to_upper [] c = c
run limits to_upper ((now, m) ∷ ms) c = run limits to_upper ms (call limits to_upper m now c).0

-- A call whose arguments fit: what is added fits an `int`, and what is absorbed is a cart in order.
abbrev pub IsCall : Limits → CartCommand → Type 0
IsCall limits (adds _ quantity _) = Addable limits quantity
IsCall limits (absorbs other _) = IsCart limits other
IsCall limits _ = Unit

call-IsCart :
    (limits : Limits) (to_upper : Text → Text) (m : CartCommand) (now : ℕ) (c : Cart)
    → IsCall limits m
    → IsCart limits c
    → IsCart limits (call limits to_upper m now c).0
unfolding call apply_promo_code clear_promo_code
call-IsCart limits to_upper (adds offer quantity available) now c fits v =
    add-IsCart limits offer quantity available now c fits v
call-IsCart limits to_upper (sets_quantity offer quantity available) now c _ v =
    set_quantity-IsCart limits offer quantity available now c v
call-IsCart limits to_upper (removes sku) now c _ v = remove-IsCart limits sku now c v
call-IsCart limits to_upper (removes_skus skus) now c _ v = remove_skus-IsCart limits skus now c v
call-IsCart limits to_upper (applies_promo_code raw) now c _ v =
    then_do-keeps (IsCart limits) c (normalize_promo_code to_upper raw) _ v
      (λ code _. record { distinct = v.distinct; few = v.few; in_order = v.in_order })
call-IsCart limits to_upper clears_promo_code now c _ v = record {
  distinct = v.distinct;
  few = v.few;
  in_order = v.in_order;
}
call-IsCart limits to_upper (absorbs other available) now c w v =
    absorb-IsCart limits other available now c w v

run-IsCart :
    (limits : Limits) (to_upper : Text → Text) (ms : List (ℕ × CartCommand)) (c : Cart)
    → All (λ (m : ℕ × CartCommand). IsCall limits m.1) ms
    → IsCart limits c
    → IsCart limits (run limits to_upper ms c)
unfolding run
run-IsCart limits to_upper [] c _ v = v
run-IsCart limits to_upper ((now, m) ∷ ms) c (fits, fit) v =
    run-IsCart limits to_upper ms (call limits to_upper m now c).0 fit
      (call-IsCart limits to_upper m now c fits v)

-- Where the limits admit no negative number of items: after any history of calls on a new cart, in which no
-- added quantity comes within the maximal quantity of the largest `int`, and what is absorbed is itself in
-- order under the same limits, no SKU stands twice, there are at most so many items as the limits allow, and
-- every item has a quantity of 1 to the maximum and a positive price.
pub run_cart :
    (limits : Limits) (to_upper : Text → Text) (id : Ident) (owner : Owner) (start : ℕ)
    (ms : List (ℕ × CartCommand)) {c : Cart}
    → pos 0 ≤ℤ limits.max_items
    → new_cart id owner limits start ≡ ok c
    → All (λ (m : ℕ × CartCommand). IsCall limits m.1) ms
    → IsCart limits (run limits to_upper ms c)
unfolding new_cart
run_cart limits to_upper id owner start ms {c} room e fit =
    elim (Bool-cases (id_is_zero id || owner_is_zero owner)) [
      | inl missing ↦ cc (rw missing at e)
      | inr given ↦
          let made = rw given at e in
          run-IsCart limits to_upper ms c fit (
            subst (IsCart limits) (ok-injective made)
              (record { distinct = tt; few = room; in_order = tt }))
    ]

-- A call that returns an error leaves the cart as it was.
pub cart_call_unchanged :
    (limits : Limits) (to_upper : Text → Text) (m : CartCommand) (now : ℕ) (c : Cart)
    {x : CartError}
    → (call limits to_upper m now c).1 ≡ some x
    → (call limits to_upper m now c).0 ≡ c
unfolding call add set_quantity remove apply_promo_code absorb
cart_call_unchanged limits to_upper m now c e = ground arith
