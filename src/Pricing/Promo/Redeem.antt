-- ===== src/Pricing/Promo/Redeem.antt =====
-- A redemption and its release (internal/pricing/domain/promo_code.go).
use go_marketplace_backend.Base.{
  ℕ, ◌≡◌, Bool, true, false, none, arith, any, List, ◌++◌, ◌∷◌, [], ◌+◌,
}
use go_marketplace_backend.Base.Int.{ℤ}
use go_marketplace_backend.Base.Text.{text_eq, text_eq_refl}
use go_marketplace_backend.Kernel.Identifier.{Ident}
use go_marketplace_backend.Kernel.Money.{Money}
use go_marketplace_backend.Pricing.Types.{PromoCode}
use go_marketplace_backend.Pricing.Promo.{redeem, release}

any-append_last :
    {A : Type 0} (f : A → Bool) (xs : List A) (x : A) → f x ≡ true → any f (xs ++ x ∷ []) ≡ true
any-append_last f [] x h = ground (arith, h)
any-append_last f (y ∷ xs) x h = ground (arith, any-append_last f xs x h)

-- After a redemption that succeeds, for an order that no recorded release names, releasing the order
-- restores the count of uses, and releasing it again changes nothing.
pub release-redeem :
    (order customer : Ident) (subtotal : Money) (usage : ℤ) (now later last : ℕ) (p : PromoCode)
    → (redeem order customer subtotal usage now p).1 ≡ none
    → any (λ r. text_eq r order) p.releases ≡ false
    → let q = (redeem order customer subtotal usage now p).0 in
      let r = (release order true later q).0 in
      (q.used ≡ p.used + 1) × (r.used ≡ p.used) × (release order true last r ≡ (r, none))
unfolding redeem release
release-redeem order customer subtotal usage now later last p e fresh =
    ground (arith, any-append_last (λ r. text_eq r order) p.releases order (text_eq_refl order))
