-- ===== src/Pricing/Promotion/Tests.antt =====
-- A promotion at concrete inputs: a tenth off one SKU, activated, paused and ended.
use go_marketplace_backend.Base.{ℕ, ◌≡◌, refl, false, List, [], ◌∷◌, ok}
use go_marketplace_backend.Base.Int.{pos}
use go_marketplace_backend.Base.Text.{trim_space, rune_count}
use go_marketplace_backend.Kernel.Money.{new_basis_points}
use go_marketplace_backend.Pricing.Types.{percentage}
use go_marketplace_backend.Pricing.Promo.{validate}
use go_marketplace_backend.Pricing.Rules.{new_rule}
use go_marketplace_backend.Pricing.Promotion.{
  Promotion, PromotionSpec, draft, ended, changed, rewritten, blank, create_promotion, is_running,
}
use go_marketplace_backend.Pricing.Promotion.Life.{
  PromotionCommand, updates, activates, pauses, ends, run, IsPromotion, run_rules, run_ended,
}

abbrev tenth_off : PromotionSpec
tenth_off = record {
  name = b' ' ∷ b'A' ∷ [];
  discount = record {
    kind = percentage;
    basis_points = pos 1000;
    amount = pos 0;
    currency = [];
    buy_quantity = pos 0;
    free_units = pos 0;
  };
  target = record { skus = (b'T' ∷ []) ∷ []; sellers = []; categories = [] };
  priority = pos 1;
  exclusive = false;
  starts_at = 0;
  ends_at = 9;
}

abbrev drafted : Promotion
drafted = changed draft 2 (rewritten tenth_off 2 (blank (b'i' ∷ []) 2))

creates : create_promotion (b'i' ∷ []) tenth_off 2 ≡ ok drafted
unfolding create_promotion trim_space rune_count validate new_basis_points new_rule
creates = refl

abbrev career : List (ℕ × PromotionCommand)
career = (3, activates) ∷ (4, updates tenth_off) ∷ (5, pauses) ∷ (6, ends) ∷ (7, activates) ∷ []

run_rules_example : IsPromotion (run career drafted)
run_rules_example = run_rules (b'i' ∷ []) tenth_off 2 career creates

abbrev over : Promotion
over = record drafted { status = ended }

run_ended_example : (run career over ≡ over) × (is_running 8 (run career over) ≡ false)
run_ended_example = run_ended career 8 over refl
