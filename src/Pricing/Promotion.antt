-- ===== src/Pricing/Promotion.antt =====
-- Promotions (internal/pricing/domain/promotion.go), method by method. A method gives the promotion that
-- it leaves behind, also when it returns an error.
pub mod Life
mod Tests
use go_marketplace_backend.Base.{
  ℕ, Bool, true, false, ◌&&◌, ◌||◌, not, List, [], ◌∷◌, ◌++◌, ltb, ◌==◌, if◌then◌else◌, Option,
  none, some, Result, ok, err, ◌>>=◌, ◌>>◌, fail_if, Outcome,
}
use go_marketplace_backend.Base.Int.{ℤ, pos}
use go_marketplace_backend.Base.Text.{Text, is_empty, trim_space, rune_count}
use go_marketplace_backend.Kernel.Identifier.{Ident, id_is_zero}
use go_marketplace_backend.Pricing.Types.{
  DiscountSpec, DiscountRule, unknown_kind, Target, PricingError, invalid_id, invalid_name,
  invalid_target, invalid_period, promotion_ended,
}
use go_marketplace_backend.Pricing.Promo.{validate}
use go_marketplace_backend.Pricing.Rules.{is_empty_target, new_rule}

pub data PromotionStatus : Type 0 where
  draft active paused ended : PromotionStatus

abbrev pub same_status : PromotionStatus → PromotionStatus → Bool
same_status draft draft = true
same_status active active = true
same_status paused paused = true
same_status ended ended = true
same_status _ _ = false

pub record PromotionSpec : Type 0 where
  pub name : Text
  pub discount : DiscountSpec
  pub target : Target
  pub priority : ℤ
  pub exclusive : Bool
  pub starts_at : ℕ
  pub ends_at : ℕ

-- `PromotionChanged`
pub record PromotionEvent : Type 0 where
  pub promotion_id : Ident
  pub status : PromotionStatus
  pub at : ℕ

pub record Promotion : Type 0 where
  pub id : Ident
  pub name : Text
  pub spec : DiscountSpec
  pub target : Target
  pub priority : ℤ
  pub exclusive : Bool
  pub starts_at : ℕ
  pub ends_at : ℕ
  pub status : PromotionStatus
  pub created_at : ℕ
  pub updated_at : ℕ
  pub version : ℕ
  pub events : List PromotionEvent

abbrev pub bad_name : Text → Bool
bad_name name = is_empty name || ltb 200 (rune_count name)

abbrev pub bad_period : PromotionSpec → Bool
bad_period spec = not (spec.ends_at == 0) && not (ltb spec.starts_at spec.ends_at)

-- The checks of `apply` under an identifier.
unfoldable pub check_spec : Ident → PromotionSpec → Result PricingError (Unit {0})
check_spec id spec = do
  fail_if (bad_name (trim_space spec.name)) invalid_name
  validate spec.discount
  fail_if (is_empty_target spec.target) invalid_target
  fail_if (bad_period spec) invalid_period
  _ ← new_rule id spec.discount spec.target spec.priority spec.exclusive
  ok tt

-- The writes of `apply`.
abbrev pub rewritten : PromotionSpec → ℕ → Promotion → Promotion
rewritten spec now p = record p {
  name = trim_space spec.name;
  spec = spec.discount;
  target = spec.target;
  priority = spec.priority;
  exclusive = spec.exclusive;
  starts_at = spec.starts_at;
  ends_at = spec.ends_at;
  updated_at = now;
}

unfoldable pub apply : PromotionSpec → ℕ → Promotion → Outcome Promotion PricingError
unfolding check_spec
apply spec now p = elim (check_spec p.id spec) [
  | err e ↦ (p, some e)
  | ok _ ↦ (rewritten spec now p, none)
]

abbrev pub changed : PromotionStatus → ℕ → Promotion → Promotion
changed status now p = record p {
  events = p.events ++ record { promotion_id = p.id; status = status; at = now } ∷ [];
}

-- `&Promotion{id: id, status: PromotionDraft, createdAt: now, updatedAt: now}`; the empty kind is none of
-- the three.
abbrev pub blank : Ident → ℕ → Promotion
blank id now = record {
  id = id;
  name = [];
  spec = record {
    kind = unknown_kind;
    basis_points = pos 0;
    amount = pos 0;
    currency = [];
    buy_quantity = pos 0;
    free_units = pos 0;
  };
  target = record { skus = []; sellers = []; categories = [] };
  priority = pos 0;
  exclusive = false;
  starts_at = 0;
  ends_at = 0;
  status = draft;
  created_at = now;
  updated_at = now;
  version = 0;
  events = [];
}

-- What is returned after `apply`.
abbrev pub created : ℕ → Outcome Promotion PricingError → Result PricingError Promotion
created now (p, some e) = err e
created now (p, none) = ok (changed draft now p)

unfoldable pub create_promotion : Ident → PromotionSpec → ℕ → Result PricingError Promotion
unfolding apply
create_promotion id spec now =
    if id_is_zero id then err invalid_id else created now (apply spec now (blank id now))

unfoldable pub update : PromotionSpec → ℕ → Promotion → Outcome Promotion PricingError
unfolding apply
update spec now p =
    if same_status p.status ended then (p, some promotion_ended) else apply spec now p

unfoldable pub transition : PromotionStatus → ℕ → Promotion → Outcome Promotion PricingError
transition target now p =
    if same_status p.status target
    then (p, none)
    else if same_status p.status ended
    then (p, some promotion_ended)
    else (changed target now (record p { status = target; updated_at = now }), none)

unfoldable pub is_running : ℕ → Promotion → Bool
is_running now p =
    same_status p.status active
    && not (not (p.starts_at == 0) && ltb now p.starts_at)
    && (p.ends_at == 0 || ltb now p.ends_at)

unfoldable pub rule : Promotion → Result PricingError DiscountRule
rule p = new_rule p.id p.spec p.target p.priority p.exclusive
