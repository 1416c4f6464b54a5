-- ===== src/Pricing/Promotion/Life.antt =====
-- The methods of a promotion (internal/pricing/domain/promotion.go) as one data type of commands, and its
-- life under them.
use go_marketplace_backend.Base.{
  ℕ, ◌≡◌, refl, inl, inr, Bool, true, false, List, [], ◌∷◌, none, some, ok, err, arith,
  Result-cases, >>=-eq-ok, fail_if, Outcome, subst, ok-injective, ap, Bool-cases, ◌∙◌, sym,
}
use go_marketplace_backend.Base.Text.{trim_space}
use go_marketplace_backend.Kernel.Identifier.{Ident, id_is_zero}
use go_marketplace_backend.Pricing.Types.{
  DiscountRule, PricingError, invalid_name, invalid_target, invalid_period,
}
use go_marketplace_backend.Pricing.Promo.{validate}
use go_marketplace_backend.Pricing.Rules.{is_empty_target, new_rule}
use go_marketplace_backend.Pricing.Promotion.{
  Promotion, PromotionSpec, PromotionStatus, draft, active, paused, ended, same_status, bad_name,
  bad_period, check_spec, rewritten, apply, blank, changed, created, create_promotion, update,
  transition, is_running, rule,
}

pub data PromotionCommand : Type 0 where
  updates : (spec : PromotionSpec) → PromotionCommand
  activates : PromotionCommand
  pauses : PromotionCommand
  ends : PromotionCommand

unfoldable pub call : PromotionCommand → ℕ → Promotion → Outcome Promotion PricingError
call (updates spec) now p = update spec now p
call activates now p = transition active now p
call pauses now p = transition paused now p
call ends now p = transition ended now p

-- A history of calls, each at its time, failed ones included.
unfoldable pub run : List (ℕ × PromotionCommand) → Promotion → Promotion
run [] p = p
run ((now, c) ∷ cs) p = run cs (call c now p).0

-- What the checks of `apply` establish.
pub record IsPromotion (p : Promotion) : Type 0 where
  pub named : bad_name p.name ≡ false
  pub targeted : is_empty_target p.target ≡ false
  pub ruled : (r : DiscountRule) × (rule p ≡ ok r)

fail_if-false : {E : Type 0} (b : Bool) (e : E) {u : Unit {0}} → fail_if b e ≡ ok u → b ≡ false
fail_if-false true e h = cc
fail_if-false false e h = refl

rewritten-IsPromotion :
    (spec : PromotionSpec) (now : ℕ) (p : Promotion) {u : Unit {0}}
    → check_spec p.id spec ≡ ok u
    → IsPromotion (rewritten spec now p)
unfolding check_spec rule
rewritten-IsPromotion spec now p e =
    let (_, k1, e1) = >>=-eq-ok (fail_if (bad_name (trim_space spec.name)) invalid_name) _ e in
    let (_, _, e2) = >>=-eq-ok (validate spec.discount) _ e1 in
    let (_, k3, e3) = >>=-eq-ok (fail_if (is_empty_target spec.target) invalid_target) _ e2 in
    let (_, _, e4) = >>=-eq-ok (fail_if (bad_period spec) invalid_period) _ e3 in
    let (r, k5, _) =
      >>=-eq-ok (new_rule p.id spec.discount spec.target spec.priority spec.exclusive) _ e4 in
    record {
      named = fail_if-false (bad_name (trim_space spec.name)) invalid_name k1;
      targeted = fail_if-false (is_empty_target spec.target) invalid_target k3;
      ruled = (r, k5);
    }

apply-IsPromotion :
    (spec : PromotionSpec) (now : ℕ) (p : Promotion)
    → IsPromotion p
    → IsPromotion (apply spec now p).0
unfolding apply
apply-IsPromotion spec now p v = elim (Result-cases (check_spec p.id spec)) [
  | inl (u, e) ↦ rw (e, apply) (rewritten-IsPromotion spec now p e)
  | inr (x, e) ↦ rw (e, apply) v
]

transition-IsPromotion :
    (target : PromotionStatus) (now : ℕ) (p : Promotion)
    → IsPromotion p
    → IsPromotion (transition target now p).0
unfolding transition rule
transition-IsPromotion target now p v =
    let kept : IsPromotion (changed target now (record p { status = target; updated_at = now })) =
      record { named = v.named; targeted = v.targeted; ruled = v.ruled } in
    elim (Bool-cases (same_status p.status target)) [
      | inl same ↦ rw (same, transition) v
      | inr other ↦ elim (Bool-cases (same_status p.status ended)) [
        | inl over ↦ rw (other, over, transition) v
        | inr runs ↦ rw (other, runs, transition) kept
      ]
    ]

call-IsPromotion :
    (c : PromotionCommand) (now : ℕ) (p : Promotion) → IsPromotion p → IsPromotion (call c now p).0
unfolding call update
call-IsPromotion (updates spec) now p v = elim (Bool-cases (same_status p.status ended)) [
  | inl over ↦ rw (over, update) v
  | inr runs ↦ rw (runs, update) (apply-IsPromotion spec now p v)
]
call-IsPromotion activates now p v = transition-IsPromotion active now p v
call-IsPromotion pauses now p v = transition-IsPromotion paused now p v
call-IsPromotion ends now p v = transition-IsPromotion ended now p v

run-IsPromotion :
    (cs : List (ℕ × PromotionCommand)) (p : Promotion) → IsPromotion p → IsPromotion (run cs p)
unfolding run
run-IsPromotion [] p v = v
run-IsPromotion ((now, c) ∷ cs) p v =
    run-IsPromotion cs (call c now p).0 (call-IsPromotion c now p v)

apply-fine :
    (spec : PromotionSpec) (now : ℕ) (p : Promotion) {u : Unit {0}}
    → check_spec p.id spec ≡ ok u
    → apply spec now p ≡ (rewritten spec now p, none)
unfolding apply
apply-fine spec now p fine = rw (fine, apply) refl

apply-refused :
    (spec : PromotionSpec) (now : ℕ) (p : Promotion) {x : PricingError}
    → check_spec p.id spec ≡ err x
    → apply spec now p ≡ (p, some x)
unfolding apply
apply-refused spec now p refused = rw (refused, apply) refl

create_promotion-fine :
    (id : Ident) (spec : PromotionSpec) (now : ℕ) {u : Unit {0}}
    → id_is_zero id ≡ false
    → check_spec id spec ≡ ok u
    → create_promotion id spec now ≡ ok (changed draft now (rewritten spec now (blank id now)))
unfolding create_promotion
create_promotion-fine id spec now given fine =
    rw (given, create_promotion) (ap (created now) (apply-fine spec now (blank id now) fine))

create_promotion-IsPromotion :
    (id : Ident) (spec : PromotionSpec) (now : ℕ) {p : Promotion}
    → create_promotion id spec now ≡ ok p
    → IsPromotion p
unfolding create_promotion rule
create_promotion-IsPromotion id spec now {p} e = elim (Bool-cases (id_is_zero id)) [
  | inl missing ↦ cc (rw missing at e)
  | inr given ↦ elim (Result-cases (check_spec id spec)) [
    | inr (x, refused) ↦
        let failed : created now (apply spec now (blank id now)) ≡ err x =
          ap (created now) (apply-refused spec now (blank id now) refused) in
        cc (sym failed ∙ rw given at e)
    | inl (u, fine) ↦
        let v = rewritten-IsPromotion spec now (blank id now) fine in
        let kept : IsPromotion (changed draft now (rewritten spec now (blank id now))) = record {
          named = v.named;
          targeted = v.targeted;
          ruled = v.ruled;
        } in
        subst IsPromotion (ok-injective (sym (create_promotion-fine id spec now given fine) ∙ e))
          kept
  ]
]

-- After any history of calls on a promotion that was created, it still makes a rule, has a name of 1 to
-- 200 characters, and has a target.
pub run_rules :
    (id : Ident) (spec : PromotionSpec) (start : ℕ) (cs : List (ℕ × PromotionCommand))
    {p : Promotion}
    → create_promotion id spec start ≡ ok p
    → IsPromotion (run cs p)
run_rules id spec start cs {p} e =
    run-IsPromotion cs p (create_promotion-IsPromotion id spec start e)

call_ended :
    (c : PromotionCommand) (now : ℕ) (p : Promotion) → p.status ≡ ended → (call c now p).0 ≡ p
unfolding call update transition
call_ended (updates spec) now p h = ground (arith, h)
call_ended activates now p h = ground (arith, h)
call_ended pauses now p h = ground (arith, h)
call_ended ends now p h = ground (arith, h)

-- No history of calls changes anything of a promotion that has ended, and it is never running.
pub run_ended :
    (cs : List (ℕ × PromotionCommand)) (now : ℕ) (p : Promotion)
    → p.status ≡ ended
    → (run cs p ≡ p) × (is_running now (run cs p) ≡ false)
unfolding run is_running
run_ended [] now p h = (refl, ground (arith, h))
run_ended ((at, c) ∷ cs) now p h =
    let same = call_ended c at p h in
    let (ih, stopped) =
      run_ended cs now (call c at p).0 (ap (λ (q : Promotion). q.status) same ∙ h) in
    (ih ∙ same, stopped)
