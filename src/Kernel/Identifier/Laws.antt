-- ===== src/Kernel/Identifier/Laws.antt =====
-- The parsing of identifiers (internal/shared/kernel/id.go).
use go_marketplace_backend.Base.{
  ℕ, suc, ◌≡◌, [], ◌∷◌, some, Option-cases, Bool-cases, ok, arith, length, inl, inr,
}
use go_marketplace_backend.Base.Text.{Text}
use go_marketplace_backend.Kernel.Identifier.{is_dash_place, normal_byte, normalize_from, parse_id}

normal_byte_again : (i c : ℕ) {b : ℕ} → normal_byte i c ≡ some b → normal_byte i b ≡ some b
unfolding normal_byte
normal_byte_again i c h = elim (Bool-cases (is_dash_place i)) [
  | inl e ↦ rw e (ground (arith, e))
  | inr e ↦ rw e (ground (arith, e))
]

normalize_from_again :
    (i : ℕ) (s : Text) {out : Text}
    → normalize_from i s ≡ some out
    → (normalize_from i out ≡ some out) × (length out ≡ length s)
unfolding normalize_from
normalize_from_again i [] {out} h = grind arith
normalize_from_again i (c ∷ s) {out} h = elim (Option-cases (normal_byte i c)) [
  | inl e ↦ cc (rw (e, normalize_from) at h)
  | inr (b, e) ↦ elim (Option-cases (normalize_from (suc i) s)) [
    | inl f ↦ cc (rw (e, f, normalize_from) at h)
    | inr (rest, f) ↦
        ground (arith, normal_byte_again i c e, normalize_from_again (suc i) s f, e, f)
  ]
]

-- What `ParseID` returns, `ParseID` accepts and returns again.
pub parse_id_again : (s : Text) {id : Text} → parse_id s ≡ ok id → parse_id id ≡ ok id
unfolding parse_id
parse_id_again s {id} h = elim (Option-cases (normalize_from 0 s)) [
  | inl e ↦ ground (arith, e)
  | inr (out, e) ↦ ground (arith, e, normalize_from_again 0 s e)
]
