-- ===== src/Kernel/Identifier.antt =====
-- internal/shared/kernel/id.go: identifiers and the normal form of a UUID. An `ID` wraps its string,
-- which is empty for the zero `ID`. It is generated from the clock and random bytes, or parsed.
pub mod Laws
mod Tests
use go_marketplace_backend.Base.{
  ℕ, suc, ◌+◌, Bool, true, false, ◌&&◌, ◌||◌, not, List, [], ◌∷◌, ltb, leb, ◌==◌, if◌then◌else◌,
  Option, none, some, Result, ok, err, length, any,
}
use go_marketplace_backend.Base.Text.{Text, is_empty, text_eq}
use go_marketplace_backend.Kernel.Error.{KernelError, invalid_id}

abbrev pub Ident : Type 0
Ident = Text

abbrev pub id_is_zero : Ident → Bool
id_is_zero id = is_empty id

-- The positions 8, 13, 18 and 23.
abbrev pub is_dash_place : ℕ → Bool
is_dash_place i = any (λ k. i == k) (8 ∷ 13 ∷ 18 ∷ 23 ∷ [])

-- The byte written for a byte read at a place, if it is allowed there.
unfoldable pub normal_byte : ℕ → ℕ → Option ℕ
normal_byte i c =
    if is_dash_place i
    then if c == b'-' then some c else none
    else if (leb b'0' c && leb c b'9') || (leb b'a' c && leb c b'f')
    then some c
    else if leb b'A' c && leb c b'F'
    then some (c + 32)
    else none

-- The loop, from place `i` on.
unfoldable pub normalize_from : ℕ → Text → Option Text
unfolding normal_byte
normalize_from i [] = some []
normalize_from i (c ∷ s) = elim (normal_byte i c) [
  | none ↦ none
  | some b ↦ elim (normalize_from (suc i) s) [ none ↦ none | some out ↦ some (b ∷ out) ]
]

-- "00000000-0000-0000-0000-000000000000"
unfoldable pub nil_uuid : ℕ → ℕ → Text
nil_uuid i ℕ.zero = []
nil_uuid i (suc n) = (if is_dash_place i then b'-' else b'0') ∷ nil_uuid (suc i) n

unfoldable pub normalize_uuid : Text → Option Text
unfolding normalize_from
normalize_uuid s = if not (length s == 36) then none else elim (normalize_from 0 s) [
  | none ↦ none
  | some out ↦ if text_eq out (nil_uuid 0 36) then none else some out
]

unfoldable pub parse_id : Text → Result KernelError Text
unfolding normalize_uuid
parse_id s = elim (normalize_uuid s) [ none ↦ err invalid_id | some id ↦ ok id ]
