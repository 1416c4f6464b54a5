-- ===== src/Kernel/Identifier/Tests.antt =====
-- An identifier in capitals is parsed into small letters.
use go_marketplace_backend.Base.{◌≡◌, refl, [], ◌∷◌, ok}
use go_marketplace_backend.Base.Text.{Text, text_eq}
use go_marketplace_backend.Kernel.Identifier.{
  nil_uuid, normal_byte, normalize_from, normalize_uuid, parse_id,
}
use go_marketplace_backend.Kernel.Identifier.Laws.{parse_id_again}

-- "00000000-0000-0000-0000-00000000000A", as it is read and as it is returned.
abbrev raw_id : Text
raw_id =
    b'0' ∷ b'0' ∷ b'0' ∷ b'0' ∷ b'0' ∷ b'0' ∷ b'0' ∷ b'0' ∷ b'-' ∷ b'0' ∷ b'0' ∷ b'0' ∷ b'0' ∷ b'-'
    ∷ b'0' ∷ b'0' ∷ b'0' ∷ b'0' ∷ b'-' ∷ b'0' ∷ b'0' ∷ b'0' ∷ b'0' ∷ b'-' ∷ b'0' ∷ b'0' ∷ b'0'
    ∷ b'0' ∷ b'0' ∷ b'0' ∷ b'0' ∷ b'0' ∷ b'0' ∷ b'0' ∷ b'0' ∷ b'A' ∷ []

abbrev kept_id : Text
kept_id =
    b'0' ∷ b'0' ∷ b'0' ∷ b'0' ∷ b'0' ∷ b'0' ∷ b'0' ∷ b'0' ∷ b'-' ∷ b'0' ∷ b'0' ∷ b'0' ∷ b'0' ∷ b'-'
    ∷ b'0' ∷ b'0' ∷ b'0' ∷ b'0' ∷ b'-' ∷ b'0' ∷ b'0' ∷ b'0' ∷ b'0' ∷ b'-' ∷ b'0' ∷ b'0' ∷ b'0'
    ∷ b'0' ∷ b'0' ∷ b'0' ∷ b'0' ∷ b'0' ∷ b'0' ∷ b'0' ∷ b'0' ∷ b'a' ∷ []

raw_id_parses : parse_id raw_id ≡ ok kept_id
unfolding parse_id normalize_uuid normalize_from normal_byte nil_uuid text_eq
raw_id_parses = refl

parse_id_again_example : parse_id kept_id ≡ ok kept_id
parse_id_again_example = parse_id_again raw_id raw_id_parses
