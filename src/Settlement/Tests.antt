-- ===== src/Settlement/Tests.antt =====
-- An order at concrete inputs: two items of one seller at a tenth of commission.
use go_marketplace_backend.Base.{ℕ, ◌≡◌, refl, List, [], ◌∷◌, Option, none, ap}
use go_marketplace_backend.Base.Int.{ℤ, pos, add64}
use go_marketplace_backend.Base.Text.{Text, text_eq}
use go_marketplace_backend.Kernel.Identifier.{
  Ident, parse_id, normalize_uuid, normalize_from, normal_byte, nil_uuid,
}
use go_marketplace_backend.Kernel.Money.{
  kzt, new_money, new_currency, new_basis_points, apply_percent, sub,
}
use go_marketplace_backend.Settlement.{
  Entry, SettlementError, AccrueSettlement, settle, sum_items, add_totals, accrue_all, new_entry,
  accrue, save,
}
use go_marketplace_backend.Settlement.Ledger.{IsLedger, settle-IsLedger}
use go_marketplace_backend.Settlement.Again.{settle_again}

abbrev seller : Text
seller =
    b'0' ∷ b'0' ∷ b'0' ∷ b'0' ∷ b'0' ∷ b'0' ∷ b'0' ∷ b'0' ∷ b'-' ∷ b'0' ∷ b'0' ∷ b'0' ∷ b'0' ∷ b'-'
    ∷ b'0' ∷ b'0' ∷ b'0' ∷ b'0' ∷ b'-' ∷ b'0' ∷ b'0' ∷ b'0' ∷ b'0' ∷ b'-' ∷ b'0' ∷ b'0' ∷ b'0'
    ∷ b'0' ∷ b'0' ∷ b'0' ∷ b'0' ∷ b'0' ∷ b'0' ∷ b'0' ∷ b'0' ∷ b'a' ∷ []

abbrev sold : AccrueSettlement
sold = record {
  order_id = b'o' ∷ [];
  currency = kzt;
  items =
      record { seller_id = seller; category_id = []; amount = pos 1000 }
      ∷ record { seller_id = seller; category_id = []; amount = pos 500 }
      ∷ [];
}

abbrev no_rate : Text → Text → Option ℤ
no_rate _ _ = none

abbrev ids : ℕ → Ident
ids _ = b'e' ∷ []

settle-IsLedger_example : IsLedger (settle no_rate (pos 1000) ids 7 sold []).0.0
settle-IsLedger_example =
    settle-IsLedger no_rate (pos 1000) ids 7 sold [] (record { balanced = tt; single = tt })

abbrev earned : Entry
earned = record {
  id = b'e' ∷ [];
  order_id = b'o' ∷ [];
  seller_id = seller;
  gross = record { amount = 1500; currency = kzt };
  commission = record { amount = 150; currency = kzt };
  net = record { amount = 1350; currency = kzt };
  accrued_at = 7;
}

settles : settle no_rate (pos 1000) ids 7 sold [] ≡ ((earned ∷ [], 1), none)
unfolding settle sum_items add_totals accrue_all new_entry accrue save parse_id normalize_uuid
    normalize_from normal_byte nil_uuid text_eq new_currency new_money new_basis_points
    apply_percent sub add64
settles = refl

settles_well : (settle no_rate (pos 1000) ids 7 sold []).1 ≡ none
settles_well = ap (λ (r : (List Entry × ℕ) × Option SettlementError). r.1) settles

settle_again_example :
    settle no_rate (pos 1000) ids 9 sold (settle no_rate (pos 1000) ids 7 sold []).0.0
    ≡ (((settle no_rate (pos 1000) ids 7 sold []).0.0, 0), none)
settle_again_example = settle_again no_rate (pos 1000) ids ids 7 9 sold [] (λ _. refl) settles_well
