-- ===== src/Shipping.antt =====
-- The shipping costs: the contract (internal/shipping/api/contract.go) and the flat tariffs
-- (internal/shipping/infrastructure/flat/tariffs.go). A cost is an `int64`, signed.
use go_marketplace_backend.Base.{◌&&◌, not, List, [], ◌∷◌, if◌then◌else◌, Result, ok, err}
use go_marketplace_backend.Base.Int.{ℤ, pos, ltb_ℤ, leb_ℤ, add64}
use go_marketplace_backend.Base.Text.{Text, is_empty, text_eq}

abbrev pub standard : Text
standard = b's' ∷ b't' ∷ b'a' ∷ b'n' ∷ b'd' ∷ b'a' ∷ b'r' ∷ b'd' ∷ []

pub record Parcel : Type 0 where
  pub seller_id : Text
  pub subtotal : ℤ

pub record TariffRequest : Type 0 where
  pub method : Text
  pub currency : Text
  pub parcels : List Parcel

pub record ParcelCost : Type 0 where
  pub seller_id : Text
  pub cost : ℤ

pub record TariffQuote : Type 0 where
  pub method : Text
  pub currency : Text
  pub parcels : List ParcelCost
  pub total : ℤ

pub data ShippingError : Type 0 where
  unknown_method : ShippingError

pub record Settings : Type 0 where
  pub fee : ℤ
  pub free_from : ℤ

abbrev pub cost_of : Settings → Parcel → ParcelCost
cost_of s p = record {
  seller_id = p.seller_id;
  cost = if ltb_ℤ (pos 0) s.free_from && leb_ℤ s.free_from p.subtotal then pos 0 else s.fee;
}

-- The loop of `Quote`, with the total so far.
unfoldable pub add_costs : Settings → List Parcel → ℤ → List ParcelCost × ℤ
add_costs s [] total = ([], total)
add_costs s (p ∷ ps) total =
    let (costs, sum) = add_costs s ps (add64 total (cost_of s p).cost) in (cost_of s p ∷ costs, sum)

unfoldable pub tariff_quote : Settings → TariffRequest → Result ShippingError TariffQuote
unfolding add_costs
tariff_quote s request =
    let method = if is_empty request.method then standard else request.method in
    let (costs, total) = add_costs s request.parcels (pos 0) in
    if not (text_eq method standard)
    then err unknown_method
    else ok
        (record { method = method; currency = request.currency; parcels = costs; total = total })
