-- ===== src/Inventory/Tests.antt =====
-- Stock items at concrete inputs: one with two holds, of which one is due.
use go_marketplace_backend.Base.{ℕ, ◌+◌, ◌≡◌, refl, [], ◌∷◌, none, some, ok, find, arith}
use go_marketplace_backend.Base.Text.{text_eq}
use go_marketplace_backend.Kernel.Quantity.{Quantity, add, sub}
use go_marketplace_backend.Inventory.Types.{
  held, Hold, StockItem, insufficient_stock, stock_overflow,
}
use go_marketplace_backend.Inventory.Stock.{
  physical, has_id, reserve, resolve, release, expire, expire_all, due_ids, expire_due,
}
use go_marketplace_backend.Inventory.Stock.Invariant.{IsStock}
use go_marketplace_backend.Inventory.Stock.Commands.{reserves, releases, call, call-IsStock}
use go_marketplace_backend.Inventory.Stock.Ledger.{Balances, call-Balances}
use go_marketplace_backend.Inventory.Stock.Failure.{stock_call_unchanged, release_overflow}
use go_marketplace_backend.Inventory.Stock.Sweep.{expire_due_total}
use go_marketplace_backend.Inventory.Stock.Expiry.{NoneDue, expire_due-NoneDue}

abbrev units : ℕ → Quantity
units n = record { value = n }

abbrev hold_of : ℕ → ℕ → ℕ → Hold
hold_of id n until = record {
  reservation_id = id ∷ [];
  order_id = 7 ∷ [];
  quantity = units n;
  status = held;
  expires_at = until;
  created_at = 1;
  resolved_at = 0;
}

abbrev item_with : ℕ → StockItem
item_with available = record {
  sku = b's' ∷ [];
  seller_id = 2 ∷ [];
  available = units available;
  reserved = units 5;
  holds = hold_of 1 2 10 ∷ hold_of 2 3 30 ∷ [];
  movements = [];
  created_at = 1;
  updated_at = 1;
  version = 0;
  events = [];
}

abbrev item : StockItem
item = item_with 20

item-IsStock : IsStock item
unfolding text_eq
item-IsStock = ground arith

abbrev crowded : StockItem
crowded = item_with 2147483646

crowded-IsStock : IsStock crowded
unfolding text_eq
crowded-IsStock = ground arith

release_succeeds : (call (releases (1 ∷ [])) 5 item).1 ≡ none
unfolding call release resolve text_eq add sub
release_succeeds = ground arith

call-IsStock_example : IsStock (call (releases (1 ∷ [])) 5 item).0
call-IsStock_example = call-IsStock (releases (1 ∷ [])) 5 item tt item-IsStock release_succeeds

call-Balances_example : Balances item (call (releases (1 ∷ [])) 5 item).0
call-Balances_example = call-Balances (releases (1 ∷ [])) 5 item release_succeeds

large_reserve_fails :
    (call (reserves (3 ∷ []) (7 ∷ []) (units 21) 40) 5 item).1 ≡ some insufficient_stock
unfolding call reserve text_eq add sub
large_reserve_fails = ground arith

stock_call_unchanged_example : (call (reserves (3 ∷ []) (7 ∷ []) (units 21) 40) 5 item).0 ≡ item
stock_call_unchanged_example =
    stock_call_unchanged (reserves (3 ∷ []) (7 ∷ []) (units 21) 40) 5 item refl large_reserve_fails

crowded_hold : find (has_id (1 ∷ [])) crowded.holds ≡ some (hold_of 1 2 10)
unfolding text_eq
crowded_hold = refl

release_overflow_example :
    ((release (1 ∷ []) 5 crowded).1 ≡ some stock_overflow)
    × ((release (1 ∷ []) 5 crowded).0.holds ≡ crowded.holds)
    × ((release (1 ∷ []) 5 crowded).0.reserved.value + 2 ≡ crowded.reserved.value)
    × ¬ IsStock (release (1 ∷ []) 5 crowded).0
release_overflow_example =
    release_overflow (1 ∷ []) 5 crowded (hold_of 1 2 10) crowded-IsStock crowded_hold refl
      (omega arith) (omega arith) (omega arith)

expire_due_succeeds : (expire_due 10 item).1 ≡ ok ((1 ∷ []) ∷ [])
unfolding expire_due due_ids expire_all expire resolve text_eq add sub
expire_due_succeeds = ground arith

expire_due-NoneDue_example : NoneDue 10 (expire_due 10 item).0.holds
expire_due-NoneDue_example = expire_due-NoneDue 10 item item-IsStock expire_due_succeeds

expire_due_total_example : (expire_due 10 item).1 ≡ ok ((1 ∷ []) ∷ [])
unfolding due_ids physical
expire_due_total_example = expire_due_total 10 item item-IsStock (omega arith)
