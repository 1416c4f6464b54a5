-- ===== src/Inventory/Stock/Failure.antt =====
-- What a failed method of the stock aggregate leaves behind (internal/inventory/domain/stock_item.go).
use go_marketplace_backend.Base.{ℕ, ◌+◌, ◌≤◌, ◌<◌, ◌≡◌, some, arith, find, Bool, true, false}
use go_marketplace_backend.Kernel.Identifier.{Ident}
use go_marketplace_backend.Kernel.Quantity.{max_quantity, add, sub}
use go_marketplace_backend.Inventory.Types.{Hold, StockError, StockItem, stock_overflow}
use go_marketplace_backend.Inventory.Stock.{
  has_id, is_held, restock, set_available, reserve, resolve, commit, release, restore, return_units,
}
use go_marketplace_backend.Inventory.Stock.Invariant.{IsStock}
use go_marketplace_backend.Inventory.Stock.Commands.{
  StockCommand, restocks, sets, reserves, commits, releases, expires, expires_due, restores,
  returns, call,
}

-- The commands that give held units back to the available stock.
abbrev pub frees : StockCommand → Bool
frees (releases id) = true
frees (expires id) = true
frees expires_due = true
frees _ = false

-- A failed command that gives no held units back changes nothing.
pub stock_call_unchanged :
    (c : StockCommand) (now : ℕ) (s : StockItem) {x : StockError}
    → frees c ≡ false
    → (call c now s).1 ≡ some x
    → (call c now s).0 ≡ s
unfolding call restock set_available reserve commit resolve restore return_units
stock_call_unchanged (restocks seller q ref) now s f e = ground arith
stock_call_unchanged (sets seller target ref) now s f e = ground arith
stock_call_unchanged (reserves id order q expires_at) now s f e = ground arith
stock_call_unchanged (commits id) now s f e = ground arith
stock_call_unchanged (releases id) now s f e = cc
stock_call_unchanged (expires id) now s f e = cc
stock_call_unchanged expires_due now s f e = cc
stock_call_unchanged (restores id) now s f e = ground arith
stock_call_unchanged (returns ref q) now s f e = ground arith

-- On a consistent item, a release of a positive quantity of held units that would pass the maximal
-- stock fails when the reserved quantity is already lowered: the item that it leaves behind lists the
-- holds as before, and is inconsistent.
pub release_overflow :
    (id : Ident) (now : ℕ) (s : StockItem) (h : Hold)
    → IsStock s
    → find (has_id id) s.holds ≡ some h
    → is_held h ≡ true
    → 0 < h.quantity.value
    → h.quantity.value ≤ s.reserved.value
    → max_quantity < s.available.value + h.quantity.value
    → ((release id now s).1 ≡ some stock_overflow)
      × ((release id now s).0.holds ≡ s.holds)
      × ((release id now s).0.reserved.value + h.quantity.value ≡ s.reserved.value)
      × ¬ IsStock (release id now s).0
unfolding release resolve add sub
release_overflow id now s h v found is pos fits over = ground (arith, found)
