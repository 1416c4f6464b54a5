-- ===== src/Inventory/Stock/Commands.antt =====
-- The methods of the stock aggregate (internal/inventory/domain/stock_item.go) as one data type of
-- commands, and the invariant under them.
use go_marketplace_backend.Base.{
  ℕ, ◌≡◌, refl, inl, inr, List, [], ◌∷◌, none, some, ok, err, Result, Outcome, arith, Option,
  Option-cases,
}
use go_marketplace_backend.Base.Text.{Text}
use go_marketplace_backend.Kernel.Identifier.{Ident}
use go_marketplace_backend.Kernel.Quantity.{Quantity}
use go_marketplace_backend.Kernel.Quantity.Laws.{IsQuantity}
use go_marketplace_backend.Inventory.Types.{
  committed, released, expired, MovementReason, StockError, StockItem,
}
use go_marketplace_backend.Inventory.Stock.{
  due_ids, expire_all, restock, set_available, reserve, resolve, commit, release, expire,
  expire_due, restore, return_units,
}
use go_marketplace_backend.Inventory.Stock.Invariant.{
  IsStock, restock-IsStock, set_available-IsStock, reserve-IsStock, resolve-IsStock,
  restore-IsStock, return_units-IsStock,
}

pub data StockCommand : Type 0 where
  restocks : (seller : Ident) (q : Quantity) (ref : Text) → StockCommand
  sets : (seller : Ident) (target : Quantity) (ref : Text) → StockCommand
  reserves : (id order : Ident) (q : Quantity) (expires_at : ℕ) → StockCommand
  commits : (id : Ident) → StockCommand
  releases : (id : Ident) → StockCommand
  expires : (id : Ident) → StockCommand
  expires_due : StockCommand
  restores : (id : Ident) → StockCommand
  returns : (ref : Text) (q : Quantity) → StockCommand

abbrev pub error_of : {A : Type 0} → Result StockError A → Option StockError
error_of (ok _) = none
error_of (err e) = some e

unfoldable pub call : StockCommand → ℕ → StockItem → Outcome StockItem StockError
call (restocks seller q ref) now s = restock seller q ref now s
call (sets seller target ref) now s = set_available seller target ref now s
call (reserves id order q expires_at) now s = reserve id order q expires_at now s
call (commits id) now s = commit id now s
call (releases id) now s = release id now s
call (expires id) now s = expire id now s
call expires_due now s = let (t, r) = expire_due now s in (t, error_of r)
call (restores id) now s = restore id now s
call (returns ref q) now s = return_units ref q now s

-- A quantity that a command carries was made by `NewQuantity`.
abbrev pub CarriesQuantity : StockCommand → Type 0
CarriesQuantity (sets seller target ref) = IsQuantity target
CarriesQuantity (restocks seller q ref) = IsQuantity q
CarriesQuantity (reserves id order q expires_at) = IsQuantity q
CarriesQuantity (returns ref q) = IsQuantity q
CarriesQuantity _ = Unit

expire_all-IsStock :
    (ids : List Ident) (now : ℕ) (s : StockItem)
    → IsStock s
    → (expire_all ids now s).1 ≡ none
    → IsStock (expire_all ids now s).0
unfolding expire_all expire
expire_all-IsStock [] now s v e = v
expire_all-IsStock (id ∷ ids) now s v e =
    elim (Option-cases (resolve id expired MovementReason.release now s).1) [
      | inl fine ↦
          rw (fine, expire_all)
            (expire_all-IsStock ids now (resolve id expired MovementReason.release now s).0
              (resolve-IsStock id expired MovementReason.release now s refl v fine)
              (rw (fine, expire_all) at e))
      | inr (x, broken) ↦ cc (rw (broken, expire_all) at e)
    ]

-- Every command that carries a quantity in range and returns no error keeps a consistent item
-- consistent: both quantities in range, the
-- reserved one equal to the units of the holds that are held, no reservation listed twice.
pub call-IsStock :
    (c : StockCommand) (now : ℕ) (s : StockItem)
    → CarriesQuantity c
    → IsStock s
    → (call c now s).1 ≡ none
    → IsStock (call c now s).0
unfolding call commit release expire expire_due
call-IsStock (restocks seller q ref) now s b v e = restock-IsStock seller q ref now s v
call-IsStock (sets seller target ref) now s b v e =
    set_available-IsStock seller target ref now s b v
call-IsStock (reserves id order q expires_at) now s b v e =
    reserve-IsStock id order q expires_at now s v
call-IsStock (commits id) now s b v e =
    resolve-IsStock id committed MovementReason.commit now s refl v e
call-IsStock (releases id) now s b v e =
    resolve-IsStock id released MovementReason.release now s refl v e
call-IsStock (expires id) now s b v e =
    resolve-IsStock id expired MovementReason.release now s refl v e
call-IsStock expires_due now s b v e =
    expire_all-IsStock (due_ids now s.holds) now s v (ground arith)
call-IsStock (restores id) now s b v e = restore-IsStock id now s v
call-IsStock (returns ref q) now s b v e = return_units-IsStock ref q now s v
