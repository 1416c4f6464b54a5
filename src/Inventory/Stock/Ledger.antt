-- ===== src/Inventory/Stock/Ledger.antt =====
-- The movements of a stock item as the ledger of its physical stock
-- (internal/inventory/domain/stock_item.go, `record` and its callers).
use go_marketplace_backend.Base.{
  ℕ, ◌+◌, ◌≡◌, inl, inr, List, [], ◌∷◌, ◌++◌, none, arith, Option-cases, find,
}
use go_marketplace_backend.Base.Int.{pos_part, neg_part}
use go_marketplace_backend.Base.Text.{Text}
use go_marketplace_backend.Kernel.Identifier.{Ident}
use go_marketplace_backend.Kernel.Quantity.{Quantity, add, sub}
use go_marketplace_backend.Inventory.Types.{
  HoldStatus, expired, committed, released, Movement, MovementReason, StockItem,
}
use go_marketplace_backend.Inventory.Stock.{
  has_id, due_ids, expire_all, restock, set_available, reserve, resolve, commit, release, expire,
  expire_due, restore, return_units, physical,
}
use go_marketplace_backend.Inventory.Stock.Commands.{
  StockCommand, restocks, sets, reserves, commits, releases, expires, expires_due, restores,
  returns, call,
}

-- The units that the movements bring in, and those that they take out.
abbrev pub inflow : List Movement → ℕ
inflow [] = 0
inflow (m ∷ ms) = pos_part m.delta + inflow ms

abbrev pub outflow : List Movement → ℕ
outflow [] = 0
outflow (m ∷ ms) = neg_part m.delta + outflow ms

inflow-append :
    (ms : List Movement) (m : Movement) → inflow (ms ++ m ∷ []) ≡ inflow ms + pos_part m.delta
inflow-append [] m = omega arith
inflow-append (x ∷ ms) m = omega (arith, inflow-append ms m)

outflow-append :
    (ms : List Movement) (m : Movement) → outflow (ms ++ m ∷ []) ≡ outflow ms + neg_part m.delta
outflow-append [] m = omega arith
outflow-append (x ∷ ms) m = omega (arith, outflow-append ms m)

-- The change of the physical stock is the change of the balance of the movements.
abbrev pub Balances : StockItem → StockItem → Type 0
Balances s t =
    physical t + outflow t.movements + inflow s.movements
    ≡ physical s + inflow t.movements + outflow s.movements

restock-Balances :
    (seller : Ident) (q : Quantity) (ref : Text) (now : ℕ) (s : StockItem)
    → Balances s (restock seller q ref now s).0
unfolding restock add physical
restock-Balances seller q ref now s = grind (arith, inflow-append, outflow-append)

set_available-Balances :
    (seller : Ident) (q : Quantity) (ref : Text) (now : ℕ) (s : StockItem)
    → Balances s (set_available seller q ref now s).0
unfolding set_available physical
set_available-Balances seller q ref now s = grind (arith, inflow-append, outflow-append)

reserve-Balances :
    (id order : Ident) (q : Quantity) (expires_at now : ℕ) (s : StockItem)
    → Balances s (reserve id order q expires_at now s).0
unfolding reserve add sub physical
reserve-Balances id order q expires_at now s = grind (arith, inflow-append, outflow-append)

return_units-Balances :
    (ref : Text) (q : Quantity) (now : ℕ) (s : StockItem) → Balances s (return_units ref q now s).0
unfolding return_units add physical
return_units-Balances ref q now s = grind (arith, inflow-append, outflow-append)

restore-Balances : (id : Ident) (now : ℕ) (s : StockItem) → Balances s (restore id now s).0
unfolding restore add physical
restore-Balances id now s = elim (Option-cases (find (has_id id) s.holds)) [
  | inl missing ↦ ground (arith, missing)
  | inr (h, found) ↦ grind (arith, found, inflow-append, outflow-append)
]

resolve-Balances :
    (id : Ident) (status : HoldStatus) (reason : MovementReason) (now : ℕ) (s : StockItem)
    → (resolve id status reason now s).1 ≡ none
    → Balances s (resolve id status reason now s).0
unfolding resolve add sub physical
resolve-Balances id status reason now s e = elim (Option-cases (find (has_id id) s.holds)) [
  | inl missing ↦ ground (arith, missing)
  | inr (h, found) ↦ grind (arith, found, inflow-append, outflow-append)
]

expire_all-Balances :
    (ids : List Ident) (now : ℕ) (s : StockItem)
    → (expire_all ids now s).1 ≡ none
    → Balances s (expire_all ids now s).0
unfolding expire_all expire
expire_all-Balances [] now s e = omega arith
expire_all-Balances (id ∷ ids) now s e =
    let t = resolve id expired MovementReason.release now s in
    elim (Option-cases t.1) [
      | inl fine ↦
          rw (fine, expire_all)
            (omega (
              arith,
              resolve-Balances id expired MovementReason.release now s fine,
              expire_all-Balances ids now t.0 (rw (fine, expire_all) at e),
            ))
      | inr (x, broken) ↦ cc (rw (broken, expire_all) at e)
    ]

-- A command that returns no error changes the physical stock, available and reserved together, by
-- exactly the sum of the movements that it appends.
pub call-Balances :
    (c : StockCommand) (now : ℕ) (s : StockItem)
    → (call c now s).1 ≡ none
    → Balances s (call c now s).0
unfolding call commit release expire expire_due
call-Balances (restocks seller q ref) now s e = restock-Balances seller q ref now s
call-Balances (sets seller target ref) now s e = set_available-Balances seller target ref now s
call-Balances (reserves id order q expires_at) now s e =
    reserve-Balances id order q expires_at now s
call-Balances (commits id) now s e = resolve-Balances id committed MovementReason.commit now s e
call-Balances (releases id) now s e = resolve-Balances id released MovementReason.release now s e
call-Balances (expires id) now s e = resolve-Balances id expired MovementReason.release now s e
call-Balances expires_due now s e = expire_all-Balances (due_ids now s.holds) now s (ground arith)
call-Balances (restores id) now s e = restore-Balances id now s
call-Balances (returns ref q) now s e = return_units-Balances ref q now s
