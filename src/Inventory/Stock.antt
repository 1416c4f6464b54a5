-- ===== src/Inventory/Stock.antt =====
-- The stock aggregate (internal/inventory/domain/stock_item.go), method by method. A method gives the
-- item that it leaves behind, also when it returns an error.
pub mod Holds
pub mod Invariant
pub mod Commands
pub mod Ledger
pub mod Failure
pub mod Expiry
pub mod Sweep
use go_marketplace_backend.Base.{
  ℕ, suc, ◌+◌, ◌-◌, Bool, true, false, ◌&&◌, not, List, [], ◌∷◌, ◌++◌, ltb, leb, ◌==◌,
  if◌then◌else◌, Option, none, some, Result, ok, err, Outcome, find, update_first,
}
use go_marketplace_backend.Base.Int.{ℤ, pos, sub_ℕ}
use go_marketplace_backend.Base.Text.{Text, is_empty, text_eq}
use go_marketplace_backend.Kernel.Identifier.{Ident, id_is_zero}
use go_marketplace_backend.Kernel.Quantity.{Quantity, is_zero, add, sub}
use go_marketplace_backend.Inventory.Types.{
  HoldStatus, held, committed, released, expired, restored, same_status, Hold, MovementReason,
  Movement, StockEvent, StockError, StockItem, stock_changed, stock_reserved, reservation_resolved,
  invalid_id, invalid_quantity, invalid_reference, invalid_ttl, reservation_not_found,
  not_stock_owner, insufficient_stock, already_resolved, reservation_not_committed, stock_overflow,
}

abbrev pub zero_quantity : Quantity
zero_quantity = record { value = 0 }

abbrev pub is_held : Hold → Bool
is_held h = same_status h.status held

abbrev pub has_id : Ident → Hold → Bool
has_id id h = text_eq h.reservation_id id

unfoldable pub open_stock : Text → Ident → ℕ → Result StockError StockItem
open_stock sku seller now =
    if is_empty sku
    then err invalid_id
    else if id_is_zero seller
    then err invalid_id
    else ok (record {
      sku = sku;
      seller_id = seller;
      available = zero_quantity;
      reserved = zero_quantity;
      holds = [];
      movements = [];
      created_at = now;
      updated_at = now;
      version = 0;
      events = stock_changed sku seller 0 0 MovementReason.correction now ∷ [];
    })

-- `record`
abbrev pub log : MovementReason → Text → ℤ → ℕ → StockItem → StockItem
log reason reference delta now s = record s {
  updated_at = now;
  movements =
      s.movements
      ++ record {
        sku = s.sku;
        delta = delta;
        reason = reason;
        reference_id = reference;
        occurred_at = now;
      }
        ∷ [];
  events =
      s.events
      ++ stock_changed s.sku s.seller_id s.available.value s.reserved.value reason now ∷ [];
}

abbrev pub emit : StockEvent → StockItem → StockItem
emit e s = record s { events = s.events ++ e ∷ [] }

unfoldable pub restock : Ident → Quantity → Text → ℕ → StockItem → Outcome StockItem StockError
restock seller quantity reference now s =
    if not (text_eq seller s.seller_id)
    then (s, some not_stock_owner)
    else if is_zero quantity
    then (s, some invalid_quantity)
    else if is_empty reference
    then (s, some invalid_reference)
    else elim (add s.available quantity) [
      | err _ ↦ (s, some stock_overflow)
      | ok next ↦ (
        log MovementReason.restock reference (pos quantity.value) now
            (record s { available = next }),
        none,
      )
    ]

unfoldable pub set_available :
    Ident → Quantity → Text → ℕ → StockItem → Outcome StockItem StockError
set_available seller target reference now s =
    if not (text_eq seller s.seller_id)
    then (s, some not_stock_owner)
    else if is_empty reference
    then (s, some invalid_reference)
    else if target.value == s.available.value
    then (s, none)
    else (
      log MovementReason.correction reference (sub_ℕ target.value s.available.value) now
          (record s { available = target }),
      none,
    )

unfoldable pub reserve : Ident → Ident → Quantity → ℕ → ℕ → StockItem → Outcome StockItem StockError
reserve id order quantity expires_at now s =
    if id_is_zero id
    then (s, some invalid_id)
    else if is_zero quantity
    then (s, some invalid_quantity)
    else if not (ltb now expires_at)
    then (s, some invalid_ttl)
    else elim (find (has_id id) s.holds) [
      | some hold ↦ (s, if is_held hold then none else some already_resolved)
      | none ↦ elim (sub s.available quantity) [
        | err _ ↦ (s, some insufficient_stock)
        | ok available ↦ elim (add s.reserved quantity) [
          | err _ ↦ (s, some stock_overflow)
          | ok reserved ↦ (
            emit (stock_reserved s.sku s.seller_id id order quantity.value expires_at now) (
                log MovementReason.reserve id (pos 0) now (record s {
                  available = available;
                  reserved = reserved;
                  holds =
                      s.holds
                      ++ record {
                        reservation_id = id;
                        order_id = order;
                        quantity = quantity;
                        status = held;
                        expires_at = expires_at;
                        created_at = now;
                        resolved_at = 0;
                      }
                        ∷ [];
                })),
            none,
          )
        ]
      ]
    ]

-- The writes through `hold`, with the movement and the event that follow them.
abbrev pub settle : Ident → Hold → HoldStatus → MovementReason → ℤ → ℕ → StockItem → StockItem
settle id hold status reason delta now s =
    emit (reservation_resolved s.sku s.seller_id id hold.order_id hold.quantity.value status now) (
      log reason id delta now (record s {
        holds =
            update_first (has_id id) (λ h. record h { status = status; resolved_at = now }) s.holds;
      }))

-- An overflow of `available` is found when `reserved` is already lowered.
unfoldable pub resolve :
    Ident → HoldStatus → MovementReason → ℕ → StockItem → Outcome StockItem StockError
resolve id status reason now s = elim (find (has_id id) s.holds) [
  | none ↦ (s, some reservation_not_found)
  | some hold ↦
      if same_status hold.status status
      then (s, none)
      else if not (is_held hold)
      then (s, some already_resolved)
      else elim (sub s.reserved hold.quantity) [
        | err _ ↦ (s, some insufficient_stock)
        | ok reserved ↦
            let t = record s { reserved = reserved } in
            if same_status status committed
            then (settle id hold status reason (sub_ℕ 0 hold.quantity.value) now t, none)
            else elim (add s.available hold.quantity) [
              | err _ ↦ (t, some stock_overflow)
              | ok available ↦ (
                settle id hold status reason (pos 0) now (record t { available = available }),
                none,
              )
            ]
      ]
]

unfoldable pub commit : Ident → ℕ → StockItem → Outcome StockItem StockError
commit id now s = resolve id committed MovementReason.commit now s

unfoldable pub release : Ident → ℕ → StockItem → Outcome StockItem StockError
release id now s = resolve id released MovementReason.release now s

unfoldable pub expire : Ident → ℕ → StockItem → Outcome StockItem StockError
expire id now s = resolve id expired MovementReason.release now s

unfoldable pub restore : Ident → ℕ → StockItem → Outcome StockItem StockError
restore id now s = elim (find (has_id id) s.holds) [
  | none ↦ (s, some reservation_not_found)
  | some hold ↦
      if same_status hold.status restored
      then (s, none)
      else if not (same_status hold.status committed)
      then (s, some reservation_not_committed)
      else elim (add s.available hold.quantity) [
        | err _ ↦ (s, some stock_overflow)
        | ok available ↦ (
          settle id hold restored MovementReason.return (pos hold.quantity.value) now
              (record s { available = available }),
          none,
        )
      ]
]

abbrev pub is_due : ℕ → Hold → Bool
is_due now h = is_held h && not (ltb now h.expires_at)

-- The first loop of `ExpireDue`.
unfoldable pub due_ids : ℕ → List Hold → List Ident
due_ids now [] = []
due_ids now (h ∷ hs) =
    let rest = due_ids now hs in if is_due now h then h.reservation_id ∷ rest else rest

-- The second loop, which stops at the first error.
unfoldable pub expire_all : List Ident → ℕ → StockItem → Outcome StockItem StockError
expire_all [] now s = (s, none)
expire_all (id ∷ ids) now s =
    let (t, e) = expire id now s in elim e [ some x ↦ (t, some x) | none ↦ expire_all ids now t ]

unfoldable pub expire_due : ℕ → StockItem → StockItem × Result StockError (List Ident)
unfolding due_ids expire_all
expire_due now s =
    let ids = due_ids now s.holds in
    let (t, e) = expire_all ids now s in (t, elim e [ some x ↦ err x | none ↦ ok ids ])

unfoldable pub return_units : Text → Quantity → ℕ → StockItem → Outcome StockItem StockError
return_units reference quantity now s =
    if is_zero quantity
    then (s, some invalid_quantity)
    else if is_empty reference
    then (s, some invalid_reference)
    else elim (add s.available quantity) [
      | err _ ↦ (s, some stock_overflow)
      | ok next ↦ (
        log MovementReason.return reference (pos quantity.value) now
            (record s { available = next }),
        none,
      )
    ]

unfoldable pub physical : StockItem → ℕ
physical s = s.available.value + s.reserved.value
