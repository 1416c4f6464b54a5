-- ===== src/Lib.antt =====
-- A model of the domain core of the marketplace backend, a set of bounded contexts in Go that share a
-- kernel of values: identifiers, money, quantities. A checkout goes through these contexts: a cart
-- collects offers; pricing quotes it under promotions and a promo code, and redeems the code;
-- ordering drafts and places an order and drives a saga; inventory holds the stock for it; payment
-- authorizes, captures and refunds; settlement accrues what the sellers have earned. Each context
-- guards an aggregate, a record that only its methods change. The contexts meet in the application
-- layer, which loads an aggregate, calls one method and saves it.
--
-- Which file models which part:
-- - The module Base: lists, options, results, signed numbers over the native naturals, texts as lists
--   of bytes.
-- - Kernel.Money, Kernel.Quantity, Kernel.Identifier: internal/shared/kernel (money.go, quantity.go,
--   id.go).
-- - Inventory.Types, Inventory.Stock: internal/inventory/domain (stock_item.go, movement.go, events.go,
--   errors.go). Under Inventory.Stock: Holds (lists of holds), Invariant, Commands (all methods as one
--   data type), Ledger (the movements), Failure, Expiry and Sweep (`ExpireDue`).
-- - Payment.Types, Payment.Refunds, Payment.Actions: internal/payment/domain (payment.go, events.go,
--   errors.go). Under Payment.Actions: Invariant, Commands, RefundRules.
-- - Ordering.Status, Ordering.Types, Ordering.Address, Ordering.Place, Ordering.Order, Ordering.Saga:
--   internal/ordering/domain (status.go, order.go, events.go, errors.go, address.go, saga.go).
--   Ordering.Draft: the draft of an order, internal/ordering/application/command/place_order.go. It calls
--   the handler of quotes and the tariffs; under it Totals follows an amount from the quote to the order.
-- - Ordering.Checkout: internal/ordering/application (ports.go and command/): the world that a handler
--   works on, the ports and the transactions of support.go. Under it Compensation (compensation.go),
--   Progress (progress.go), Prepare and Purchase (place_order.go), Orders (orders.go), Fulfilment
--   (fulfillment.go), Actors (who may act; internal/identity/api/rbac.go). For proofs: Agreement and
--   Pairs (an order beside its saga), Stores (the store), Rules and Transactions (what a handler keeps),
--   Undo and Runs (the compensator), Rounds and Loop (its loop), Closing (how it ends), Success and Completion
--   (where the calls of the other contexts succeed), Stages and Safety (the progress), Sellers, Buyers,
--   History (all handlers as one data type of requests).
-- - Pricing.Types, Pricing.Promo, Pricing.Rules, Pricing.Calculator, Pricing.Promotion, Pricing.Offer:
--   internal/pricing/domain (promo_code.go, discount_rule.go, calculator.go, promotion.go,
--   offer_price.go, events.go, errors.go). Under Pricing.Promo: Limits (all methods as one data type),
--   Redeem. Under Pricing.Calculator: Lines (one line), Shares (the distribution of a promo code),
--   Remainder (where it fails), Totals. Under Pricing.Promotion: Life; under Pricing.Offer: Invariant,
--   each with all methods as one data type. Pricing.Quotes: the handler of quotes,
--   internal/pricing/application/query/quote.go.
-- - Shipping: internal/shipping/api/contract.go and internal/shipping/infrastructure/flat/tariffs.go.
-- - Settlement: internal/settlement/domain/entry.go, internal/settlement/application/command/accrue.go and
--   internal/settlement/infrastructure/memory/store.go; under it Ledger and Again (a second accrual).
-- - Platform.Breaker: internal/shared/platform/breaker/breaker.go; under it History (sequences of steps).
-- - Cart, Cart.Types, Cart.Owners: internal/cart/domain (cart.go, owner.go, errors.go). Under Cart: Items
--   (lists of items), Writes and Absorb (the methods), Currency (a merge into an emptied cart),
--   Life (all methods as one data type), Overflow.
--
-- How code becomes a definition:
-- - A struct is a record, a group of string constants a data type, a slice a list. Names are those of
--   the source, in snake case: `Restock` is `restock`, `CompensationFailed` is `fail_compensation`.
-- - A method takes the aggregate last and gives it back with the error that it returns, `none` for
--   `nil`: an `Outcome`. What it has written before it fails is in what it gives back. A function that
--   makes an aggregate gives a `Result`.
-- - The quantities of a cart are `int`s: their sum is computed modulo 2^64, with its sign.
-- - The events and the movements that an aggregate collects are lists in its record.
-- - An `int64` amount is a 64-bit pattern: sums and products are taken modulo 2^64. Every constructor
--   of `Money` gives 0 to 2^63 - 1, so that no pattern stands for a negative amount. A quantity is 0 to
--   2^31 - 1. The argument of `NewMoney` and of `NewQuantity` and the quantity of an item are signed.
-- - A time is a number of nanoseconds, 0 for the zero time.
-- - A panic of a `Must` function is the error `panics`. The details of errors are left out, since errors
--   are compared by kind and code.
-- - `strings.ToUpper` is an argument of the functions that call it, `to_upper`: its Unicode tables are not
--   in the repository.
-- - A handler of a checkout is a function on the world: the stored orders and sagas, and the outside, which
--   the calls of the other contexts read and change, the clock with it. Its error is a list of faults, so
--   that `errors.Join` appends. Handlers run one after another, and a transaction fails only by its
--   closure.
-- - The mutex of the circuit breaker makes each of its two steps one transition; concurrent calls are
--   sequences of such steps.
-- - What a handler reads through its ports (repositories, other contexts' data) is a record of functions
--   that may fail; the field-by-field conversions between the contracts of two contexts are left out.
--
-- Loops are recursion on lists. The one loop without a bound in the source, of the compensator, runs on
-- fuel: a round more than the pending steps, of which there are four at most. The handlers give it five
-- rounds. Ordering.Checkout.Loop has the same loop without fuel, as an inductive relation.
--
-- Not modelled: accessors, printing, snapshots for the database, the generation of identifiers; HTTP,
-- PostgreSQL and the clients of providers; logs and metrics; conflicts of concurrent writers of one order
-- or saga; the application handlers of inventory, payment, pricing (besides the quotes) and cart; and the
-- contexts of catalog, identity (besides roles), seller and search.
pub mod Base
pub mod Kernel
pub mod Inventory
pub mod Payment
pub mod Ordering
pub mod Pricing
pub mod Cart
pub mod Shipping
pub mod Platform
pub mod Settlement
