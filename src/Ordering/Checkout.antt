-- ===== src/Ordering/Checkout.antt =====
-- What the handlers of ordering share (internal/ordering/application: ports.go, command/support.go). A
-- handler is a function on the world: the store of orders and sagas, and the outside, which the calls
-- of the other contexts read and change. A Go error is a list of faults, the empty list for `nil`:
-- `errors.Join` appends and `errors.Is` searches. A transaction that returns an error leaves the store
-- as it was; loading and saving fail for no other reason. The clock and the generator of references
-- read the outside.
pub mod Compensation
pub mod Progress
pub mod Actors
pub mod Fulfilment
pub mod Prepare
pub mod Purchase
pub mod Orders
pub mod Agreement
pub mod Pairs
pub mod Stores
pub mod Rules
pub mod Transactions
pub mod Undo
pub mod Runs
pub mod Stages
pub mod Safety
pub mod Sellers
pub mod Buyers
pub mod Loop
pub mod Closing
pub mod Success
pub mod Completion
pub mod Rounds
pub mod History
mod Tests
use go_marketplace_backend.Base.{
  ℕ, Bool, true, false, List, [], ◌∷◌, ◌++◌, ◌==◌, if◌then◌else◌, Option, none, some, Result, ok,
  err, Outcome, any,
}
use go_marketplace_backend.Base.Int.{ℤ}
use go_marketplace_backend.Base.Text.{Text, text_eq}
use go_marketplace_backend.Kernel.Identifier.{Ident}
use go_marketplace_backend.Kernel.Error.{KernelError}
use go_marketplace_backend.Payment.Types.{Status}
use go_marketplace_backend.Ordering.Types.{OrderError, Order}
use go_marketplace_backend.Ordering.Saga.{CheckoutSaga}
use go_marketplace_backend.Ordering.Draft.{DraftError, ReserveLine}

-- `refused` stands for another error whose kind is not internal, `internal` for one whose kind is.
pub data Fault : Type 0 where
  order_not_found saga_not_found payment_not_found invalid_transition : Fault
  reservation_not_found reservation_resolved reservation_expired : Fault
  reservation_not_committed unknown_step not_expired retry_not_allowed : Fault
  payment_unavailable total_changed unauthenticated forbidden out_of_rounds : Fault
  from_order : OrderError → Fault
  from_draft : DraftError → Fault
  refused internal : ℕ → Fault

abbrev pub Fails : Type 0
Fails = List Fault

pub record CreateRequest : Type 0 where
  pub payment_id : Text
  pub order_id : Ident
  pub buyer_id : Ident
  pub amount : ℕ
  pub currency : Text
  pub return_url : Text
  pub save_method : Bool
  pub method_id : Text

pub record PaymentInfo : Type 0 where
  pub payment_id : Text
  pub status : Status
  pub redirect_url : Text

pub record Policy : Type 0 where
  pub payment_timeout : ℕ
  pub compensation_attempts : ℕ
  pub return_window : ℕ

-- The ports. `expires_at` is what a reservation gives back, 0 for no time.
pub record Dependencies (W : Type 0) : Type 0 where
  pub policy : Policy
  pub now : W → ℕ
  pub reference : W → Text
  pub return_url : Ident → Text
  pub render : Fails → Text
  pub reserve : Text → Ident → List ReserveLine → W → Result Fails ℕ × W
  pub commit : Text → W → Result Fails (Unit {0}) × W
  pub release : Text → W → Result Fails (Unit {0}) × W
  pub restore : Text → W → Result Fails (Unit {0}) × W
  pub redeem_code : Text → Ident → Ident → ℤ → Text → W → Result Fails (Unit {0}) × W
  pub release_code : Text → Ident → W → Result Fails (Unit {0}) × W
  pub create : CreateRequest → W → Result Fails PaymentInfo × W
  pub capture : Text → ℕ → W → Result Fails (Unit {0}) × W
  pub cancel_payment : Text → Text → W → Result Fails (Unit {0}) × W
  pub refund : Text → Text → ℕ → Text → W → Result Fails (Unit {0}) × W
  pub info : Text → W → Result Fails PaymentInfo × W
  pub remove_ordered : Ident → List Text → W → Result Fails (Unit {0}) × W
  pub is_member : Ident → Text → W → Result Fails Bool × W

pub record Store : Type 0 where
  pub orders : Ident → Option Order
  pub sagas : Ident → Option CheckoutSaga

pub record World (W : Type 0) : Type 0 where
  pub store : Store
  pub outside : W

abbrev pub M : Type 0 → Type 0 → Type 0
M W A = World W → Result Fails A × World W

module _ {W : Type 0} where
  unfoldable pub pure : {A : Type 0} → A → M W A
  pure a w = (ok a, w)

  unfoldable pub fail : {A : Type 0} → Fails → M W A
  fail e w = (err e, w)

  infixl 5 ◌>>=◌ ◌>>◌
  unfoldable pub ◌>>=◌ : {A B : Type 0} → M W A → (A → M W B) → M W B
  ◌>>=◌ m next w = let (r, v) = m w in elim r [ ok a ↦ next a v | err e ↦ (err e, v) ]

  unfoldable pub ◌>>◌ : {B : Type 0} → M W (Unit {0}) → M W B → M W B
  unfolding ◌>>=◌
  m >> next = m >>= λ _. next

  -- A call whose error the caller looks at.
  unfoldable pub attempt : {A : Type 0} → M W A → M W (Result Fails A)
  attempt m w = let (r, v) = m w in (ok r, v)

  abbrev pub done : M W (Unit {0})
  done = pure tt

  -- A call of another context.
  unfoldable pub call : {A : Type 0} → (W → Result Fails A × W) → M W A
  call port w = let (r, o) = port w.outside in (r, record w { outside = o })

  unfoldable pub read : {A : Type 0} → (W → A) → M W A
  read f w = (ok (f w.outside), w)

-- `errors.Is`
abbrev pub is_fault : (Fault → Bool) → Fails → Bool
is_fault p e = any p e

abbrev pub wrap : {A : Type 0} → Outcome A OrderError → Result Fails A
wrap (a, none) = ok a
wrap (a, some e) = err (from_order e ∷ [])

-- A closure that assigns nothing besides.
abbrev pub saved : Result Fails CheckoutSaga → Result Fails (Unit {0} × CheckoutSaga)
saved (ok s) = ok (tt, s)
saved (err e) = err e

abbrev pub error_of : {A : Type 0} → Result Fails A → Fails
error_of (ok _) = []
error_of (err e) = e

-- The error that a handler returns for a joined one.
abbrev pub joined : {W A : Type 0} → A → Fails → M W A
joined a [] = pure a
joined a (e ∷ es) = fail (e ∷ es)

abbrev pub put_saga : CheckoutSaga → Store → Store
put_saga s st = record st { sagas = λ id. if text_eq s.order_id id then some s else st.sagas id }

abbrev pub put_order : Order → Store → Store
put_order o st = record st { orders = λ id. if text_eq o.id id then some o else st.orders id }

module _ {W : Type 0} where
  unfoldable pub load_saga : Ident → M W CheckoutSaga
  load_saga id w = elim (w.store.sagas id) [
    | none ↦ (err (saga_not_found ∷ []), w)
    | some s ↦ (ok s, w)
  ]

  unfoldable pub load_order : Ident → M W Order
  load_order id w = elim (w.store.orders id) [
    | none ↦ (err (order_not_found ∷ []), w)
    | some o ↦ (ok o, w)
  ]

  unfoldable pub save_saga : CheckoutSaga → M W (Unit {0})
  save_saga s w = (ok tt, record w { store = put_saga s w.store })

  unfoldable pub save_order : Order → M W (Unit {0})
  save_order o w = (ok tt, record w { store = put_order o w.store })

  unfoldable pub lift : {A : Type 0} → Result Fails A → M W A
  unfolding pure fail
  lift (ok a) = pure a
  lift (err e) = fail e

  -- `if err != nil { … }` after a parse.
  abbrev pub with_id : {A : Type 0} → Result KernelError Ident → M W A → (Ident → M W A) → M W A
  with_id (err _) failed next = failed
  with_id (ok id) failed next = next id

  -- `change` gives the saga that is saved, and what its closure assigns besides.
  unfoldable pub mutate_saga :
      {A : Type 0} → Ident → (CheckoutSaga → Result Fails (A × CheckoutSaga)) → M W A
  unfolding load_saga save_saga ◌>>=◌ ◌>>◌ lift pure
  mutate_saga id change = do found ← load_saga id; (a, s) ← lift (change found); save_saga s; pure a

  unfoldable pub mutate_both :
      Ident → (Order → CheckoutSaga → Result Fails (Order × CheckoutSaga)) → M W (Unit {0})
  unfolding load_order load_saga save_order save_saga ◌>>=◌ ◌>>◌ lift pure
  mutate_both id change = do
    order ← load_order id
    saga ← load_saga id
    (o, s) ← lift (change order saga)
    save_order o
    save_saga s

  unfoldable pub mutate_order : Ident → (Order → Result Fails Order) → M W (Unit {0})
  unfolding load_order save_order ◌>>=◌ ◌>>◌ lift pure
  mutate_order id change = do order ← load_order id; o ← lift (change order); save_order o

  -- A loop over identifiers that collects the errors.
  unfoldable pub for_each : (Ident → M W Fails) → List Ident → M W Fails
  for_each body [] = pure []
  for_each body (id ∷ ids) = do e ← body id; rest ← for_each body ids; pure (e ++ rest)
