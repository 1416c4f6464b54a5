-- ===== src/Ordering/Checkout/History.antt =====
-- The handlers of ordering (internal/ordering/application/command) as one data type of requests, which are
-- served one after another.
use go_marketplace_backend.Base.{◌≡◌, List, [], ◌∷◌, Option, none, some, Result, ok, err}
use go_marketplace_backend.Base.Text.{Text}
use go_marketplace_backend.Kernel.Identifier.{Ident}
use go_marketplace_backend.Pricing.Types.{PricingError}
use go_marketplace_backend.Pricing.Quotes.{QuoteRequest, QuoteView}
use go_marketplace_backend.Shipping.{TariffRequest, TariffQuote, ShippingError}
use go_marketplace_backend.Ordering.Types.{Order}
use go_marketplace_backend.Ordering.Saga.{CheckoutSaga}
use go_marketplace_backend.Ordering.Draft.{Ports}
use go_marketplace_backend.Ordering.Checkout.{Fails, Store, Dependencies, World, M}
use go_marketplace_backend.Ordering.Checkout.Actors.{Principal}
use go_marketplace_backend.Ordering.Checkout.Prepare.{PlaceOrder}
use go_marketplace_backend.Ordering.Checkout.Progress.{Reasons, payment_authorized, resume_stalled}
use go_marketplace_backend.Ordering.Checkout.Compensation.{expire_checkouts, run_compensations}
use go_marketplace_backend.Ordering.Checkout.Fulfilment.{
  ship_order, deliver_order, complete_delivered,
}
use go_marketplace_backend.Ordering.Checkout.Purchase.{place_order}
use go_marketplace_backend.Ordering.Checkout.Orders.{cancel_order, retry_payment, resume_saga}
use go_marketplace_backend.Ordering.Checkout.Agreement.{Agree}
use go_marketplace_backend.Ordering.Checkout.Stores.{IsConsistent, Ends, paired}
use go_marketplace_backend.Ordering.Checkout.Runs.{
  Safe, expire_checkouts-Safe, run_compensations-Safe,
}
use go_marketplace_backend.Ordering.Checkout.Safety.{payment_authorized-Safe, resume_stalled-Safe}
use go_marketplace_backend.Ordering.Checkout.Sellers.{
  ship_order-Safe, deliver_order-Safe, complete_delivered-Safe,
}
use go_marketplace_backend.Ordering.Checkout.Buyers.{
  place_order-Safe, cancel_order-Safe, retry_payment-Safe, resume_saga-Safe,
}

-- `quotes`, `tariffs` and `ports` are what the other contexts answer while an order is placed; the lists
-- are what the queries answer, in any order and with any identifiers.
pub data Request : Type 0 where
  places :
      (ports : Ports) (quotes : QuoteRequest → Result PricingError QuoteView)
      (tariffs : TariffRequest → Result ShippingError TariffQuote) (cmd : PlaceOrder)
      → Request
  authorizes : (raw payment : Text) → Request
  stalls : (ids : List Ident) → Request
  expires : (ids : List Ident) → Request
  compensates : (ids : List Ident) → Request
  cancels : (principal : Principal) (raw reason : Text) → Request
  retries : (principal : Principal) (found : Option CheckoutSaga) → Request
  resumes : (principal : Principal) (raw : Text) → Request
  ships : (principal : Principal) (raw : Text) → Request
  delivers : (principal : Principal) (raw : Text) → Request
  finishes : (ids : List Ident) → Request

abbrev pub empty : Store
empty = record { orders = λ _. none; sagas = λ _. none }

abbrev pub fresh_world : {W : Type 0} → W → World W
fresh_world outside = record { store = empty; outside = outside }

-- What a handler leaves behind, failed or not.
abbrev pub left : {W A : Type 0} → M W A → World W → World W
left m w = (m w).1

module _ {W : Type 0} (d : Dependencies W) (reasons : Reasons) (to_upper : Text → Text) where
  unfoldable pub serve : Request → World W → World W
  serve (places ports quotes tariffs cmd) w =
      left (place_order d reasons to_upper ports quotes tariffs cmd) w
  serve (authorizes raw payment) w = left (payment_authorized d reasons raw payment) w
  serve (stalls ids) w = left (resume_stalled d reasons ids) w
  serve (expires ids) w = left (expire_checkouts d reasons.timed_out ids) w
  serve (compensates ids) w = left (run_compensations d ids) w
  serve (cancels principal raw reason) w = left (cancel_order d reasons principal raw reason) w
  serve (retries principal found) w = left (retry_payment d reasons principal found) w
  serve (resumes principal raw) w = left (resume_saga d reasons principal raw) w
  serve (ships principal raw) w = left (ship_order d principal raw) w
  serve (delivers principal raw) w = left (deliver_order d principal raw) w
  serve (finishes ids) w = left (complete_delivered d ids) w

  unfoldable pub serve_all : List Request → World W → World W
  unfolding serve
  serve_all [] w = w
  serve_all (r ∷ rs) w = serve_all rs (serve r w)

  left-IsConsistent :
      {A : Type 0} (m : M W A) (w : World W)
      → Safe m
      → IsConsistent w.store
      → IsConsistent (left m w).store
  left-IsConsistent {A} m w h c = either (m w).0 (h.ends w c)
    where
      either :
          (r : Result Fails A)
          → Ends (λ _. IsConsistent) IsConsistent r (m w).1.store
          → IsConsistent (m w).1.store
      either (ok a) e = e
      either (err x) e = e

  serve-IsConsistent :
      (r : Request) (w : World W) → IsConsistent w.store → IsConsistent (serve r w).store
  unfolding serve
  serve-IsConsistent (places ports quotes tariffs cmd) w c =
      left-IsConsistent _ w (place_order-Safe d reasons to_upper ports quotes tariffs cmd) c
  serve-IsConsistent (authorizes raw payment) w c =
      left-IsConsistent _ w (payment_authorized-Safe d reasons raw payment) c
  serve-IsConsistent (stalls ids) w c = left-IsConsistent _ w (resume_stalled-Safe d reasons ids) c
  serve-IsConsistent (expires ids) w c =
      left-IsConsistent _ w (expire_checkouts-Safe d reasons.timed_out ids) c
  serve-IsConsistent (compensates ids) w c = left-IsConsistent _ w (run_compensations-Safe d ids) c
  serve-IsConsistent (cancels principal raw reason) w c =
      left-IsConsistent _ w (cancel_order-Safe d reasons principal raw reason) c
  serve-IsConsistent (retries principal found) w c =
      left-IsConsistent _ w (retry_payment-Safe d reasons principal found) c
  serve-IsConsistent (resumes principal raw) w c =
      left-IsConsistent _ w (resume_saga-Safe d reasons principal raw) c
  serve-IsConsistent (ships principal raw) w c =
      left-IsConsistent _ w (ship_order-Safe d principal raw) c
  serve-IsConsistent (delivers principal raw) w c =
      left-IsConsistent _ w (deliver_order-Safe d principal raw) c
  serve-IsConsistent (finishes ids) w c = left-IsConsistent _ w (complete_delivered-Safe d ids) c

  pub serve_all-IsConsistent :
      (rs : List Request) (w : World W) → IsConsistent w.store → IsConsistent (serve_all rs w).store
  unfolding serve_all
  serve_all-IsConsistent [] w c = c
  serve_all-IsConsistent (r ∷ rs) w c =
      serve_all-IsConsistent rs (serve r w) (serve-IsConsistent r w c)

  -- Whatever requests are served one after another on an empty store, and whatever the other contexts
  -- answer to each call: an order that is stored has a saga beside it, with its amount; while the saga
  -- runs, the order is open, and it awaits its payment from that step of the saga on; an order is paid
  -- exactly under a completed saga, whose payment has been captured; a compensation that is under way, or
  -- that is left to an operator, has the closing of the order still before it; and one that has ended
  -- leaves a cancelled or failed order.
  pub serve_all-Agree :
      (rs : List Request) (outside : W) (id : Ident) (o : Order)
      → (serve_all rs (fresh_world outside)).store.orders id ≡ some o
      → (s : CheckoutSaga) × ((serve_all rs (fresh_world outside)).store.sagas id ≡ some s)
        × Agree id o s
  serve_all-Agree rs outside id o e = paired id _ o (serve_all-IsConsistent rs _ (λ _. tt)) e
