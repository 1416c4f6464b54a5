-- ===== src/Payment/Types.antt =====
-- The data of the payment domain: statuses, refunds, events, errors and the payment aggregate
-- (internal/payment/domain: payment.go, events.go, errors.go). A time is a number of nanoseconds, 0
-- for the zero `time.Time`. Errors go without their details.
use go_marketplace_backend.Base.{ℕ, Bool, true, false, List, [], ◌∷◌, ◌||◌}
use go_marketplace_backend.Base.Text.{Text}
use go_marketplace_backend.Kernel.Identifier.{Ident}
use go_marketplace_backend.Kernel.Money.{Money}

pub data Status : Type 0 where
  created pending authorized captured failed cancelled refunded : Status

-- `==` on the strings of the statuses.
abbrev pub same_status : Status → Status → Bool
same_status created created = true
same_status pending pending = true
same_status authorized authorized = true
same_status captured captured = true
same_status failed failed = true
same_status cancelled cancelled = true
same_status refunded refunded = true
same_status _ _ = false

-- The table of transitions; a status that is no key of the map has none.
unfoldable pub transitions : Status → List Status
transitions created = pending ∷ failed ∷ cancelled ∷ []
transitions pending = authorized ∷ failed ∷ cancelled ∷ []
transitions authorized = captured ∷ cancelled ∷ []
transitions captured = refunded ∷ []
transitions _ = []

unfoldable pub is_terminal : Status → Bool
is_terminal s = same_status s failed || same_status s cancelled || same_status s refunded

pub data RefundStatus : Type 0 where
  refund_pending refund_succeeded refund_failed : RefundStatus

pub record Refund : Type 0 where
  pub id : Ident
  pub amount : Money
  pub reason : Text
  pub status : RefundStatus
  pub provider_refund_id : Text
  pub created_at : ℕ
  pub completed_at : ℕ

pub data PaymentEvent : Type 0 where
  payment_pending : (payment_id order_id : Ident) (amount : Money) (at : ℕ) → PaymentEvent
  payment_authorized : (payment_id order_id : Ident) (amount : Money) (at : ℕ) → PaymentEvent
  payment_failed : (payment_id order_id : Ident) (reason : Text) (at : ℕ) → PaymentEvent
  payment_captured : (payment_id order_id : Ident) (amount : Money) (at : ℕ) → PaymentEvent
  payment_cancelled : (payment_id order_id : Ident) (reason : Text) (at : ℕ) → PaymentEvent
  refund_requested :
      (payment_id order_id refund_id : Ident) (amount : Money) (reason : Text) (at : ℕ)
      → PaymentEvent
  refund_completed :
      (payment_id order_id refund_id : Ident) (amount total_refunded : Money) (succeeded : Bool)
      (reason : Text) (at : ℕ)
      → PaymentEvent

pub data PaymentError : Type 0 where
  invalid_id invalid_amount invalid_provider invalid_intent refund_not_found : PaymentError
  amount_mismatch capture_exceeds_hold refund_exceeds_charge : PaymentError
  payment_terminal currency_mismatch : PaymentError
  transition_error : Status → Status → PaymentError

pub record Payment : Type 0 where
  pub id : Ident
  pub order_id : Ident
  pub buyer_id : Ident
  pub provider : Text
  pub provider_payment_id : Text
  pub redirect_url : Text
  pub method_id : Ident
  pub save_method : Bool
  pub status : Status
  pub amount : Money
  pub authorized_amount : Money
  pub captured_amount : Money
  pub refunded_amount : Money
  pub refunds : List Refund
  pub failure_reason : Text
  pub created_at : ℕ
  pub updated_at : ℕ
  pub version : ℕ
  pub events : List PaymentEvent

pub record PaymentRequest : Type 0 where
  pub id : Ident
  pub order_id : Ident
  pub buyer_id : Ident
  pub provider : Text
  pub amount : Money
  pub method_id : Ident
  pub save_method : Bool
