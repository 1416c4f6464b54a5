-- ===== src/Payment/Refunds.antt =====
-- The list of refunds of a payment (internal/payment/domain/payment.go).
use go_marketplace_backend.Base.{
  ℕ, ◌+◌, ◌≤◌, ◌≡◌, Bool, true, false, List, [], ◌∷◌, ◌++◌, some, Result, ok, err, find,
  update_first, arith, All, All-append,
}
use go_marketplace_backend.Base.Text.{Text, text_eq, text_eq_iff}
use go_marketplace_backend.Kernel.Identifier.{Ident}
use go_marketplace_backend.Kernel.Money.{Money, add, max_int64}
use go_marketplace_backend.Kernel.Money.Laws.{IsMoney, add_cases}
use go_marketplace_backend.Payment.Types.{
  Refund, RefundStatus, refund_pending, refund_succeeded, refund_failed, PaymentError,
  currency_mismatch,
}

abbrev pub has_refund_id : Ident → Refund → Bool
has_refund_id id r = text_eq r.id id

abbrev pub is_failed : RefundStatus → Bool
is_failed refund_failed = true
is_failed _ = false

abbrev pub is_pending : RefundStatus → Bool
is_pending refund_pending = true
is_pending _ = false

-- The loop of `outstandingRefunds`.
unfoldable pub outstanding_from : Money → List Refund → Result PaymentError Money
outstanding_from total [] = ok total
outstanding_from total (r ∷ rs) = elim (is_failed r.status) [
  | true ↦ outstanding_from total rs
  | false ↦ elim (add total r.amount) [
    | err _ ↦ err currency_mismatch
    | ok next ↦ outstanding_from next rs
  ]
]

-- What the refunds that have not failed, and those that have succeeded, sum to.
abbrev pub outstanding_total : List Refund → ℕ
outstanding_total [] = 0
outstanding_total (r ∷ rs) =
    elim r.status [ refund_failed ↦ 0 | _ ↦ r.amount.amount ] + outstanding_total rs

abbrev pub succeeded_total : List Refund → ℕ
succeeded_total [] = 0
succeeded_total (r ∷ rs) =
    elim r.status [ refund_succeeded ↦ r.amount.amount | _ ↦ 0 ] + succeeded_total rs

abbrev pub SameCurrency : Text → List Refund → Type 0
SameCurrency c rs = All (λ r. r.amount.currency ≡ c) rs

-- What the loop returns is its start and the outstanding refunds together.
pub outstanding_from-exact :
    (t : Money) (rs : List Refund) {r : Money}
    → IsMoney t
    → outstanding_from t rs ≡ ok r
    → (r.amount ≡ t.amount + outstanding_total rs) × (r.currency ≡ t.currency) × IsMoney r
unfolding outstanding_from
outstanding_from-exact t [] v e = ground arith
outstanding_from-exact t (x ∷ rs) {r} v e = ground (
  arith,
  add_cases t x.amount v,
  outstanding_from-exact t rs {r = r} v,
  outstanding_from-exact (record { amount = t.amount + x.amount.amount; currency = t.currency }) rs
      {r = r},
)

pub outstanding_total-append :
    (rs : List Refund) (x : Refund)
    → is_pending x.status ≡ true
    → (outstanding_total (rs ++ x ∷ []) ≡ outstanding_total rs + x.amount.amount)
      × (succeeded_total (rs ++ x ∷ []) ≡ succeeded_total rs)
outstanding_total-append [] x h = ground arith
outstanding_total-append (y ∷ rs) x h = ground (arith, outstanding_total-append rs x h)

pub SameCurrency-append :
    (c : Text) (rs : List Refund) (x : Refund)
    → SameCurrency c rs
    → x.amount.currency ≡ c
    → SameCurrency c (rs ++ x ∷ [])
SameCurrency-append c rs x h e = All-append (λ r. r.amount.currency ≡ c) rs (x ∷ []) h (e, tt)

pub succeeded-le-outstanding : (rs : List Refund) → succeeded_total rs ≤ outstanding_total rs
succeeded-le-outstanding [] = omega arith
succeeded-le-outstanding (r ∷ rs) = ground (arith, succeeded-le-outstanding rs)

-- What settles a refund and leaves its amount alone.
abbrev pub KeepsAmount : (Refund → Refund) → Type 0
KeepsAmount f = (r : Refund) → (f r).amount ≡ r.amount

pub SameCurrency-update :
    (c : Text) (id : Ident) (f : Refund → Refund) (rs : List Refund)
    → KeepsAmount f
    → SameCurrency c rs
    → SameCurrency c (update_first (has_refund_id id) f rs)
SameCurrency-update c id f [] keep h = tt
SameCurrency-update c id f (r ∷ rs) keep h =
    ground (arith, keep r, SameCurrency-update c id f rs keep h.1)

-- A pending refund that succeeds stays outstanding.
pub totals-update_succeeded :
    (id : Ident) (f : Refund → Refund) (rs : List Refund) (r : Refund)
    → KeepsAmount f
    → ((x : Refund) → (f x).status ≡ refund_succeeded)
    → find (has_refund_id id) rs ≡ some r
    → r.status ≡ refund_pending
    → (outstanding_total (update_first (has_refund_id id) f rs) ≡ outstanding_total rs)
      × (succeeded_total (update_first (has_refund_id id) f rs)
          ≡ succeeded_total rs + r.amount.amount)
      × (succeeded_total rs + r.amount.amount ≤ outstanding_total rs)
totals-update_succeeded id f [] r keep to found is = cc
totals-update_succeeded id f (x ∷ rs) r keep to found is =
    ground
      (arith, keep x, to x, succeeded-le-outstanding rs, totals-update_succeeded id f rs r keep to)

-- A pending refund that fails is outstanding no more.
pub totals-update_failed :
    (id : Ident) (f : Refund → Refund) (rs : List Refund) (r : Refund)
    → ((x : Refund) → (f x).status ≡ refund_failed)
    → find (has_refund_id id) rs ≡ some r
    → r.status ≡ refund_pending
    → (outstanding_total (update_first (has_refund_id id) f rs) + r.amount.amount
        ≡ outstanding_total rs)
      × (succeeded_total (update_first (has_refund_id id) f rs) ≡ succeeded_total rs)
totals-update_failed id f [] r to found is = cc
totals-update_failed id f (x ∷ rs) r to found is =
    ground (arith, to x, totals-update_failed id f rs r to)

-- The loop succeeds where the currencies agree and the sum fits.
pub outstanding_from-total :
    (t : Money) (rs : List Refund)
    → SameCurrency t.currency rs
    → t.amount + outstanding_total rs ≤ max_int64
    → outstanding_from t rs
      ≡ ok (record { amount = t.amount + outstanding_total rs; currency = t.currency })
unfolding outstanding_from add
outstanding_from-total t [] c h = ground arith
outstanding_from-total t (x ∷ rs) c h = ground (
  arith,
  text_eq_iff t.currency x.amount.currency,
  outstanding_from-total t rs c.1,
  outstanding_from-total (record { amount = t.amount + x.amount.amount; currency = t.currency }) rs
      c.1,
)
