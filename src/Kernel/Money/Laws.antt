-- ===== src/Kernel/Money/Laws.antt =====
-- The arithmetic of money (internal/shared/kernel/money.go).
use go_marketplace_backend.Base.{
  ℕ, ◌+◌, ◌*◌, ◌/◌, ◌≤◌, ◌<◌, ◌≡◌, ◌≢◌, ◌↔◌, ◌⊎◌, inl, inr, true, List, [], ◌∷◌, ok, err, arith,
  Result-cases, All, ◌>>=◌, ◌∙◌,
}
use go_marketplace_backend.Base.Int.{ℤ, pos}
use go_marketplace_backend.Base.Text.{Text, text_eq_iff}
use go_marketplace_backend.Kernel.Error.{KernelError, currency_mismatch, money_overflow}
use go_marketplace_backend.Kernel.Quantity.{Quantity}
use go_marketplace_backend.Kernel.Money.{
  Money, Sign, compare, max_int64, add, sub, mul_quantity, equals, sum_from, sum_money, zero_money,
  new_money, new_currency,
}

abbrev pub IsMoney : Money → Type 0
IsMoney m = m.amount ≤ max_int64

pub add-eq-ok :
    (m o : Money) {r : Money}
    → add m o ≡ ok r
    → IsMoney m
    → (r.amount ≡ m.amount + o.amount)
      × (r.currency ≡ m.currency)
      × (o.currency ≡ m.currency)
      × IsMoney r
unfolding add
add-eq-ok m o h v = ground (arith, text_eq_iff m.currency o.currency)

pub sub-eq-ok :
    (m o : Money) {r : Money}
    → sub m o ≡ ok r
    → (r.amount + o.amount ≡ m.amount) × (r.currency ≡ m.currency) × (o.currency ≡ m.currency)
unfolding sub
sub-eq-ok m o h = ground (arith, text_eq_iff m.currency o.currency)

pub equals_iff : (m o : Money) → (equals m o ≡ true) ↔ (m ≡ o)
unfolding equals
equals_iff m o = ground (arith, text_eq_iff m.currency o.currency)

-- Adding an amount and taking it away again gives the first amount back.
pub sub-add : (m o : Money) {r : Money} → IsMoney m → add m o ≡ ok r → sub r o ≡ ok m
unfolding add sub
sub-add m o v h = ground (arith, text_eq_iff m.currency o.currency)

-- Two amounts can be added exactly when they share a currency and the sum fits an int64.
pub add_total :
    (m o : Money)
    → IsMoney m
    → o.currency ≡ m.currency
    → m.amount + o.amount ≤ max_int64
    → add m o ≡ ok (record { amount = m.amount + o.amount; currency = m.currency })
unfolding add
add_total m o v c h = ground (arith, text_eq_iff m.currency o.currency)

le_div_iff : (a b n : ℕ) → 0 < n → (a ≤ b / n) ↔ (a * n ≤ b)
le_div_iff a b n h = (λ p. grind arith, λ p. grind arith)

product_fits : (a n : ℕ) → 0 < n → a ≤ max_int64 / n → a * n ≤ max_int64
product_fits a n h p = (le_div_iff a max_int64 n h).0 p

product_overflows : (a n : ℕ) → 0 < n → max_int64 / n < a → max_int64 < a * n
product_overflows a n h p = grind (arith, le_div_iff a max_int64 n h)

-- A product is computed exactly when it fits an int64, and is refused otherwise.
pub mul_quantity-exact :
    (m : Money) (q : Quantity)
    → ((m.amount * q.value ≤ max_int64)
        × (mul_quantity m q ≡ ok (record { amount = m.amount * q.value; currency = m.currency })))
      ⊎ ((max_int64 < m.amount * q.value) × (mul_quantity m q ≡ err money_overflow))
unfolding mul_quantity
mul_quantity-exact m q =
    ground (arith, product_fits m.amount q.value, product_overflows m.amount q.value)

abbrev pub total_of : List Money → ℕ
total_of [] = 0
total_of (v ∷ values) = v.amount + total_of values

pub new_currency-eq-ok : (c : Text) {r : Text} → new_currency c ≡ ok r → r ≡ c
unfolding new_currency
new_currency-eq-ok c h = ground arith

pub new_money-eq-ok :
    (v : ℤ) (c : Text) {m : Money} → new_money v c ≡ ok m → (v ≡ pos m.amount) × (m.currency ≡ c)
unfolding new_money
new_money-eq-ok v c e = ground (arith, new_currency-eq-ok c)

-- A new amount of money has the number and the currency that it is made from, in range.
pub zero_money-eq-ok :
    (c : Text) {r : Money} → zero_money c ≡ ok r → (r.amount ≡ 0) × (r.currency ≡ c)
unfolding zero_money new_money
zero_money-eq-ok c h = ground (arith, new_currency-eq-ok c)

sum_from-eq-ok :
    (c : Text) (t : Money) (values : List Money) {r : Money}
    → IsMoney t
    → t.currency ≡ c
    → sum_from t values ≡ ok r
    → (r.amount ≡ t.amount + total_of values)
      × (r.currency ≡ c)
      × All (λ v. v.currency ≡ c) values
      × IsMoney r
unfolding sum_from
sum_from-eq-ok c t [] v k h = ground arith
sum_from-eq-ok c t (m ∷ values) v k h = elim (Result-cases (add t m)) [
  | inl (n, e) ↦
      let (sum, same, other, fits) = add-eq-ok t m e v in
      let (amount, currency, all, bound) =
        sum_from-eq-ok c n values fits (same ∙ k) (rw (e, ◌>>=◌) at h) in
      (omega arith, currency, (other ∙ k, all), bound)
  | inr (x, e) ↦ cc (rw (e, ◌>>=◌) at h)
]

-- A sum of amounts that succeeds is the exact total within an int64, and every amount and the sum are in
-- the given currency.
pub sum_money-exact :
    (c : Text) (values : List Money) {r : Money}
    → sum_money c values ≡ ok r
    → (r.amount ≡ total_of values) × (r.currency ≡ c) × All (λ v. v.currency ≡ c) values × IsMoney r
unfolding sum_money
sum_money-exact c values h = elim (Result-cases (zero_money c)) [
  | inl (z, e) ↦
      let (zero_amount, same) = zero_money-eq-ok c e in
      let (amount, currency, all, bound) =
        sum_from-eq-ok c z values (omega arith) same (rw (e, ◌>>=◌) at h) in
      (omega arith, currency, all, bound)
  | inr (x, e) ↦ cc (rw (e, ◌>>=◌) at h)
]

-- The outcome of an addition and of a comparison by cases, for proofs about callers.
pub add_cases :
    (m o : Money)
    → IsMoney m
    → ((add m o ≡ ok (record { amount = m.amount + o.amount; currency = m.currency }))
        × (o.currency ≡ m.currency)
        × (m.amount + o.amount ≤ max_int64))
      ⊎ ((e : KernelError) × (add m o ≡ err e))
unfolding add
add_cases m o v = ground (arith, text_eq_iff m.currency o.currency)

pub compare_cases :
    (m o : Money)
    → ((compare m o ≡ err currency_mismatch) × (m.currency ≢ o.currency))
      ⊎ ((compare m o ≡ ok Sign.less) × (m.amount < o.amount) × (m.currency ≡ o.currency))
      ⊎ ((compare m o ≡ ok Sign.same) × (m.amount ≡ o.amount) × (m.currency ≡ o.currency))
      ⊎ ((compare m o ≡ ok Sign.more) × (o.amount < m.amount) × (m.currency ≡ o.currency))
unfolding compare
compare_cases m o = ground (arith, text_eq_iff m.currency o.currency)
