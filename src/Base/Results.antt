-- ===== src/Base/Results.antt =====
-- A Go pair `(value, error)` as a result, with `do`, and the outcome of a mutating method: the
-- state that it leaves behind, on failure too, with the error that it returns.
use mathlib.Core.Path.{◌≡◌, refl}
use mathlib.Core.Logic.{◌⊎◌, inl, inr}
use mathlib.Core.Bool.{Bool, true, false}
use mathlib.Core.Option.{Option, some}

pub data Result {ℓ κ} (E : Type ℓ) (A : Type κ) : Type (ℓ ⊔ κ) where
  ok : A → Result E A
  err : E → Result E A

infixl 5 ◌>>=◌ ◌>>◌
abbrev pub ◌>>=◌ {ℓ κ μ} :
    {E : Type ℓ} {A : Type κ} {B : Type μ} → Result E A → (A → Result E B) → Result E B
err x >>= next = err x
ok value >>= next = next value

abbrev pub ◌>>◌ {ℓ κ} : {E : Type ℓ} {B : Type κ} → Result E (Unit {0}) → Result E B → Result E B
first >> second = first >>= λ _. second

-- `if c { return e }`
abbrev pub fail_if {ℓ} : {E : Type ℓ} → Bool → E → Result E (Unit {0})
fail_if true e = err e
fail_if false e = ok tt

-- A callee's error under another name: `if err != nil { return ErrX }`.
abbrev pub or_fail {ℓ κ μ} :
    {E : Type ℓ} {F : Type κ} {A : Type μ} → Result E A → (E → F) → Result F A
or_fail (ok a) f = ok a
or_fail (err e) f = err (f e)

pub Result-cases {ℓ κ} :
    {E : Type ℓ} {A : Type κ} (r : Result E A) → ((a : A) × (r ≡ ok a)) ⊎ ((e : E) × (r ≡ err e))
Result-cases (ok a) = inl (a, refl)
Result-cases (err e) = inr (e, refl)

abbrev pub Outcome : Type 0 → Type 0 → Type 0
Outcome S E = S × Option E

-- What a method does after a call that may fail: the state so far stays on failure.
abbrev pub then_do : {S E A : Type 0} → S → Result E A → (A → Outcome S E) → Outcome S E
then_do s (ok a) k = k a
then_do s (err e) k = (s, some e)

-- Inversion of a bind that succeeds.
pub >>=-eq-ok {ℓ κ μ} :
    {E : Type ℓ} {A : Type κ} {B : Type μ} (r : Result E A) (next : A → Result E B) {out : B}
    → (r >>= next) ≡ ok out
    → (value : A) × (r ≡ ok value) × (next value ≡ ok out)
>>=-eq-ok (err x) next h = cc
>>=-eq-ok (ok value) next h = (value, refl, h)

pub or_fail-eq-ok {ℓ κ μ} :
    {E : Type ℓ} {F : Type κ} {A : Type μ} (r : Result E A) (f : E → F) {a : A}
    → or_fail r f ≡ ok a
    → r ≡ ok a
or_fail-eq-ok (ok x) f h = cc
or_fail-eq-ok (err e) f h = cc

pub ok-injective {ℓ κ} :
    {E : Type ℓ} {A : Type κ} {a b : A} → ◌≡◌ {A = Result E A} (ok a) (ok b) → a ≡ b
ok-injective h = cc

-- What holds of the state before a call that may fail, and of every state that follows on success.
pub then_do-keeps :
    {S E A : Type 0} (P : S → Type 0) (s : S) (r : Result E A) (k : A → Outcome S E)
    → P s
    → ((a : A) → r ≡ ok a → P (k a).0)
    → P (then_do s r k).0
then_do-keeps P s (ok a) k before after = after a refl
then_do-keeps P s (err e) k before after = before
