-- ===== src/Ordering/Checkout/Rules.antt =====
-- Rules for the handlers of the checkout (internal/ordering/application/command): what holds of the store
-- before a handler and after it, for a result and for an error.
use go_marketplace_backend.Base.{◌≡◌, refl, Bool, true, false, Result, ok, err, if◌then◌else◌}
use go_marketplace_backend.Kernel.Error.{KernelError}
use go_marketplace_backend.Kernel.Identifier.{Ident}
use go_marketplace_backend.Ordering.Checkout.{
  Fails, Store, World, M, with_id, pure, fail, ◌>>=◌, ◌>>◌, attempt, call, read, lift,
}
use go_marketplace_backend.Ordering.Checkout.Stores.{Ends}

pub record Keeps {W A : Type 0} (P : Store → Type 0) (m : M W A) (Q : A → Store → Type 0)
    (E : Store → Type 0) : Type 0 where
  pub ends : (w : World W) → P w.store → Ends Q E (m w).0 (m w).1.store

Ends-weaken :
    {A : Type 0} (Q Q' : A → Store → Type 0) (E E' : Store → Type 0) (r : Result Fails A)
    (st : Store)
    → ((a : A) → Q a st → Q' a st)
    → (E st → E' st)
    → Ends Q E r st
    → Ends Q' E' r st
Ends-weaken Q Q' E E' (ok a) st after error q = after a q
Ends-weaken Q Q' E E' (err e) st after error q = error q

pub pure-Keeps :
    {W A : Type 0} {P : Store → Type 0} {Q : A → Store → Type 0} {E : Store → Type 0} (a : A)
    → ((st : Store) → P st → Q a st)
    → Keeps {W = W} P (pure a) Q E
unfolding pure
pure-Keeps a h = record { ends = λ w p. h w.store p }

pub fail-Keeps :
    {W A : Type 0} {P : Store → Type 0} {Q : A → Store → Type 0} {E : Store → Type 0} (e : Fails)
    → ((st : Store) → P st → E st)
    → Keeps {W = W} P (fail e) Q E
unfolding fail
fail-Keeps e h = record { ends = λ w p. h w.store p }

pub read-Keeps : {W A : Type 0} {P E : Store → Type 0} (f : W → A) → Keeps P (read f) (λ _. P) E
unfolding read
read-Keeps f = record { ends = λ w p. p }

pub call-Keeps :
    {W A : Type 0} {P : Store → Type 0} (port : W → Result Fails A × W)
    → Keeps P (call port) (λ _. P) P
unfolding call
call-Keeps {P = P} port = record {
  ends =
      λ w p. elim (port w.outside).0 as (λ r. Ends (λ _. P) P r w.store) [ ok a ↦ p | err e ↦ p ];
}

after_bind :
    {W A B : Type 0} (m : Result Fails A × World W) (next : A → M W B) (Q : A → Store → Type 0)
    (R : B → Store → Type 0) (E : Store → Type 0)
    → Ends Q E m.0 m.1.store
    → ((a : A) → Keeps (Q a) (next a) R E)
    → let out : Result Fails B × World W = elim m.0 [ ok a ↦ next a m.1 | err e ↦ (err e, m.1) ] in
      Ends R E out.0 out.1.store
after_bind (ok a, w) next Q R E h k = (k a).ends w h
after_bind (err e, w) next Q R E h k = h

pub bind-Keeps :
    {W A B : Type 0} {m : M W A} {next : A → M W B} {P : Store → Type 0} {Q : A → Store → Type 0}
    {R : B → Store → Type 0} {E : Store → Type 0}
    → Keeps P m Q E
    → ((a : A) → Keeps (Q a) (next a) R E)
    → Keeps P (m >>= next) R E
unfolding ◌>>=◌
bind-Keeps {m = m} {next = next} {Q = Q} {R = R} {E = E} h k = record {
  ends = λ w p. after_bind (m w) next Q R E (h.ends w p) k;
}

pub then-Keeps :
    {W B : Type 0} {m : M W (Unit {0})} {n : M W B} {P Q : Store → Type 0} {R : B → Store → Type 0}
    {E : Store → Type 0}
    → Keeps P m (λ _. Q) E
    → Keeps Q n R E
    → Keeps P (m >> n) R E
unfolding ◌>>◌
then-Keeps h k = bind-Keeps h (λ _. k)

pub attempt-Keeps :
    {W A : Type 0} {m : M W A} {P : Store → Type 0} {Q : A → Store → Type 0} {E F : Store → Type 0}
    → Keeps P m Q E
    → Keeps P (attempt m) (Ends Q E) F
unfolding attempt
attempt-Keeps h = record { ends = λ w p. h.ends w p }

-- A call whose error is looked at.
pub cases-Keeps :
    {W A B : Type 0} {f : A → M W B} {g : Fails → M W B} {Q : A → Store → Type 0}
    {E F : Store → Type 0} {R : B → Store → Type 0} (r : Result Fails A)
    → ((a : A) → Keeps (Q a) (f a) R F)
    → ((e : Fails) → Keeps E (g e) R F)
    → Keeps (Ends Q E r) (elim r [ ok a ↦ f a | err e ↦ g e ]) R F
cases-Keeps (ok a) k l = k a
cases-Keeps (err e) k l = l e

-- A result that the handler has computed.
pub result-Keeps :
    {W A B X : Type 0} {f : A → M W B} {g : X → M W B} {P : Store → Type 0} {R : B → Store → Type 0}
    {E : Store → Type 0} (r : Result X A)
    → ((a : A) → r ≡ ok a → Keeps P (f a) R E)
    → ((x : X) → Keeps P (g x) R E)
    → Keeps P (elim r [ ok a ↦ f a | err x ↦ g x ]) R E
result-Keeps (ok a) k l = k a refl
result-Keeps (err x) k l = l x

pub if-Keeps :
    {W A : Type 0} (c : Bool) {m n : M W A} {P : Store → Type 0} {Q : A → Store → Type 0}
    {E : Store → Type 0}
    → Keeps P m Q E
    → Keeps P n Q E
    → Keeps P (if c then m else n) Q E
if-Keeps true h k = h
if-Keeps false h k = k

pub with_id-Keeps :
    {W A : Type 0} (r : Result KernelError Ident) {m : M W A} {next : Ident → M W A}
    {P : Store → Type 0} {Q : A → Store → Type 0} {E : Store → Type 0}
    → Keeps P m Q E
    → ((id : Ident) → Keeps P (next id) Q E)
    → Keeps P (with_id r m next) Q E
with_id-Keeps (err x) h k = h
with_id-Keeps (ok id) h k = k id

-- A fact that is not about the store is given to what follows.
pub pull-Keeps :
    {W A : Type 0} {m : M W A} {X : Type 0} {P : Store → Type 0} {Q : A → Store → Type 0}
    {E : Store → Type 0}
    → (X → Keeps P m Q E)
    → Keeps (λ st. X × P st) m Q E
pull-Keeps h = record { ends = λ w p. (h p.0).ends w p.1 }

pub weaken-Keeps :
    {W A : Type 0} {m : M W A} {P P' : Store → Type 0} {Q Q' : A → Store → Type 0}
    {E E' : Store → Type 0}
    → Keeps P m Q E
    → ((st : Store) → P' st → P st)
    → ((a : A) (st : Store) → Q a st → Q' a st)
    → ((st : Store) → E st → E' st)
    → Keeps P' m Q' E'
weaken-Keeps {m = m} {Q = Q} {Q' = Q'} {E = E} {E' = E'} h before after error = record {
  ends = λ w p.
      let st = (m w).1.store in
      Ends-weaken Q Q' E E' (m w).0 st (λ a. after a st) (error st) (h.ends w (before w.store p));
}

pub lift-Keeps :
    {W A : Type 0} {P : Store → Type 0} (r : Result Fails A)
    → Keeps {W = W} P (lift r) (λ a st. (r ≡ ok a) × P st) P
unfolding lift
lift-Keeps (ok a) = pure-Keeps a (λ _ p. (refl, p))
lift-Keeps (err e) = fail-Keeps e (λ _ p. p)
