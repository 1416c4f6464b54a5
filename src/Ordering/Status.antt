-- ===== src/Ordering/Status.antt =====
-- The statuses of an order and their transitions, and the actors (internal/ordering/domain/status.go).
use go_marketplace_backend.Base.{◌==◌, ℕ, Bool, true, false, ◌||◌, not, List, [], ◌∷◌, any}
use go_marketplace_backend.Base.Text.{Text, is_empty}

pub data Status : Type 0 where
  created awaiting_payment paid in_fulfilment shipped delivered : Status
  completed cancelled failed returning returned : Status

abbrev code : Status → ℕ
code created = 0
code awaiting_payment = 1
code paid = 2
code in_fulfilment = 3
code shipped = 4
code delivered = 5
code completed = 6
code cancelled = 7
code failed = 8
code returning = 9
code returned = 10

-- `==` on the strings of the statuses.
abbrev pub same_status : Status → Status → Bool
same_status a b = code a == code b

-- The table of transitions; a status that is no key of the map has none.
unfoldable pub transitions : Status → List Status
transitions created = awaiting_payment ∷ cancelled ∷ failed ∷ []
transitions awaiting_payment = paid ∷ cancelled ∷ failed ∷ []
transitions paid = in_fulfilment ∷ cancelled ∷ []
transitions in_fulfilment = shipped ∷ cancelled ∷ []
transitions shipped = delivered ∷ returning ∷ cancelled ∷ []
transitions delivered = completed ∷ returning ∷ []
transitions returning = returned ∷ []
transitions _ = []

abbrev pub contains : List Status → Status → Bool
contains ss target = any (λ s. same_status s target) ss

unfoldable pub can_transition_to : Status → Status → Bool
unfolding transitions
can_transition_to s target = contains (transitions s) target

unfoldable pub cancellable : Status → Bool
cancellable s = contains (created ∷ awaiting_payment ∷ paid ∷ in_fulfilment ∷ []) s

unfoldable pub is_terminal : Status → Bool
is_terminal s =
    same_status s completed
    || same_status s cancelled
    || same_status s failed
    || same_status s returned

unfoldable pub is_paid : Status → Bool
is_paid paid = true
is_paid in_fulfilment = true
is_paid shipped = true
is_paid delivered = true
is_paid completed = true
is_paid returning = true
is_paid returned = true
is_paid _ = false

unfoldable pub visible_to_seller : Status → Bool
unfolding is_paid
visible_to_seller s = is_paid s || same_status s cancelled

-- An actor whose kind is none of the four constants is left out: none is made in the program.
pub data ActorKind : Type 0 where
  buyer seller support system : ActorKind

pub record Actor : Type 0 where
  pub kind : ActorKind
  pub id : Text

abbrev pub system_actor : Actor
system_actor = record { kind = system; id = [] }

unfoldable pub valid_actor : Actor → Bool
valid_actor a = elim a.kind [ system ↦ true | _ ↦ not (is_empty a.id) ]
