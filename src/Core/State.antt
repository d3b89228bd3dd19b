-- ===== src/Core/State.antt =====
-- crates/unlinger-core/src/state.rs: the states of an incident and its allowed transitions.
use unlinger.Prelude.{
  ◌≡◌, ◌⊎◌, Bool, true, false, ◌||◌, List, [], ◌∷◌, arith, Result, ok, err, if◌then◌else◌,
}

pub data IncidentState : Type 0 where
  protected active cooling confirmed ambiguous reclaiming cleared revived failed : IncidentState

pub record TransitionError : Type 0 where
  pub from : IncidentState
  pub to : IncidentState

-- The derived `==`.
abbrev pub state_eq : IncidentState → IncidentState → Bool
state_eq protected protected = true
state_eq active active = true
state_eq cooling cooling = true
state_eq confirmed confirmed = true
state_eq ambiguous ambiguous = true
state_eq reclaiming reclaiming = true
state_eq cleared cleared = true
state_eq revived revived = true
state_eq failed failed = true
state_eq _ _ = false

-- The pairs of the `matches!` in `IncidentState::transition`.
abbrev is_edge : IncidentState → IncidentState → Bool
is_edge active cooling = true
is_edge active protected = true
is_edge active ambiguous = true
is_edge cooling confirmed = true
is_edge cooling active = true
is_edge cooling protected = true
is_edge cooling ambiguous = true
is_edge confirmed reclaiming = true
is_edge confirmed active = true
is_edge confirmed protected = true
is_edge confirmed ambiguous = true
is_edge ambiguous protected = true
is_edge ambiguous active = true
is_edge ambiguous cooling = true
is_edge reclaiming cleared = true
is_edge reclaiming revived = true
is_edge reclaiming failed = true
is_edge revived cooling = true
is_edge revived failed = true
is_edge failed cooling = true
is_edge failed protected = true
is_edge failed ambiguous = true
is_edge _ _ = false

unfoldable pub transition : IncidentState → IncidentState → Result TransitionError IncidentState
transition from to =
    if state_eq from to || is_edge from to then ok to else err (record { from = from; to = to })

-- The states that a list of requested transitions leads through; a refused request changes nothing.
abbrev after : IncidentState → Result TransitionError IncidentState → IncidentState
after s (ok t) = t
after s (err e) = s

unfoldable pub run : IncidentState → List IncidentState → IncidentState
unfolding transition
run s [] = s
run s (t ∷ ts) = run (after s (transition s t)) ts

-- Whether a walk visits a state after its start.
unfoldable pub visits : IncidentState → IncidentState → List IncidentState → Bool
unfolding transition
visits x s [] = false
visits x s (t ∷ ts) =
    state_eq x (after s (transition s t)) || visits x (after s (transition s t)) ts

step_into_reclaiming :
    (s t : IncidentState)
    → after s (transition s t) ≡ reclaiming
    → (s ≡ reclaiming) ⊎ (s ≡ confirmed)
unfolding transition
step_into_reclaiming s t h = ground arith

step_into_confirmed :
    (s t : IncidentState) → after s (transition s t) ≡ confirmed → (s ≡ confirmed) ⊎ (s ≡ cooling)
unfolding transition
step_into_confirmed s t h = ground arith

-- Reclaiming is entered from confirmed only: whatever transitions are requested, in any order and
-- refused or not, an incident that is in neither of the two states at first and is being reclaimed
-- at last was confirmed in between.
pub reclaiming_needs_confirmed :
    (s : IncidentState) (ts : List IncidentState)
    → state_eq s reclaiming ≡ false
    → state_eq s confirmed ≡ false
    → run s ts ≡ reclaiming
    → visits confirmed s ts ≡ true
unfolding run visits
reclaiming_needs_confirmed s [] a b h = ground arith
reclaiming_needs_confirmed s (t ∷ ts) a b h =
    ground
      (arith, step_into_reclaiming s t, reclaiming_needs_confirmed (after s (transition s t)) ts)

-- Confirmed is entered from cooling only, so an incident that becomes confirmed and was not at first
-- confirmed or cooling has been cooling in between.
pub confirmed_needs_cooling :
    (s : IncidentState) (ts : List IncidentState)
    → state_eq s confirmed ≡ false
    → state_eq s cooling ≡ false
    → run s ts ≡ confirmed
    → visits cooling s ts ≡ true
unfolding run visits
confirmed_needs_cooling s [] a b h = ground arith
confirmed_needs_cooling s (t ∷ ts) a b h =
    ground (arith, step_into_confirmed s t, confirmed_needs_cooling (after s (transition s t)) ts)
