-- ===== src/Core/State/Lifecycle.antt =====
-- What the state machine of crates/core/src/state.rs guarantees.
use text.Mathlib.TextEquality.{eq_iff}
use open_download_manager.Prelude.{◌≡◌, refl, sym, ◌↔◌, ◌⊎◌, inl, inr, true, String, arith, subst}
use open_download_manager.Core.Error.{ok}
use open_download_manager.Core.State.{
  DownloadState, queued, starting, downloading, paused, completed, failed, cancelled,
  is_valid_transition, transition, display, from_str,
}

-- The lifecycle diagram, one constructor an edge.
infix 40 ◌⟶◌ ◌⟶*◌
pub data ◌⟶◌ : DownloadState → DownloadState → Type 0 where
  start : queued ⟶ starting
  queued_failed : queued ⟶ failed
  queued_cancelled : queued ⟶ cancelled
  first_bytes : starting ⟶ downloading
  starting_completed : starting ⟶ completed
  starting_paused : starting ⟶ paused
  starting_failed : starting ⟶ failed
  starting_cancelled : starting ⟶ cancelled
  pause : downloading ⟶ paused
  complete : downloading ⟶ completed
  fail : downloading ⟶ failed
  cancel : downloading ⟶ cancelled
  resume : paused ⟶ queued
  paused_cancelled : paused ⟶ cancelled
  retry : failed ⟶ queued
  failed_cancelled : failed ⟶ cancelled

-- What calls of `transition` lead to, one after the other.
pub data ◌⟶*◌ (s : DownloadState) : DownloadState → Type 0 where
  here : s ⟶* s
  then : {t u : DownloadState} → s ⟶* t → transition t u ≡ ok u → s ⟶* u

pub ruleset edges = (
  start, queued_failed, queued_cancelled, first_bytes, starting_completed, starting_paused,
  starting_failed, starting_cancelled, pause, complete, fail, cancel, resume, paused_cancelled,
  retry, failed_cancelled,
)

edge_sound : (s t : DownloadState) → is_valid_transition s t ≡ true → s ⟶ t
unfolding is_valid_transition
edge_sound s t h = grind (arith, edges)

edge_complete : {s t : DownloadState} → s ⟶ t → transition s t ≡ ok t
unfolding transition
edge_complete start = refl
edge_complete queued_failed = refl
edge_complete queued_cancelled = refl
edge_complete first_bytes = refl
edge_complete starting_completed = refl
edge_complete starting_paused = refl
edge_complete starting_failed = refl
edge_complete starting_cancelled = refl
edge_complete pause = refl
edge_complete complete = refl
edge_complete fail = refl
edge_complete cancel = refl
edge_complete resume = refl
edge_complete paused_cancelled = refl
edge_complete retry = refl
edge_complete failed_cancelled = refl

pub transition-eq-ok :
    (s t u : DownloadState) → transition s t ≡ ok u → (is_valid_transition s t ≡ true) × (u ≡ t)
unfolding transition
transition-eq-ok s t u h = ground arith

pub transition-of-valid :
    (s t : DownloadState) → is_valid_transition s t ≡ true → transition s t ≡ ok t
unfolding transition
transition-of-valid s t h = ground arith

-- `transition` accepts exactly the edges of the lifecycle diagram, and yields the requested state.
pub transition_iff : (s t u : DownloadState) → (transition s t ≡ ok u) ↔ ((s ⟶ t) × (u ≡ t))
transition_iff s t u = (
  (λ h. let (v, e) = transition-eq-ok s t u h in (edge_sound s t v, e)),
  (λ h. ground (arith, edge_complete h.0)),
)

abbrev pub IsFinal : DownloadState → Type 0
IsFinal s = (s ≡ completed) ⊎ (s ≡ cancelled)

edge_not_IsFinal : {s t : DownloadState} → s ⟶ t → ¬ IsFinal s
edge_not_IsFinal start = ground arith
edge_not_IsFinal queued_failed = ground arith
edge_not_IsFinal queued_cancelled = ground arith
edge_not_IsFinal first_bytes = ground arith
edge_not_IsFinal starting_completed = ground arith
edge_not_IsFinal starting_paused = ground arith
edge_not_IsFinal starting_failed = ground arith
edge_not_IsFinal starting_cancelled = ground arith
edge_not_IsFinal pause = ground arith
edge_not_IsFinal complete = ground arith
edge_not_IsFinal fail = ground arith
edge_not_IsFinal cancel = ground arith
edge_not_IsFinal resume = ground arith
edge_not_IsFinal paused_cancelled = ground arith
edge_not_IsFinal retry = ground arith
edge_not_IsFinal failed_cancelled = ground arith

-- No calls of `transition` lead out of the state of a completed or cancelled download, and from every
-- other state some calls of it lead to `completed`.
pub lifecycle_ends :
    (s t : DownloadState) → (IsFinal s → s ⟶* t → t ≡ s) × (¬ IsFinal s → s ⟶* completed)
lifecycle_ends s t = (stays s t, finish s)
  where
    stays : (s t : DownloadState) → IsFinal s → s ⟶* t → t ≡ s
    stays s t f here = refl
    stays s t f (then {t = u} r e) =
        let edge = edge_sound u t (transition-eq-ok u t t e).0 in
        absurd (edge_not_IsFinal edge (subst IsFinal (sym (stays s u f r)) f))

    by_edge : {s t u : DownloadState} → s ⟶* t → t ⟶ u → s ⟶* u
    by_edge r e = then r (edge_complete e)

    begun : {s : DownloadState} → s ⟶* queued → s ⟶* completed
    begun r = by_edge (by_edge r start) starting_completed

    finish : (s : DownloadState) → ¬ IsFinal s → s ⟶* completed
    finish queued n = begun here
    finish starting n = by_edge here starting_completed
    finish downloading n = by_edge here complete
    finish paused n = begun (by_edge here resume)
    finish completed n = absurd (n (inl refl))
    finish failed n = begun (by_edge here retry)
    finish cancelled n = absurd (n (inr refl))

from_str-display : (s : DownloadState) → from_str (display s) ≡ ok s
unfolding from_str display
from_str-display queued = refl
from_str-display starting = refl
from_str-display downloading = refl
from_str-display paused = refl
from_str-display completed = refl
from_str-display failed = refl
from_str-display cancelled = refl

display_of_from_str : (t : String) (s : DownloadState) → from_str t ≡ ok s → t ≡ display s
unfolding from_str display
display_of_from_str t s h = ground (
  arith,
  eq_iff t "queued",
  eq_iff t "starting",
  eq_iff t "downloading",
  eq_iff t "paused",
  eq_iff t "completed",
  eq_iff t "failed",
  eq_iff t "cancelled",
)

-- A stored state is read back as itself, and only the stored forms are read as a state.
pub from_str_iff : (t : String) (s : DownloadState) → (from_str t ≡ ok s) ↔ (t ≡ display s)
from_str_iff t s = (display_of_from_str t s, λ e. rw e (from_str-display s))
