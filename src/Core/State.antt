-- ===== src/Core/State.antt =====
-- The lifecycle of a managed download (crates/core/src/state.rs).
pub mod Lifecycle
use Prim.Native.String
use text.Mathlib.Text.{◌==◌ as str_eq}
use open_download_manager.Prelude.{
  ◌≡◌, Bool, true, false, List, [], ◌∷◌, String, any, if◌then◌else◌,
}
use open_download_manager.Core.Error.{Error, Result, ok, err}

pub data DownloadState : Type 0 where
  queued starting downloading paused completed failed cancelled : DownloadState

-- The derived `PartialEq`.
abbrev pub state_eq : DownloadState → DownloadState → Bool
state_eq queued queued = true
state_eq starting starting = true
state_eq downloading downloading = true
state_eq paused paused = true
state_eq completed completed = true
state_eq failed failed = true
state_eq cancelled cancelled = true
state_eq _ _ = false

unfoldable pub next_states : DownloadState → List DownloadState
next_states queued = starting ∷ failed ∷ cancelled ∷ []
next_states starting = downloading ∷ completed ∷ paused ∷ failed ∷ cancelled ∷ []
next_states downloading = paused ∷ completed ∷ failed ∷ cancelled ∷ []
next_states paused = queued ∷ cancelled ∷ []
next_states completed = []
next_states failed = queued ∷ cancelled ∷ []
next_states cancelled = []

unfoldable pub is_valid_transition : DownloadState → DownloadState → Bool
unfolding next_states
is_valid_transition self next = any (state_eq next) (next_states self)

-- `Display`.
unfoldable pub display : DownloadState → String
display queued = "queued"
display starting = "starting"
display downloading = "downloading"
display paused = "paused"
display completed = "completed"
display failed = "failed"
display cancelled = "cancelled"

unfoldable pub transition : DownloadState → DownloadState → Result DownloadState
unfolding is_valid_transition
transition self next =
    if is_valid_transition self next
    then ok next
    else err (
        Error.internal (
          String.◌++◌ "invalid download state transition: "
            (String.◌++◌ (display self) (String.◌++◌ " -> " (display next)))))

-- `FromStr`.
unfoldable pub from_str : String → Result DownloadState
from_str s =
    if str_eq s "queued"
    then ok queued
    else if str_eq s "starting"
    then ok starting
    else if str_eq s "downloading"
    then ok downloading
    else if str_eq s "paused"
    then ok paused
    else if str_eq s "completed"
    then ok completed
    else if str_eq s "failed"
    then ok failed
    else if str_eq s "cancelled"
    then ok cancelled
    else err (Error.internal (String.◌++◌ "unknown download state: " s))
