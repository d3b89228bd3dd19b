-- ===== src/Rules/Ownership.antt =====
-- crates/unlinger-rules/src/lib.rs: who owns a session, and whether some process still works with it.
use unlinger.Prelude.{
  ℕ, Bool, false, ◌&&◌, ◌||◌, not, Option, none, some, List, [], ◌∷◌, ◌++◌, String, str_eq, any,
  find, is_empty, is_some, contains, bytes, get, if◌then◌else◌,
}
use unlinger.Core.Model.{
  AppBundleVersion, ProcessRecord, PlaywrightCliRuntime, ProcessIdentity, exact_match, pid_of,
}
use unlinger.Core.Graph.{ProcessGraph, descendant_pids}
use unlinger.Core.Task.{SessionOwnerBinding, TaskControllerBinding, task_id_from_session}
use unlinger.Rules.Text.{bytes_eq, executable_basename, is_bytes, is_text}
use unlinger.Rules.Pack.{SignaturePack}
use unlinger.Rules.Gate.{bundle_eq}
use unlinger.Rules.Matching.{args_contain, flag_value}
use unlinger.Rules.Candidates.{descendants, process_at, processes}

pub record AnalyzerContext : Type 0 where
  pub self_pid : Option ℕ
  pub ancestor_pids : List ℕ
  pub task_controllers : List TaskControllerBinding
  pub session_owners : List SessionOwnerBinding

-- A rule set is the list of its packs.
pub record Analyzer : Type 0 where
  pub packs : List SignaturePack
  pub context : AnalyzerContext

unfoldable pub task_of_session : Option (List ℕ) → Option (List ℕ)
unfolding task_id_from_session
task_of_session none = none
task_of_session (some name) = task_id_from_session name

unfoldable pub owned_task_controller :
    Analyzer → ProcessRecord → SignaturePack → Option TaskControllerBinding
unfolding task_id_from_session exact_match bytes_eq
owned_task_controller a p pack = elim p.runtime.playwright_cli [
  | none ↦ none
  | some cli ↦
      if not (is_text pack.task_controller_version cli.version)
      then none
      else elim (task_id_from_session (bytes cli.session_name)) [
        | none ↦ none
        | some task_id ↦
            find (λ b. bytes_eq b.task_id task_id && exact_match b.controller p.identity)
              a.context.task_controllers
      ]
]

-- The test of `bound_session_owner` on a binding, behind its early returns.
abbrev pub owner_binds : ProcessRecord → PlaywrightCliRuntime → String → SessionOwnerBinding → Bool
owner_binds p cli selector b =
    str_eq b.selector_fingerprint selector
    && bytes_eq b.session_name (bytes cli.session_name)
    && str_eq b.controller_version cli.version
    && exact_match b.controller p.identity

unfoldable pub bound_session_owner :
    Analyzer → ProcessRecord → SignaturePack → Option SessionOwnerBinding
unfolding task_id_from_session exact_match bytes_eq
bound_session_owner a p pack =
    if not (str_eq pack.id "playwright") || is_empty a.context.session_owners
    then none
    else elim p.runtime.playwright_cli [
      | none ↦ none
      | some cli ↦
          if is_some (task_id_from_session (bytes cli.session_name))
            || not (is_text pack.session_owner_controller_version cli.version)
          then none
          else elim cli.selector_fingerprint [
            | none ↦ none
            | some selector ↦ find (owner_binds p cli selector) a.context.session_owners
          ]
    ]

-- The process at the pid of a binding is the very controller that was bound.
unfoldable pub is_live_controller : ProcessGraph → ProcessIdentity → Bool
unfolding exact_match get
is_live_controller g bound = elim (process_at g bound.pid) [
  | none ↦ false
  | some p ↦ exact_match bound p.identity
]

-- The members of a session: its bound controller and what descends from it.
abbrev pub session_tree : ProcessGraph → ProcessIdentity → List ℕ
session_tree g bound =
    if is_live_controller g bound then bound.pid ∷ descendants g bound.pid else []

unfoldable pub task_members : ProcessGraph → List ℕ → List TaskControllerBinding → List ℕ
unfolding is_live_controller descendant_pids bytes_eq
task_members g id [] = []
task_members g id (b ∷ bs) =
    (if bytes_eq b.task_id id then session_tree g b.controller else []) ++ task_members g id bs

abbrev is_bundle : Option AppBundleVersion → AppBundleVersion → Bool
is_bundle none b = false
is_bundle (some c) b = bundle_eq c b

-- A crash handler that detached from a browser of the session.
unfoldable pub is_detached_handler : ProcessGraph → List ℕ → ProcessRecord → Bool
unfolding executable_basename args_contain
is_detached_handler g members p =
    str_eq (executable_basename p) "chrome_crashpad_handler"
    && args_contain p "--monitor-self-annotation=ptype=crashpad-handler"
    && (elim p.runtime.crashpad_bundle [
      | none ↦ false
      | some bundle ↦
          str_eq bundle.bundle_id "com.google.chrome.for.testing"
          && any
              (λ browser.
                contains members (pid_of browser) && is_bundle browser.runtime.app_bundle bundle)
              (processes g)
    ])

unfoldable pub any_external_session_work : ProcessGraph → List ℕ → (ProcessRecord → Bool) → Bool
unfolding is_detached_handler
any_external_session_work g members carries_selector =
    any
      (λ p.
        not (contains members (pid_of p))
        && not (is_detached_handler g members p)
        && carries_selector p)
      (processes g)

abbrev text_bytes : Option String → Option (List ℕ)
text_bytes none = none
text_bytes (some s) = some (bytes s)

abbrev pub carries_task : List ℕ → ProcessRecord → Bool
carries_task id p =
    is_bytes (task_of_session (text_bytes p.runtime.task_session_name)) id
    || any (λ flag. is_bytes (task_of_session (flag_value p flag)) id) ("--session" ∷ "-s" ∷ [])

-- `task_has_live_work`, which is `session_has_live_work`.
unfoldable pub session_has_live_work : Analyzer → ProcessGraph → List ℕ → Bool
unfolding task_members any_external_session_work task_of_session flag_value bytes_eq
session_has_live_work a g id =
    any_external_session_work g (task_members g id a.context.task_controllers) (carries_task id)

unfoldable pub ordinary_session_has_live_work : ProcessGraph → SessionOwnerBinding → Bool
unfolding is_live_controller any_external_session_work flag_value bytes_eq descendant_pids
ordinary_session_has_live_work g b =
    any_external_session_work g (session_tree g b.controller)
      (λ p. any (λ flag. is_bytes (flag_value p flag) b.session_name) ("--session" ∷ "-s" ∷ []))
