-- ===== src/Rules/Roles.antt =====
-- crates/unlinger-rules/src/lib.rs: the role of a process in a session, and recorders left out of it.
use unlinger.Prelude.{
  ℕ, ◌==◌, leb, Bool, false, ◌&&◌, ◌||◌, not, Option, none, some, List, [], ◌∷◌, String, any,
  is_none, contains, bytes, if◌then◌else◌,
}
use unlinger.Core.Model.{ProcessRecord, pid_of}
use unlinger.Core.Evidence.{
  ProcessRole, controller, browser_root, renderer, gpu, utility, browser_helper, crash_handler,
  recorder, incident_member,
}
use unlinger.Core.Graph.{ProcessGraph}
use unlinger.Core.Task.{strip_prefix}
use unlinger.Rules.Text.{bytes_eq, contains_text, to_ascii_lowercase}
use unlinger.Rules.Matching.{arguments_of, lower_basename, matches_recorder}
use unlinger.Rules.Candidates.{Candidate, processes}

-- `match kind` of `process_role`.
unfoldable pub role_of_kind : List ℕ → ProcessRole
unfolding bytes_eq
role_of_kind kind =
    if bytes_eq kind (bytes "renderer")
    then renderer
    else if bytes_eq kind (bytes "gpu-process")
    then gpu
    else if bytes_eq kind (bytes "utility")
    then utility
    else browser_helper

unfoldable pub role_of_arguments : List String → ProcessRole
unfolding role_of_kind strip_prefix to_ascii_lowercase
role_of_arguments [] = incident_member
role_of_arguments (a ∷ as_) =
    let rest = role_of_arguments as_ in
    elim (strip_prefix (bytes "--type=") (to_ascii_lowercase (bytes a))) [
      | some kind ↦ role_of_kind kind
      | none ↦ rest
    ]

abbrev is_pid : Option ℕ → ℕ → Bool
is_pid none n = false
is_pid (some pid) n = pid == n

unfoldable pub process_role : ProcessRecord → Candidate → ProcessRole
unfolding lower_basename contains_text matches_recorder role_of_arguments
process_role p c =
    if is_pid c.controller_pid (pid_of p)
    then controller
    else if contains c.browser_root_pids (pid_of p)
    then browser_root
    else if contains_text (lower_basename p) (bytes "crashpad")
        || contains_text (lower_basename p) (bytes "crash handler")
    then crash_handler
    else if matches_recorder p c.pack
    then recorder
    else role_of_arguments (arguments_of p)

abbrev pub outlives : ProcessRecord → ProcessRecord → Bool
outlives p browser =
    leb browser.identity.started_at_unix_micros p.identity.started_at_unix_micros
    && not (p.process_group_id == 0)
    && p.process_group_id == browser.process_group_id

unfoldable pub has_plausible_unjoined_recorder :
    ProcessGraph → Candidate → List ProcessRecord → Bool
unfolding matches_recorder
has_plausible_unjoined_recorder g c browser_roots =
    any
      (λ p.
        not (contains c.member_pids (pid_of p))
        && matches_recorder p c.pack
        && p.uid == g.current_uid
        && is_none p.tty_device
        && any (outlives p) browser_roots)
      (processes g)
