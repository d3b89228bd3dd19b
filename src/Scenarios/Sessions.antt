-- ===== src/Scenarios/Sessions.antt =====
-- Names of sessions, and the owner of a task.
use unlinger.Prelude.{ℕ, ◌<◌, ◌≡◌, ◌≢◌, ◌↔◌, refl, true, false, none, some, List, bytes}
use unlinger.Core.Model.{pid_of}
use unlinger.Core.Task.{
  TaskOwnerIdentity, from_process, owner_matches, valid_task_id, session_name_from_id,
  task_id_from_session, valid_ordinary_session_name, valid_registry_namespace,
}
use unlinger.Core.Task.Names.{task_id_from_session_iff, valid_ordinary_session_name_lem}
use unlinger.Core.Task.Owners.{from_process-owner_matches}
use unlinger.Core.Residue.{as_str, parse, parse-as_str, partial}
use unlinger.Scenarios.{browser_process}

abbrev task_id : List ℕ
task_id = bytes "0123456789abcdef0123456789abcdef"

task_id_valid : valid_task_id task_id ≡ true
unfolding valid_task_id
task_id_valid = refl

profile_refused : task_id_from_session (bytes "unlinger-../profile") ≡ none
unfolding task_id_from_session valid_task_id
profile_refused = refl

workspace_ordinary : valid_ordinary_session_name (bytes "workspace_a.1") ≡ true
unfolding valid_ordinary_session_name
workspace_ordinary = refl

slash_refused : valid_ordinary_session_name (bytes "has/slash") ≡ false
unfolding valid_ordinary_session_name
slash_refused = refl

capital_refused : valid_registry_namespace (bytes "0521184CFF085302") ≡ false
unfolding valid_registry_namespace
capital_refused = refl

task_id_from_session_iff_example :
    (task_id_from_session (session_name_from_id task_id) ≡ some task_id) ↔ (
      (session_name_from_id task_id ≡ session_name_from_id task_id)
      × (valid_task_id task_id ≡ true))
task_id_from_session_iff_example = task_id_from_session_iff (session_name_from_id task_id) task_id

valid_ordinary_session_name_lem_example : task_id_from_session (bytes "workspace_a.1") ≡ none
valid_ordinary_session_name_lem_example =
    valid_ordinary_session_name_lem (bytes "workspace_a.1") workspace_ordinary

abbrev owner : TaskOwnerIdentity
owner = record { pid = 42; started_at_unix_micros = 1000; uid = 501 }

owner_taken : from_process browser_process ≡ some owner
unfolding from_process
owner_taken = refl

from_process-owner_matches_example : (from_process browser_process ≡ some owner) ↔ (
    (1 < pid_of browser_process)
    × (0 < browser_process.identity.started_at_unix_micros)
    × (browser_process.uid ≢ 0)
    × (owner_matches owner browser_process ≡ true))
from_process-owner_matches_example = from_process-owner_matches browser_process owner

parse-as_str_example : (parse "partial" ≡ some partial) ↔ (as_str partial ≡ as_str partial)
parse-as_str_example = parse-as_str "partial" partial
