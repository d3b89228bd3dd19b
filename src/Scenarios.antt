-- ===== src/Scenarios.antt =====
-- Concrete runs of the cleanup executor and small sample data: the tests, and the instances of the
-- development's theorems at them.
pub mod Tables
pub mod Sessions
pub mod Rules
pub mod Cycles
use unlinger.Prelude.{
  ◌≡◌, refl, ap, Bool, true, false, ◌&&◌, none, some, List, [], ◌∷◌, ◌++◌, ok, any, get, is_empty,
  bytes, All, In, if◌then◌else◌,
}
use unlinger.Core.Model.{
  exact_match, ProcessIdentity, ProcessRecord, ProcessRuntimeFacts, Snapshot, running,
}
use unlinger.Core.State.{
  IncidentState, active, cooling, confirmed, reclaiming, cleared, run, visits,
  reclaiming_needs_confirmed, confirmed_needs_cooling, state_eq,
}
use unlinger.Core.Evidence.{ProcessTarget, browser_root}
use unlinger.Core.Artifact.{
  ArtifactDisposition, FrozenRuntimeArtifact, RuntimeArtifactCandidate, dev_tools_active_port,
  frozen, absent, removed,
}
use unlinger.Core.Cleanup.Receipt.{
  CleanupAction, CleanupReceipt, CleanupSignal, SignalDisposition, delivered, term,
  proves_process_reclaim,
}
use unlinger.Core.Cleanup.Plan.{CleanupPlan}
use unlinger.Core.Cleanup.Runtime.{
  Environment, Event, Exit, History, default_policy, deadline_reached, eligible, gone, returned,
  raised, signalled, artifact_removed, stop_checked,
}
use unlinger.Core.Cleanup.Execute.{execute, new_receipt}
use unlinger.Core.Cleanup.Liveness.{
  wait_interrupted, observe_exact_target_liveness, resource_snapshot, set_resource_after, fail,
}
use unlinger.Core.Cleanup.History.{SignalAllowed, RemovalAllowed}
use unlinger.Core.Cleanup.Account.{Accounted}
use unlinger.Core.Cleanup.Reconcile.{TreeGone}
use unlinger.Core.Cleanup.Guarantees.{
  IsPassive, SignalledTo, execute-Accounted, execute-SignalAllowed, execute-RemovalAllowed,
  execute_stops, execute-TreeGone, proves_process_reclaim-SignalledTo,
}

abbrev pub browser : ProcessIdentity
browser = record {
  pid = 42;
  started_at_unix_micros = 1000;
  executable_device = some 1;
  executable_inode = some 2;
}

abbrev no_facts : ProcessRuntimeFacts
no_facts = record {
  cpu_total_nanos = 0;
  open_file_descriptors = 0;
  descriptor_facts_complete = true;
  debug_transport_facts_complete = true;
  tcp_listening_ports = [];
  tcp_established_local_ports = [];
  connected_unix_sockets = 0;
  attached_debug_transport = false;
  app_bundle = none;
  crashpad_bundle = none;
  task_session_name = none;
  task_session_facts_complete = true;
  unix_socket_fingerprints = [];
  connected_named_unix_socket_fingerprints = [];
  playwright_cli = none;
}

abbrev pub browser_process : ProcessRecord
browser_process = record {
  identity = browser;
  parent_pid = 1;
  process_group_id = 42;
  uid = 501;
  tty_device = none;
  name = "chrome";
  executable_path = some "/opt/chrome";
  executable = record {
    device = some 1;
    inode = some 2;
    size = some 3;
    modified_unix_nanos = none;
  };
  arguments = some [];
  resident_memory_bytes = 4096;
  status = running;
  runtime = no_facts;
}

abbrev pub table : List ProcessRecord → Snapshot
table processes = record {
  observed_at_unix_millis = 0;
  current_uid = 501;
  processes = processes;
  coverage = record {
    listed_processes = 1;
    inspected_processes = 1;
    unreadable_processes = 0;
    arguments_unavailable = 0;
    executable_identity_unavailable = 0;
    executable_path_unavailable = 0;
    executable_path_missing_without_errno = 0;
    executable_vnode_unavailable = 0;
    descriptor_facts_unavailable = 0;
  };
}

abbrev pub port_file : RuntimeArtifactCandidate
port_file = record {
  kind = dev_tools_active_port;
  profile_path = bytes "/p";
  artifact_path = bytes "/p/DevToolsActivePort";
  owner_uid = 501;
  session_fingerprint = "s";
  artifact_fingerprint = "art-1";
}

abbrev pub frozen_port_file : FrozenRuntimeArtifact
frozen_port_file = record {
  candidate = port_file;
  identity = record {
    device = 1;
    inode = 9;
    owner_uid = 501;
    mode = 384;
    link_count = 1;
    parent_device = 1;
    parent_inode = 8;
    parent_owner_uid = 501;
    parent_mode = 448;
  };
}

abbrev pub browser_target : ProcessTarget
browser_target = record { identity = browser; process_group_id = 42; role = browser_root }

abbrev pub sample_plan : CleanupPlan
sample_plan = record {
  incident_id = "i";
  tracking_key = "t";
  session_fingerprint = "s";
  signature_pack = "playwright";
  signature_version = "1";
  root_identity = browser;
  member_fingerprint = "m";
  targets = browser_target ∷ [];
  artifacts = port_file ∷ [];
}

abbrev pub is_signal : Event → Bool
is_signal (signalled identity sig d) = true
is_signal _ = false

abbrev pub is_removal : Event → Bool
is_removal (artifact_removed f d) = true
is_removal _ = false

-- A world in which a signal ends the browser and a removal removes the file; `stop` asks to stop once
-- a signal was sent.
abbrev pub world : Bool → Environment
world stop = record {
  should_stop = λ h. if stop then any is_signal h else false;
  snapshot = λ h. ok (table (if any is_signal h then [] else browser_process ∷ []));
  lookup_process = λ h pid. ok none;
  clock_sample = λ h.
      ok (record { wall_unix_millis = 5; continuous_millis = 5; boot_session_fingerprint = "b" });
  signal_exact = λ h identity sig. delivered;
  wait_until = λ h duration. ok deadline_reached;
  freeze_artifact = λ h c. ok (if any is_removal h then absent else frozen frozen_port_file);
  remove_artifact_exact = λ h f. removed;
  prepare_action = λ h i at. ok "a1";
  complete_action = λ h id d at. ok tt;
  prepare_artifact_action = λ h i at. ok "b1";
  complete_artifact_action = λ h id d at. ok tt;
  revalidate = λ snapshot plan phase. record {
    status = if is_empty snapshot.processes then gone else eligible;
    reason_id = "r";
  };
}

abbrev receipt_of : Exit → CleanupReceipt
receipt_of (returned r) = r
receipt_of (raised e) = new_receipt sample_plan

-- The calls after the newest one that a test picks, and those before it.
abbrev pub newer : (Event → Bool) → History → History
newer p [] = []
newer p (e ∷ h) = if p e then [] else e ∷ newer p h

abbrev pub older : (Event → Bool) → History → History
older p [] = []
older p (e ∷ h) = if p e then h else older p h

abbrev result : Bool → Exit × History
result stop = execute (world stop) sample_plan default_policy

abbrev receipt : Bool → CleanupReceipt
receipt stop = receipt_of (result stop).0

abbrev is_returned : Exit → Bool
is_returned (returned r) = true
is_returned (raised e) = false

returned_receipt : (x : Exit) → is_returned x ≡ true → x ≡ returned (receipt_of x)
returned_receipt (returned r) e = refl
returned_receipt (raised x) e = absurd (cc)

cleared_run : (is_returned (result false).0 && state_eq (receipt false).state cleared) ≡ true
unfolding execute get exact_match wait_interrupted observe_exact_target_liveness resource_snapshot
    set_resource_after
cleared_run = refl

drained_run : (receipt true).reason_id ≡ some "cleanup.drain_requested"
unfolding execute get exact_match wait_interrupted observe_exact_target_liveness resource_snapshot
    set_resource_after fail
drained_run = refl

run_returns : (result false).0 ≡ returned (receipt false)
unfolding execute get exact_match wait_interrupted observe_exact_target_liveness resource_snapshot
    set_resource_after
run_returns = returned_receipt (result false).0 refl

-- The newest signal of a history, and the newest removal.
abbrev pub signal_in : History → ProcessIdentity × CleanupSignal × SignalDisposition
signal_in [] = (browser, term, delivered)
signal_in (signalled identity sig d ∷ h) = (identity, sig, d)
signal_in (_ ∷ h) = signal_in h

abbrev pub removal_in : History → FrozenRuntimeArtifact × ArtifactDisposition
removal_in [] = (frozen_port_file, removed)
removal_in (artifact_removed f d ∷ h) = (f, d)
removal_in (_ ∷ h) = removal_in h

pub signal_split :
    (h : History)
    → any is_signal h ≡ true
    → h
      ≡ newer is_signal h
        ++ signalled (signal_in h).0 (signal_in h).1 (signal_in h).2 ∷ older is_signal h
signal_split [] e = absurd (cc)
signal_split (signalled identity sig d ∷ h) e = refl
signal_split (x ∷ h) e = ap (λ t. x ∷ t) (signal_split h e)

pub removal_split :
    (h : History)
    → any is_removal h ≡ true
    → h
      ≡ newer is_removal h
        ++ artifact_removed (removal_in h).0 (removal_in h).1 ∷ older is_removal h
removal_split [] e = absurd (cc)
removal_split (artifact_removed f d ∷ h) e = refl
removal_split (x ∷ h) e = ap (λ t. x ∷ t) (removal_split h e)

abbrev is_stop : Event → Bool
is_stop (stop_checked stop) = stop
is_stop _ = false

stop_split :
    (h : History)
    → any is_stop h ≡ true
    → h ≡ newer is_stop h ++ stop_checked true ∷ older is_stop h
stop_split [] e = absurd (cc)
stop_split (stop_checked true ∷ h) e = refl
stop_split (stop_checked false ∷ h) e = ap (λ t. stop_checked false ∷ t) (stop_split h e)
stop_split (x ∷ h) e = ap (λ t. x ∷ t) (stop_split h e)

abbrev calls : Bool → History
calls stop = (result stop).1

run_signals : any is_signal (calls false) ≡ true
unfolding execute get exact_match wait_interrupted observe_exact_target_liveness resource_snapshot
    set_resource_after
run_signals = refl

run_removes : any is_removal (calls false) ≡ true
unfolding execute get exact_match wait_interrupted observe_exact_target_liveness resource_snapshot
    set_resource_after
run_removes = refl

run_stops : any is_stop (calls true) ≡ true
unfolding execute get exact_match wait_interrupted observe_exact_target_liveness resource_snapshot
    set_resource_after
run_stops = refl

run_is_cleared : state_eq (receipt false).state cleared ≡ true
unfolding execute get exact_match wait_interrupted observe_exact_target_liveness resource_snapshot
    set_resource_after
run_is_cleared = refl

run_reclaims : proves_process_reclaim (receipt false) ≡ true
unfolding execute get exact_match wait_interrupted observe_exact_target_liveness resource_snapshot
    set_resource_after proves_process_reclaim
run_reclaims = refl

execute-Accounted_example : Accounted (world false) sample_plan (result false).0 (result false).1
execute-Accounted_example = execute-Accounted (world false) sample_plan default_policy

execute-SignalAllowed_example :
    SignalAllowed
      (world false)
      sample_plan
      (signal_in (calls false)).0
      (signal_in (calls false)).1
      (older is_signal (calls false))
execute-SignalAllowed_example =
    execute-SignalAllowed (world false) sample_plan default_policy (newer is_signal (calls false))
      (older is_signal (calls false)) (signal_in (calls false)).0 (signal_in (calls false)).1
      (signal_in (calls false)).2 (signal_split (calls false) run_signals)

execute-RemovalAllowed_example :
    RemovalAllowed
      (world false)
      sample_plan
      (removal_in (calls false)).0
      (older is_removal (calls false))
execute-RemovalAllowed_example =
    execute-RemovalAllowed (world false) sample_plan default_policy (newer is_removal (calls false))
      (older is_removal (calls false)) (removal_in (calls false)).0 (removal_in (calls false)).1
      (removal_split (calls false) run_removes)

execute_stops_example : All IsPassive (newer is_stop (calls true))
execute_stops_example =
    execute_stops (world true) sample_plan default_policy (newer is_stop (calls true))
      (stop_checked true ∷ older is_stop (calls true)) (stop_split (calls true) run_stops) refl

execute-TreeGone_example : TreeGone (world false) sample_plan (result false).1
execute-TreeGone_example =
    execute-TreeGone (world false) sample_plan default_policy (receipt false) run_returns
      run_is_cleared

proves_process_reclaim-SignalledTo_example :
    (a : CleanupAction) × In a (receipt false).actions
    × SignalledTo (world false) sample_plan a.pid delivered (result false).1
proves_process_reclaim-SignalledTo_example =
    proves_process_reclaim-SignalledTo (world false) sample_plan default_policy (receipt false)
      run_returns run_reclaims

-- An incident that is noticed, confirmed and then reclaimed.
abbrev noticed : List IncidentState
noticed = cooling ∷ reclaiming ∷ confirmed ∷ reclaiming ∷ []

noticed-run : run active noticed ≡ reclaiming
unfolding run
noticed-run = refl

reclaiming_needs_confirmed_example : visits confirmed active noticed ≡ true
reclaiming_needs_confirmed_example = reclaiming_needs_confirmed active noticed refl refl noticed-run

abbrev confirming : List IncidentState
confirming = confirmed ∷ cooling ∷ confirmed ∷ []

confirming-run : run active confirming ≡ confirmed
unfolding run
confirming-run = refl

confirmed_needs_cooling_example : visits cooling active confirming ≡ true
confirmed_needs_cooling_example = confirmed_needs_cooling active confirming refl refl confirming-run
