-- ===== src/Scenarios/Tables.antt =====
-- A report that becomes a plan, and small process tables as graphs.
use mathlib.Core.List.{Permᴰ}
use unlinger.Prelude.{
  ℕ, ◌≡◌, ◌↔◌, refl, In, contains_key, Bool, true, none, some, List, [], ◌∷◌, ok,
}
use unlinger.Core.Model.{ProcessIdentity, ProcessRecord}
use unlinger.Core.State.{confirmed}
use unlinger.Core.Evidence.{IncidentReport, google_chrome, automatic}
use unlinger.Core.Cleanup.Plan.{from_confirmed}
use unlinger.Core.Cleanup.Plan.FromConfirmed.{IsSound, from_confirmed-IsSound}
use unlinger.Core.Fingerprint.{fingerprint_process_set}
use unlinger.Core.Fingerprint.Order.{fingerprint_process_set_lem}
use unlinger.Core.Graph.{
  ProcessGraph, from_snapshot, parent_of, ancestor_pids, lineage_has_cycle, descendant_pids,
}
use unlinger.Core.Graph.Descent.{Reaches, descendant_pids-Reaches}
use unlinger.Core.Graph.Index.{IsIndex, from_snapshot-IsIndex}
use unlinger.Core.Graph.Lineage.{IsWalk, Answers, ancestor_pids-IsWalk, lineage_has_cycle-Answers}
use unlinger.Scenarios.{browser, browser_process, browser_target, port_file, sample_plan, table}

abbrev pub sample_report : IncidentReport
sample_report = record {
  incident_id = "i";
  tracking_key = "t";
  session_fingerprint = "s";
  signature_pack = "playwright";
  signature_version = "1";
  state = confirmed;
  root = record {
    pid = 42;
    started_at_unix_micros = 1000;
    executable_basename = "chrome";
    identity_fingerprint = "f";
  };
  member_count = 1;
  resident_memory_bytes = 4096;
  member_fingerprint = "m";
  roles = [];
  evidence = [];
  gates = record {
    same_user = true;
    strong_automation_provenance = true;
    confirmed_abandonment = true;
    isolated_session = true;
    stable_across_two_observations = true;
    process_identity_unchanged = true;
    no_protection_rule = true;
  };
  browser_compatibility = record {
    product = google_chrome;
    observed_version = none;
    decision = automatic;
    reason_id = none;
  };
  targets = browser_target ∷ [];
  runtime_artifacts = port_file ∷ [];
}

sample_report_freezes : from_confirmed sample_report ≡ ok sample_plan
unfolding from_confirmed
sample_report_freezes = refl

from_confirmed-IsSound_example : IsSound sample_report sample_plan
from_confirmed-IsSound_example =
    from_confirmed-IsSound sample_report sample_plan sample_report_freezes

-- Two processes that are each other's parent.
abbrev child_of : ℕ → ℕ → ProcessRecord
child_of pid parent = record browser_process {
  identity = record browser { pid = pid };
  parent_pid = parent;
}

abbrev loop : List ProcessRecord
loop = child_of 7 42 ∷ child_of 42 7 ∷ []

abbrev loop_graph : ProcessGraph
loop_graph = record {
  current_uid = 501;
  processes = (7, child_of 7 42) ∷ (42, child_of 42 7) ∷ [];
  children = (7, 42 ∷ []) ∷ (42, 7 ∷ []) ∷ [];
}

loop_indexed : from_snapshot (table loop) ≡ ok loop_graph
unfolding from_snapshot
loop_indexed = refl

loop_ancestors : ancestor_pids loop_graph 7 ≡ some (42 ∷ 7 ∷ [])
unfolding ancestor_pids
loop_ancestors = refl

loop_found : lineage_has_cycle loop_graph 7 ≡ some true
unfolding lineage_has_cycle
loop_found = refl

from_snapshot-IsIndex_example : IsIndex (table loop) loop_graph
from_snapshot-IsIndex_example = from_snapshot-IsIndex (table loop) loop_graph loop_indexed

ancestor_pids-IsWalk_example :
    (l : List ℕ) × (ancestor_pids loop_graph 7 ≡ some l)
    × IsWalk loop_graph [] (parent_of loop_graph 7) l
ancestor_pids-IsWalk_example = ancestor_pids-IsWalk loop_graph 7

lineage_has_cycle-Answers_example :
    (b : Bool) × (lineage_has_cycle loop_graph 7 ≡ some b) × Answers loop_graph 7 b
lineage_has_cycle-Answers_example = lineage_has_cycle-Answers loop_graph 7

loop_descendants : descendant_pids loop_graph 42 ≡ some (7 ∷ 42 ∷ [])
unfolding descendant_pids
loop_descendants = refl

descendant_pids-Reaches_example :
    (l : List ℕ) × (descendant_pids loop_graph 42 ≡ some l)
    × ((n : ℕ) → In n l ↔ (Reaches loop_graph 42 n × (contains_key n loop_graph.processes ≡ true)))
descendant_pids-Reaches_example = descendant_pids-Reaches loop_graph 42

abbrev controller : ProcessIdentity
controller = record browser { pid = 7 }

fingerprint_process_set_lem_example :
    fingerprint_process_set (browser ∷ controller ∷ [])
    ≡ fingerprint_process_set (controller ∷ browser ∷ [])
fingerprint_process_set_lem_example =
    fingerprint_process_set_lem (browser ∷ controller ∷ []) (controller ∷ browser ∷ [])
      (Permᴰ.swap refl refl)
