-- ===== src/Lib.antt =====
-- Unlinger finds the processes that an automated browser session left behind and reclaims them. A
-- daemon (crates/unlinger-daemon) observes the process table through the adapters of
-- crates/unlinger-macos, classifies it with crates/unlinger-rules, and hands a confirmed incident
-- to the cleanup executor of crates/unlinger-core. This library models that core: the incident's
-- states, the plan that is frozen from it, and the executor, which signals its processes and
-- removes its runtime artifacts; the process graph, the fingerprints and the task names they rest
-- on; the rules, which find sessions in a table of processes, classify them, and revalidate a
-- plan; and of the daemon the cycle that observes twice and starts a plan, the leases on incidents
-- that it keeps, the gate before each side effect, the scheduler and the policy of actions.
--
-- Prelude                     shared: Boolean tests (Tests), lists (Lists), `BTreeMap<u32, V>` as a
--                             sorted list of pairs (Maps), text as bytes and machine words (Words).
-- Core.Model                  crates/unlinger-core/src/model.rs: identities, records, snapshots.
-- Core.State                  crates/unlinger-core/src/state.rs: `IncidentState::transition`.
-- Core.Graph                  crates/unlinger-core/src/graph.rs: the index of a snapshot by pid
--                             and by parent (Index), the search down from a process (Descent), and the
--                             walks up from it (Lineage).
-- Core.Task                   crates/unlinger-core/src/task.rs: names of sessions (Names), owners
--                             of tasks (Owners).
-- Core.Evidence               crates/unlinger-core/src/evidence.rs: gates, targets, reports.
-- Core.Artifact               crates/unlinger-core/src/artifact.rs: candidates and dispositions.
-- Core.Fingerprint            crates/unlinger-core/src/fingerprint.rs: FNV-1a, and the order of rows
--                             (Order).
-- Core.Residue                crates/unlinger-core/src/storage_residue.rs: what a cleanup of storage
--                             records, and `StorageCleanupDisposition::parse`.
-- Core.Cleanup                crates/unlinger-core/src/cleanup.rs, by its parts:
--   Receipt                   actions, `CleanupReceipt` and its `outcome`;
--   Plan                      `CleanupPlan::from_confirmed`, `primary_targets`, and what the first has
--                             checked (FromConfirmed);
--   Runtime                   the traits `CleanupRuntime`, `CleanupActionJournal`,
--                             `IncidentRevalidator` and the stop callback, the policy, the errors;
--   Liveness                  `observe_exact_target_liveness`, `validate_stage`, `wait_interrupted`,
--                             `resource_snapshot`, `set_resource_after`, `fail`;
--   Signal                    `signal`, `complete_prepared`, `artifact_failure_reason`;
--   Removal                   `execute_artifact_action`, `complete_artifact_prepared`;
--   Execute                   `CleanupExecutor::execute`, a function for each stage;
--   History                   what a history of calls says, and the rules it is to keep;
--   Logic, Account            the proof rules, and the account of a run as predicates;
--   Validation, Signalling, Reconcile, Rounds, Loops, Closing, Opening
--                             the proofs for each part of the executor;
--   Guarantees                the statements on whole runs.
-- Rules                       crates/unlinger-rules/src/lib.rs, by its parts:
--   Text                      lower case, searches, `Path::file_name`, and
--                             `ProcessRecord::executable_basename` of crates/unlinger-core/src/model.rs;
--   Pack                      `SignaturePack`, its validation, `RuleSet::embedded`; Version has
--                             `parse_dotted_version`, with its bounds (Bounds);
--   Gate                      the gates on versions and ages, `browser_compatibility`; Supported
--                             has what they let through;
--   Matching, Candidates      the matchers of processes; `Analyzer::candidates`;
--   Roles                     `process_role`, and recorders left out of a session;
--   Ownership                 `Analyzer` and its context, `owned_task_controller`,
--                             `bound_session_owner`, `session_has_live_work`;
--   Classify, Evidence, Report
--                             `Analyzer::classify`: the facts, the protections and the state; the
--                             order of the evidence; the report. Checks, Released and
--                             Parents open the checks, Cooling puts them together;
--   Observe                   `observe`, `reconcile`, `reconcile_with_abandonment`; Seen has where a
--                             report comes from, Confirmed what a confirmed one rests on;
--   Revalidate                the analyzer as `IncidentRevalidator`; Frozen and Complete open
--                             its tests, Eligible and Gone its answers;
--   Signals                   the executor and the analyzer together.
-- Daemon                      crates/unlinger-daemon/src, by its parts:
--   Cooling                   store.rs: the table `cooling_candidates` and the statements on it;
--                             its leases are chains of observations (Chain, Unbroken);
--   Engine                    engine.rs: the observations of `run_cycle_inner`, the owner's
--                             protection, and the dispatch of a plan; Lease, Cycle and Dispatch
--                             have what lies behind a tracked key, a confirmed incident and a
--                             started plan;
--   Gated                     ipc.rs and engine.rs: the control plane's gate on side effects and
--                             `GatedRuntime`; Armed has the executor behind it;
--   Terminal                  engine.rs: `receipt_requires_global_fail_close`; FailClose says after
--                             which receipts the daemon goes on;
--   Policy                    public_action_policy.rs: `evaluate_action`; Allowed says when it allows;
--   Scheduler                 scheduler.rs: `wait_for_trigger` and the operations on the scheduler;
--                             Waking has how the wait ends.
-- Scenarios                   runs at concrete inputs; Tables has reports and process
--                             tables, Sessions names, Rules sessions, Cycles the daemon.
--
-- The executor changes a receipt and the outside world. Its parts are functions from a state, the
-- receipt and the history of calls made so far, to a state and either a value, a returned receipt,
-- or an error: `?` and `return` are the `exit` of `Flow`. The world is a parameter, an
-- `Environment`: each call (snapshot, lookup, clock, signal, wait, freeze, removal, the four
-- journal calls, the stop test) is answered by a function of the whole history, so that processes
-- may die, be replaced or multiply between any two calls, journals and clocks may fail at any
-- call, and a stop may come at any point. The revalidator is asked for its opinion of a snapshot,
-- and is a function of the snapshot, the plan and the phase. Nothing is assumed of any of them.
--
-- The executor, the analyzer, the control plane and the cycle meet in three places. The
-- revalidator of an environment may be the analyzer's `revalidate`. An environment may stand
-- behind the gate, whose state is a function of the history too: the control plane may change
-- between any two calls. And a cycle observes with the analyzer, tracks each cooling report in the
-- table, reconciles the two observations by the keys whose grace has elapsed, applies the owner's
-- protections, and freezes a plan of a confirmed report. The table's past is a history of
-- statements, the newest first, each with a report and a clock of its own; the gap is one for all
-- of them.
--
-- The loops of the executor run over lists that are given. The walks of the graph run on fuel: the
-- walks up on the number of processes and two more, since each turn but the last meets another
-- process of the table; the search down on the number of children and one, since each child is
-- queued once. The wait of the scheduler runs on fuel, as many turns as the deadline is away,
-- where the clock goes on from turn to turn; its instants are in nanoseconds. The other durations
-- are in milliseconds. The unsigned integers of the source are natural numbers: the memory total
-- saturates at 2^64 - 1 as in the source, the hash of a fingerprint wraps at 2^64, and the count
-- of revival checks, at most one for each window of the policy, is not bounded; the sum of a session's
-- resident memory wraps at 2^64, as in a build without overflow checks. A path is its
-- bytes, as is the text that task.rs looks into; `Path::components`, `str::trim`,
-- `char::is_whitespace` and UTF-8 are written out as the standard library documents them for Unix.
--
-- Not modelled: serialization, `Display` and `Debug`; the
-- TOML parser, which is an argument of `embedded`, and the catalog of supported browsers; of the
-- daemon the other tables of the store and the failures of its database, the worker threads, the
-- failures of the runtime and of the control plane in a cycle, the tool caches and the sockets;
-- the adapters, the protocol and the clients, which are other crates.
pub mod Prelude
pub mod Core
pub mod Rules
pub mod Daemon
pub mod Scenarios
