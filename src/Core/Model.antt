-- ===== src/Core/Model.antt =====
-- crates/unlinger-core/src/model.rs: process identities, records and table snapshots.
-- Unsigned integers are native numbers; text is the native String.
use unlinger.Prelude.{
  ℕ, ℤ, ◌≡◌, ◌↔◌, Bool, true, ◌&&◌, Option, List, String, arith, ltb, ◌==◌, is_some, option_eq,
  option_eq_iff, all, length,
}

pub record ExecutableIdentity : Type 0 where
  pub device : Option ℕ
  pub inode : Option ℕ
  pub size : Option ℕ
  pub modified_unix_nanos : Option ℤ

unfoldable pub is_complete : ExecutableIdentity → Bool
is_complete e = is_some e.device && is_some e.inode

pub record ProcessIdentity : Type 0 where
  pub pid : ℕ
  pub started_at_unix_micros : ℕ
  pub executable_device : Option ℕ
  pub executable_inode : Option ℕ

-- The derived `==`.
unfoldable pub identity_eq : ProcessIdentity → ProcessIdentity → Bool
identity_eq a b =
    a.pid == b.pid
    && a.started_at_unix_micros == b.started_at_unix_micros
    && option_eq a.executable_device b.executable_device
    && option_eq a.executable_inode b.executable_inode

unfoldable pub exact_match : ProcessIdentity → ProcessIdentity → Bool
unfolding identity_eq
exact_match a b = identity_eq a b && is_some a.executable_device && is_some a.executable_inode

pub data ProcessStatus : Type 0 where
  running sleeping stopped zombie : ProcessStatus
  other : ℕ → ProcessStatus

pub record AppBundleVersion : Type 0 where
  pub bundle_id : String
  pub short_version : String

pub record PlaywrightCliRuntime : Type 0 where
  pub session_name : String
  pub version : String
  pub persistent : Bool
  pub attached : Bool
  pub selector_fingerprint : Option String

pub record ProcessRuntimeFacts : Type 0 where
  pub cpu_total_nanos : ℕ
  pub open_file_descriptors : ℕ
  pub descriptor_facts_complete : Bool
  pub debug_transport_facts_complete : Bool
  pub tcp_listening_ports : List ℕ
  pub tcp_established_local_ports : List ℕ
  pub connected_unix_sockets : ℕ
  pub attached_debug_transport : Bool
  pub app_bundle : Option AppBundleVersion
  pub crashpad_bundle : Option AppBundleVersion
  pub task_session_name : Option String
  pub task_session_facts_complete : Bool
  pub unix_socket_fingerprints : List String
  pub connected_named_unix_socket_fingerprints : List String
  pub playwright_cli : Option PlaywrightCliRuntime

pub record ProcessRecord : Type 0 where
  pub identity : ProcessIdentity
  pub parent_pid : ℕ
  pub process_group_id : ℕ
  pub uid : ℕ
  pub tty_device : Option ℕ
  pub name : String
  pub executable_path : Option String
  pub executable : ExecutableIdentity
  pub arguments : Option (List String)
  pub resident_memory_bytes : ℕ
  pub status : ProcessStatus
  pub runtime : ProcessRuntimeFacts

-- `ProcessRecord::pid`.
abbrev pub pid_of : ProcessRecord → ℕ
pid_of p = p.identity.pid

unfoldable pub has_complete_classification_facts : ProcessRecord → Bool
unfolding is_complete
has_complete_classification_facts p =
    is_some p.executable_path
    && is_some p.arguments
    && is_complete p.executable
    && is_some p.identity.executable_device
    && is_some p.identity.executable_inode

pub record SnapshotCoverage : Type 0 where
  pub listed_processes : ℕ
  pub inspected_processes : ℕ
  pub unreadable_processes : ℕ
  pub arguments_unavailable : ℕ
  pub executable_identity_unavailable : ℕ
  pub executable_path_unavailable : ℕ
  pub executable_path_missing_without_errno : ℕ
  pub executable_vnode_unavailable : ℕ
  pub descriptor_facts_unavailable : ℕ

pub record Snapshot : Type 0 where
  pub observed_at_unix_millis : ℕ
  pub current_uid : ℕ
  pub processes : List ProcessRecord
  pub coverage : SnapshotCoverage

-- The test that `proves_complete_exact_identity_coverage` makes of each process.
abbrev pub has_exact_identity : ProcessRecord → Bool
has_exact_identity p =
    ltb 0 p.identity.started_at_unix_micros
    && is_some p.identity.executable_device
    && is_some p.identity.executable_inode

unfoldable pub proves_complete_exact_identity_coverage : Snapshot → Bool
proves_complete_exact_identity_coverage s =
    s.coverage.listed_processes == s.coverage.inspected_processes
    && s.coverage.unreadable_processes == 0
    && s.coverage.executable_identity_unavailable == 0
    && length s.processes == s.coverage.inspected_processes
    && all has_exact_identity s.processes

unfoldable pub proves_complete_classification_coverage : Snapshot → Bool
unfolding proves_complete_exact_identity_coverage has_complete_classification_facts
proves_complete_classification_coverage s =
    proves_complete_exact_identity_coverage s
    && s.coverage.arguments_unavailable == 0
    && all has_complete_classification_facts s.processes

-- The derived `==` decides equality.
pub identity_eq_iff : (a b : ProcessIdentity) → (identity_eq a b ≡ true) ↔ (a ≡ b)
unfolding identity_eq
identity_eq_iff a b = ground (
  arith,
  option_eq_iff a.executable_device b.executable_device,
  option_eq_iff a.executable_inode b.executable_inode,
)

-- An exact match is the same identity, in all its fields.
pub exact_match-eq : (a b : ProcessIdentity) → exact_match a b ≡ true → a ≡ b
unfolding exact_match identity_eq
exact_match-eq a b h = ground (arith, identity_eq_iff a b)
