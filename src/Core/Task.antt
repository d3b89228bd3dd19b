-- ===== src/Core/Task.antt =====
-- crates/unlinger-core/src/task.rs: task owners, session owners, and the names of their sessions.
-- A `&str` that is looked into is the list of its bytes.
pub mod Names
pub mod Owners
use unlinger.Prelude.{
  ℕ, Bool, true, false, ◌&&◌, ◌||◌, not, Option, none, some, List, [], ◌∷◌, ◌++◌, String, ltb, leb,
  ◌==◌, all, is_empty, is_some, length, bytes, if◌then◌else◌,
}
use unlinger.Core.Model.{ProcessIdentity, ProcessRecord, pid_of, exact_match}
use unlinger.Core.Fingerprint.{fingerprint_parts}

pub record TaskOwnerIdentity : Type 0 where
  pub pid : ℕ
  pub started_at_unix_micros : ℕ
  pub uid : ℕ

unfoldable pub from_process : ProcessRecord → Option TaskOwnerIdentity
from_process p =
    if ltb 1 (pid_of p) && ltb 0 p.identity.started_at_unix_micros && not (p.uid == 0)
    then some (record {
      pid = pid_of p;
      started_at_unix_micros = p.identity.started_at_unix_micros;
      uid = p.uid;
    })
    else none

-- `TaskOwnerIdentity::matches`.
unfoldable pub owner_matches : TaskOwnerIdentity → ProcessRecord → Bool
owner_matches o p =
    o.pid == pid_of p
    && o.started_at_unix_micros == p.identity.started_at_unix_micros
    && o.uid == p.uid

pub record TaskControllerBinding : Type 0 where
  pub task_id : List ℕ
  pub controller : ProcessIdentity
  pub released : Bool

unfoldable pub ordinary_selector_fingerprint : List ℕ → List ℕ → String
unfolding fingerprint_parts
ordinary_selector_fingerprint registry_namespace session_name =
    fingerprint_parts (bytes "pw-cli" ∷ registry_namespace ∷ session_name ∷ [])

pub record SessionOwnerBinding : Type 0 where
  pub lease_id : List ℕ
  pub selector_fingerprint : String
  pub session_name : List ℕ
  pub controller_version : String
  pub controller : ProcessIdentity
  pub released : Bool

unfoldable pub binds : SessionOwnerBinding → ProcessRecord → Bool
unfolding exact_match
binds b p = exact_match b.controller p.identity

abbrev pub is_ascii_digit : ℕ → Bool
is_ascii_digit b = leb b'0' b && leb b b'9'

abbrev pub is_ascii_alphanumeric : ℕ → Bool
is_ascii_alphanumeric b = is_ascii_digit b || leb b'a' b && leb b b'z' || leb b'A' b && leb b b'Z'

abbrev pub is_lower_hex : ℕ → Bool
is_lower_hex b = is_ascii_digit b || leb b'a' b && leb b b'f'

unfoldable pub valid_task_id : List ℕ → Bool
valid_task_id value = length value == 32 && all is_lower_hex value

abbrev pub session_prefix : List ℕ
session_prefix = bytes "unlinger-"

unfoldable pub session_name_from_id : List ℕ → List ℕ
session_name_from_id id = session_prefix ++ id

-- `str::strip_prefix`.
unfoldable pub strip_prefix : List ℕ → List ℕ → Option (List ℕ)
strip_prefix [] value = some value
strip_prefix (p ∷ ps) [] = none
strip_prefix (p ∷ ps) (b ∷ bs) = if b == p then strip_prefix ps bs else none

abbrev keep_valid : Option (List ℕ) → Option (List ℕ)
keep_valid none = none
keep_valid (some id) = if valid_task_id id then some id else none

unfoldable pub task_id_from_session : List ℕ → Option (List ℕ)
unfolding strip_prefix
task_id_from_session value = keep_valid (strip_prefix session_prefix value)

abbrev pub is_name_byte : ℕ → Bool
is_name_byte b = is_ascii_alphanumeric b || b == b'-' || b == b'_' || b == b'.'

unfoldable pub valid_ordinary_session_name : List ℕ → Bool
unfolding strip_prefix
valid_ordinary_session_name value =
    not (is_empty value)
    && leb (length value) 64
    && not (is_some (strip_prefix session_prefix value))
    && all is_name_byte value

unfoldable pub valid_registry_namespace : List ℕ → Bool
valid_registry_namespace value = length value == 16 && all is_lower_hex value
