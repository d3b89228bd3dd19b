-- ===== src/Daemon/Cooling.antt =====
-- crates/unlinger-daemon/src/store.rs: the table `cooling_candidates` and its operations.
-- The table is a list of rows in no order, one for a tracking key. Times are those that the operations
-- write, so they are not negative. Failures of the database itself are not modelled.
pub mod Chain
pub mod Unbroken
use unlinger.Prelude.{
  ℕ, ◌-◌, ◌+◌, ltb, leb, Bool, true, false, ◌&&◌, ◌||◌, not, Option, none, some, List, [], ◌∷◌,
  String, str_eq, any, find, keep, is_empty, if◌then◌else◌, Result, ok, err,
}
use unlinger.Core.State.{cooling, state_eq}
use unlinger.Core.Evidence.{IncidentReport}
use unlinger.Rules.Text.{trim}

pub record CoolingClock : Type 0 where
  pub wall_unix_millis : ℕ
  pub continuous_millis : ℕ
  pub boot_session_fingerprint : String
  pub enforcement_epoch : String

pub record CoolingRow : Type 0 where
  pub tracking_key : String
  pub first_continuous_ms : ℕ
  pub last_continuous_ms : ℕ
  pub first_wall_ms : ℕ
  pub last_wall_ms : ℕ
  pub root_identity_fingerprint : String
  pub member_fingerprint : String
  pub boot_session_fingerprint : String
  pub enforcement_epoch : String
  pub signature_pack : String
  pub signature_version : String

pub data StoreError : Type 0 where
  invalid range : StoreError

-- `i64::MAX`.
abbrev pub i64_max : ℕ
i64_max = 9223372036854775807

unfoldable pub sqlite_millis : ℕ → Result StoreError ℕ
sqlite_millis value = if leb value i64_max then ok value else err range

-- `u64::abs_diff`.
abbrev pub abs_diff : ℕ → ℕ → ℕ
abs_diff m n = if ltb m n then n - m else m - n

-- The differences that are negative in the code are refused first.
unfoldable pub wall_continuity_is_plausible : ℕ → ℕ → ℕ → ℕ → ℕ → Bool
wall_continuity_is_plausible wall previous_wall continuous previous_continuous tolerance_millis =
    leb previous_wall wall
    && leb previous_continuous continuous
    && leb (abs_diff (wall - previous_wall) (continuous - previous_continuous)) tolerance_millis

-- The facts of a report and of a clock that a row has to repeat.
unfoldable pub same_facts : CoolingRow → IncidentReport → CoolingClock → Bool
same_facts row r c =
    str_eq row.root_identity_fingerprint r.root.identity_fingerprint
    && str_eq row.member_fingerprint r.member_fingerprint
    && str_eq row.boot_session_fingerprint c.boot_session_fingerprint
    && str_eq row.enforcement_epoch c.enforcement_epoch
    && str_eq row.signature_pack r.signature_pack
    && str_eq row.signature_version r.signature_version

-- The guard under which a row is continued.
unfoldable pub continues : CoolingRow → IncidentReport → CoolingClock → ℕ → Bool
unfolding same_facts wall_continuity_is_plausible
continues row r c gap =
    same_facts row r c
    && leb row.last_continuous_ms c.continuous_millis
    && leb row.last_wall_ms c.wall_unix_millis
    && leb (c.continuous_millis - row.last_continuous_ms) gap
    && wall_continuity_is_plausible c.wall_unix_millis row.last_wall_ms c.continuous_millis
        row.last_continuous_ms gap

-- The start of the lease: that of a row that is continued, or now.
abbrev pub lease_start : Option CoolingRow → IncidentReport → CoolingClock → ℕ → ℕ × ℕ
lease_start none r c gap = (c.continuous_millis, c.wall_unix_millis)
lease_start (some row) r c gap =
    if continues row r c gap
    then (row.first_continuous_ms, row.first_wall_ms)
    else (c.continuous_millis, c.wall_unix_millis)

abbrev pub new_row : ℕ × ℕ → IncidentReport → CoolingClock → CoolingRow
new_row start r c = record {
  tracking_key = r.tracking_key;
  first_continuous_ms = start.0;
  last_continuous_ms = c.continuous_millis;
  first_wall_ms = start.1;
  last_wall_ms = c.wall_unix_millis;
  root_identity_fingerprint = r.root.identity_fingerprint;
  member_fingerprint = r.member_fingerprint;
  boot_session_fingerprint = c.boot_session_fingerprint;
  enforcement_epoch = c.enforcement_epoch;
  signature_pack = r.signature_pack;
  signature_version = r.signature_version;
}

-- `SELECT .. WHERE tracking_key = ?1`.
unfoldable pub select_row : String → List CoolingRow → Option CoolingRow
select_row key table = find (λ row. str_eq row.tracking_key key) table

-- `INSERT .. ON CONFLICT(tracking_key) DO UPDATE`.
unfoldable pub upsert : CoolingRow → List CoolingRow → List CoolingRow
upsert row table = row ∷ keep (λ other. not (str_eq other.tracking_key row.tracking_key)) table

-- What is refused before the table is read.
unfoldable pub validate_tracking : IncidentReport → CoolingClock → Option StoreError
unfolding sqlite_millis trim
validate_tracking r c =
    if not (state_eq r.state cooling)
      || is_empty (trim c.boot_session_fingerprint)
      || is_empty (trim c.enforcement_epoch)
    then some invalid
    else elim (sqlite_millis c.wall_unix_millis) [
      | err e ↦ some e
      | ok wall ↦ elim (sqlite_millis c.continuous_millis) [ err e ↦ some e | ok now ↦ none ]
    ]

unfoldable pub tracked_row : List CoolingRow → IncidentReport → CoolingClock → ℕ → CoolingRow
unfolding select_row continues
tracked_row table r c gap = new_row (lease_start (select_row r.tracking_key table) r c gap) r c

-- `track_cooling`: whether the grace has elapsed, and the table.
unfoldable pub track_cooling :
    List CoolingRow
    → IncidentReport
    → CoolingClock
    → ℕ
    → ℕ
    → Result StoreError (Bool × List CoolingRow)
unfolding validate_tracking tracked_row upsert
track_cooling table r c grace gap = elim (validate_tracking r c) [
  | some e ↦ err e
  | none ↦
      let row = tracked_row table r c gap in
      ok (leb grace (c.continuous_millis - row.first_continuous_ms), upsert row table)
]

-- `retain_cooling`.
unfoldable pub retain_cooling : List CoolingRow → List String → List CoolingRow
retain_cooling table keys = keep (λ row. any (str_eq row.tracking_key) keys) table

-- `DELETE FROM cooling_candidates WHERE tracking_key = ?1`.
unfoldable pub delete_row : List CoolingRow → String → List CoolingRow
delete_row table key = keep (λ row. not (str_eq row.tracking_key key)) table

-- `DELETE FROM cooling_candidates WHERE last_wall_ms < ?1`.
unfoldable pub delete_older : List CoolingRow → ℕ → List CoolingRow
delete_older table cutoff = keep (λ row. not (ltb row.last_wall_ms cutoff)) table

-- The statements that change the table; a refused one changes nothing.
pub data CoolingStep : Type 0 where
  track : IncidentReport → CoolingClock → ℕ → CoolingStep
  retain : List String → CoolingStep
  delete : String → CoolingStep
  prune : ℕ → CoolingStep
  clear : CoolingStep

abbrev pub table_after :
    List CoolingRow → Result StoreError (Bool × List CoolingRow) → List CoolingRow
table_after table (ok (elapsed, table')) = table'
table_after table (err e) = table

unfoldable pub step_table : ℕ → List CoolingRow → CoolingStep → List CoolingRow
unfolding track_cooling retain_cooling delete_row delete_older
step_table gap table (track r c grace) = table_after table (track_cooling table r c grace gap)
step_table gap table (retain keys) = retain_cooling table keys
step_table gap table (delete key) = delete_row table key
step_table gap table (prune cutoff) = delete_older table cutoff
step_table gap table clear = []

-- The table after a history of steps, the newest first.
unfoldable pub table_of : ℕ → List CoolingStep → List CoolingRow
unfolding step_table
table_of gap [] = []
table_of gap (s ∷ h) = step_table gap (table_of gap h) s
