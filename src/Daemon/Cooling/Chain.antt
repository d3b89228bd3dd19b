-- ===== src/Daemon/Cooling/Chain.antt =====
-- crates/unlinger-daemon/src/store.rs: a lease as a chain of observations.
use unlinger.Prelude.{ℕ, ◌+◌, ◌≤◌, ◌≡◌, ◌≢◌, ◌⊎◌, none, some, List, ◌∷◌, String, In}
use unlinger.Core.Evidence.{IncidentReport}
use unlinger.Daemon.Cooling.{
  CoolingClock, CoolingRow, CoolingStep, track, retain, delete, prune, clear, StoreError,
  validate_tracking,
}

-- What identifies the incident that a lease is on.
pub record LeaseFacts : Type 0 where
  pub tracking_key : String
  pub root_identity_fingerprint : String
  pub member_fingerprint : String
  pub boot_session_fingerprint : String
  pub enforcement_epoch : String
  pub signature_pack : String
  pub signature_version : String

abbrev pub facts_of : IncidentReport → CoolingClock → LeaseFacts
facts_of r c = record {
  tracking_key = r.tracking_key;
  root_identity_fingerprint = r.root.identity_fingerprint;
  member_fingerprint = r.member_fingerprint;
  boot_session_fingerprint = c.boot_session_fingerprint;
  enforcement_epoch = c.enforcement_epoch;
  signature_pack = r.signature_pack;
  signature_version = r.signature_version;
}

abbrev pub row_facts : CoolingRow → LeaseFacts
row_facts row = record {
  tracking_key = row.tracking_key;
  root_identity_fingerprint = row.root_identity_fingerprint;
  member_fingerprint = row.member_fingerprint;
  boot_session_fingerprint = row.boot_session_fingerprint;
  enforcement_epoch = row.enforcement_epoch;
  signature_pack = row.signature_pack;
  signature_version = row.signature_version;
}

-- A step that leaves the lease on a key as it is.
abbrev pub Spares : String → ℕ → CoolingStep → Type 0
Spares key last_wall (track r c grace) =
    (r.tracking_key ≢ key) ⊎ ((e : StoreError) × (validate_tracking r c ≡ some e))
Spares key last_wall (retain keys) = In key keys
Spares key last_wall (delete other) = key ≢ other
Spares key last_wall (prune cutoff) = cutoff ≤ last_wall
Spares key last_wall clear = ⊥

-- Observations of one incident in a history, the newest first: from the first time to the last, with
-- nothing in between that ends the lease, no step longer than the gap on the continuous clock, and the
-- wall clock within the gap of it at each step.
pub data Unbroken (gap : ℕ) (f : LeaseFacts) : List CoolingStep → ℕ → ℕ → ℕ → Type 0 where
  first :
      (r : IncidentReport) (c : CoolingClock) (grace : ℕ) (h : List CoolingStep)
      → validate_tracking r c ≡ none
      → facts_of r c ≡ f
      → Unbroken gap f
          (track r c grace ∷ h)
          c.continuous_millis
          c.continuous_millis
          c.wall_unix_millis
  again :
      (r : IncidentReport) (c : CoolingClock) (grace : ℕ) (h : List CoolingStep)
      (start last wall : ℕ)
      → validate_tracking r c ≡ none
      → facts_of r c ≡ f
      → Unbroken gap f h start last wall
      → last ≤ c.continuous_millis
      → c.continuous_millis ≤ last + gap
      → wall ≤ c.wall_unix_millis
      → c.wall_unix_millis + last ≤ wall + c.continuous_millis + gap
      → wall + c.continuous_millis ≤ c.wall_unix_millis + last + gap
      → Unbroken gap f (track r c grace ∷ h) start c.continuous_millis c.wall_unix_millis
  spared :
      (s : CoolingStep) (h : List CoolingStep) (start last wall : ℕ)
      → Spares f.tracking_key wall s
      → Unbroken gap f h start last wall
      → Unbroken gap f (s ∷ h) start last wall
