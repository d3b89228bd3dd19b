-- ===== src/Daemon/Engine/Lease.antt =====
-- crates/unlinger-daemon/src/engine.rs: what a cycle has seen of the incident that it starts to clean.
use unlinger.Prelude.{
  ℕ, ◌+◌, ◌≤◌, ◌≡◌, refl, sym, ap, subst, inl, inr, Bool, true, false, List, [], ◌∷◌, ◌++◌, String,
  if◌then◌else◌, ok, In, Bool-cases, Result-cases,
}
use unlinger.Core.Evidence.{IncidentReport}
use unlinger.Daemon.Cooling.{
  CoolingClock, CoolingRow, CoolingStep, track, table_of, step_table, track_cooling,
}
use unlinger.Daemon.Cooling.Unbroken.{track_cooling-Unbroken}
use unlinger.Daemon.Cooling.Chain.{Unbroken, facts_of}
use unlinger.Daemon.Engine.{add_key, is_cooling, track_reports}

-- The history after the reports that are cooling are tracked in their order.
abbrev pub steps_of : List IncidentReport → CoolingClock → ℕ → List CoolingStep → List CoolingStep
steps_of [] c grace h = h
steps_of (r ∷ rs) c grace h = steps_of rs c grace (if is_cooling r then track r c grace ∷ h else h)

-- The lease that confirms a key: one of the reports with this key is tracked at the end of an unbroken chain.
pub record Lease (grace gap : ℕ) (h : List CoolingStep) (rs : List IncidentReport)
    (c : CoolingClock) (key : String) : Type 0 where
  pub tracked : IncidentReport
  pub before : List IncidentReport
  pub after : List IncidentReport
  pub start : ℕ
  pub is_tracked : rs ≡ before ++ tracked ∷ after
  pub is_key : tracked.tracking_key ≡ key
  pub chain :
      Unbroken gap
        (facts_of tracked c)
        (track tracked c grace ∷ steps_of before c grace h)
        start
        c.continuous_millis
        c.wall_unix_millis
  pub elapsed : start + grace ≤ c.continuous_millis

module _ (grace gap : ℕ) (c : CoolingClock) where
  later_Lease :
      (h : List CoolingStep) (r : IncidentReport) (rs : List IncidentReport) (key : String)
      → Lease grace gap (if is_cooling r then track r c grace ∷ h else h) rs c key
      → Lease grace gap h (r ∷ rs) c key
  later_Lease h r rs key l = record {
    tracked = l.tracked;
    before = r ∷ l.before;
    after = l.after;
    start = l.start;
    is_tracked = ap (λ xs. r ∷ xs) l.is_tracked;
    is_key = l.is_key;
    chain = l.chain;
    elapsed = l.elapsed;
  }

  tracked_table :
      (h : List CoolingStep) (r : IncidentReport) (elapsed : Bool) (table : List CoolingRow)
      → track_cooling (table_of gap h) r c grace gap ≡ ok (elapsed, table)
      → table ≡ table_of gap (track r c grace ∷ h)
  unfolding table_of step_table
  tracked_table h r elapsed table e = rw e refl

  pub record Tracked (h : List CoolingStep) (rs : List IncidentReport) (keys : List String)
      (table : List CoolingRow) : Type 0 where
    pub is_table : table ≡ table_of gap (steps_of rs c grace h)
    pub leases : (key : String) → In key keys → Lease grace gap h rs c key

  -- What the key of a tracked report adds.
  add_key-Tracked :
      (h : List CoolingStep) (r : IncidentReport) (rs : List IncidentReport) (elapsed : Bool)
      (middle : List CoolingRow) (keys : List String) (table : List CoolingRow)
      → is_cooling r ≡ true
      → track_cooling (table_of gap h) r c grace gap ≡ ok (elapsed, middle)
      → Tracked (track r c grace ∷ h) rs keys table
      → Tracked h (r ∷ rs) (add_key elapsed r.tracking_key keys) table
  add_key-Tracked h r rs false middle keys table cold e t = record {
    is_table = rw cold t.is_table;
    leases = λ key i. later_Lease h r rs key (rw cold (t.leases key i));
  }
  add_key-Tracked h r rs true middle keys table cold e t = record {
    is_table = rw cold t.is_table;
    leases = λ key i. elim i [
      | inr later ↦ later_Lease h r rs key (rw cold (t.leases key later))
      | inl same ↦
          let (start, chain, elapsed) = track_cooling-Unbroken gap h r c grace middle e in
          record {
            tracked = r;
            before = [];
            after = rs;
            start = start;
            is_tracked = refl;
            is_key = sym same;
            chain = chain;
            elapsed = elapsed;
          }
    ];
  }

  pub track_reports-Tracked :
      (h : List CoolingStep) (rs : List IncidentReport) (keys : List String)
      (table : List CoolingRow)
      → track_reports grace gap (table_of gap h) rs c ≡ ok (keys, table)
      → Tracked h rs keys table
  unfolding track_reports
  track_reports-Tracked h [] keys table e =
      let t : table_of gap h ≡ table = cc (e) in
      let k : [] ≡ keys = cc (e) in
      record { is_table = sym t; leases = λ key i. absurd (subst (In key) (sym k) i) }
  track_reports-Tracked h (r ∷ rs) keys table e = elim (Bool-cases (is_cooling r)) [
    | inr warm ↦
        let t = track_reports-Tracked h rs keys table (rw (warm, track_reports) at e) in
        record {
          is_table = rw warm t.is_table;
          leases = λ key i. later_Lease h r rs key (rw warm (t.leases key i));
        }
    | inl cold ↦ elim (Result-cases (track_cooling (table_of gap h) r c grace gap)) [
      | inr (x, bad) ↦ absurd (cc (rw (cold, bad, track_reports) at e))
      | inl ((elapsed, middle), good) ↦
          let next = tracked_table h r elapsed middle good in
          elim (Result-cases (track_reports grace gap middle rs c)) [
            | inr (x, bad) ↦ absurd (cc (rw (cold, good, bad, track_reports) at e))
            | inl ((more, final), done) ↦
                let k : add_key elapsed r.tracking_key more ≡ keys =
                  cc (rw (cold, good, done, track_reports) at e) in
                let f : final ≡ table = cc (rw (cold, good, done, track_reports) at e) in
                subst (λ x. Tracked h (r ∷ rs) x table) k
                  (subst (λ x. Tracked h (r ∷ rs) (add_key elapsed r.tracking_key more) x) f
                    (add_key-Tracked h r rs elapsed middle more final cold good (
                      track_reports-Tracked (track r c grace ∷ h) rs more final (rw next at done))))
          ]
    ]
  ]
