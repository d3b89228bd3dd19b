-- ===== src/Daemon/Cooling/Unbroken.antt =====
-- crates/unlinger-daemon/src/store.rs: the lease on an incident, as a chain of observations without a gap.
use unlinger.Prelude.{
  leb-true, ℕ, ◌-◌, ◌+◌, ◌≤◌, ◌≡◌, ◌≢◌, refl, sym, subst, inl, inr, ltb, leb, Bool, true, false,
  ◌&&◌, not, Option, none, some, List, [], ◌∷◌, String, str_eq, eq_iff, arith, any, any_some, ok,
  In, In-keep_each, Bool-cases, Option-cases,
}
use unlinger.Core.Evidence.{IncidentReport}
use unlinger.Daemon.Cooling.Chain.{Spares, Unbroken, again, facts_of, first, row_facts, spared}
use unlinger.Daemon.Cooling.{
  CoolingClock, CoolingRow, CoolingStep, track, retain, delete, prune, clear, continues,
  lease_start, new_row, retain_cooling, delete_older, delete_row, same_facts, select_row,
  step_table, table_of, track_cooling, tracked_row, upsert, validate_tracking,
  wall_continuity_is_plausible,
}

five_true :
    (a b c d e : Bool)
    → (a && b && c && d && e) ≡ true
    → (a ≡ true) × (b ≡ true) × (c ≡ true) × (d ≡ true) × (e ≡ true)
five_true true true true true true h = (refl, refl, refl, refl, refl)
five_true true true true true false h = absurd (cc)
five_true true true true false e h = absurd (cc)
five_true true true false d e h = absurd (cc)
five_true true false c d e h = absurd (cc)
five_true false b c d e h = absurd (cc)

six_true :
    (a b c d e f : Bool)
    → (a && b && c && d && e && f) ≡ true
    → (a ≡ true) × (b ≡ true) × (c ≡ true) × (d ≡ true) × (e ≡ true) × (f ≡ true)
six_true true true true true true true h = (refl, refl, refl, refl, refl, refl)
six_true true true true true true false h = absurd (cc)
six_true true true true true false f h = absurd (cc)
six_true true true true false e f h = absurd (cc)
six_true true true false d e f h = absurd (cc)
six_true true false c d e f h = absurd (cc)
six_true false b c d e f h = absurd (cc)

monus_bound : (t l gap : ℕ) → t - l ≤ gap → t ≤ l + gap
monus_bound t l gap h = omega (arith, h)

elapsed_bound : (start now grace : ℕ) → start ≤ now → grace ≤ now - start → start + grace ≤ now
elapsed_bound start now grace h k = omega (arith, h, k)

module _ (gap : ℕ) where
  -- What a row of the table records.
  record Leased (h : List CoolingStep) (row : CoolingRow) : Type 0 where
    pub chain :
        Unbroken gap
          (row_facts row)
          h
          row.first_continuous_ms
          row.last_continuous_ms
          row.last_wall_ms
    pub ordered : row.first_continuous_ms ≤ row.last_continuous_ms

  spared_row :
      (s : CoolingStep) (h : List CoolingStep) (row : CoolingRow)
      → Spares row.tracking_key row.last_wall_ms s
      → Leased h row
      → Leased (s ∷ h) row
  spared_row s h row sp l = record {
    chain = spared s h row.first_continuous_ms row.last_continuous_ms row.last_wall_ms sp l.chain;
    ordered = l.ordered;
  }

  -- The tests of `continues`, on the texts and on both clocks.
  same_facts-eq :
      (row : CoolingRow) (r : IncidentReport) (c : CoolingClock)
      → row.tracking_key ≡ r.tracking_key
      → same_facts row r c ≡ true
      → facts_of r c ≡ row_facts row
  unfolding same_facts
  same_facts-eq row r c key e =
      let (a, b, d, f, g, i) =
        six_true (str_eq row.root_identity_fingerprint r.root.identity_fingerprint)
          (str_eq row.member_fingerprint r.member_fingerprint)
          (str_eq row.boot_session_fingerprint c.boot_session_fingerprint)
          (str_eq row.enforcement_epoch c.enforcement_epoch)
          (str_eq row.signature_pack r.signature_pack)
          (str_eq row.signature_version r.signature_version) e in
      cc (
        key,
        (eq_iff row.root_identity_fingerprint r.root.identity_fingerprint).0 a,
        (eq_iff row.member_fingerprint r.member_fingerprint).0 b,
        (eq_iff row.boot_session_fingerprint c.boot_session_fingerprint).0 d,
        (eq_iff row.enforcement_epoch c.enforcement_epoch).0 f,
        (eq_iff row.signature_pack r.signature_pack).0 g,
        (eq_iff row.signature_version r.signature_version).0 i,
      )

  record Continued (row : CoolingRow) (r : IncidentReport) (c : CoolingClock) : Type 0 where
    facts : same_facts row r c ≡ true
    later : row.last_continuous_ms ≤ c.continuous_millis
    soon : c.continuous_millis ≤ row.last_continuous_ms + gap
    wall_later : row.last_wall_ms ≤ c.wall_unix_millis
    not_ahead :
        c.wall_unix_millis + row.last_continuous_ms ≤ row.last_wall_ms + c.continuous_millis + gap
    not_behind :
        row.last_wall_ms + c.continuous_millis ≤ c.wall_unix_millis + row.last_continuous_ms + gap

  plausible_bounds :
      (w v t l : ℕ)
      → wall_continuity_is_plausible w v t l gap ≡ true
      → (w + l ≤ v + t + gap) × (v + t ≤ w + l + gap)
  unfolding wall_continuity_is_plausible
  plausible_bounds w v t l e = ground (arith, e)

  continues-Continued :
      (row : CoolingRow) (r : IncidentReport) (c : CoolingClock)
      → continues row r c gap ≡ true
      → Continued row r c
  unfolding continues
  continues-Continued row r c e =
      let (a, later, wall_later, soon, plausible) =
        five_true (same_facts row r c) (leb row.last_continuous_ms c.continuous_millis)
          (leb row.last_wall_ms c.wall_unix_millis)
          (leb (c.continuous_millis - row.last_continuous_ms) gap)
          (wall_continuity_is_plausible c.wall_unix_millis row.last_wall_ms c.continuous_millis
            row.last_continuous_ms gap)
          e in
      let (ahead, behind) =
        plausible_bounds c.wall_unix_millis row.last_wall_ms c.continuous_millis
          row.last_continuous_ms plausible in
      record {
        facts = a;
        later = leb-true _ _ later;
        soon = monus_bound c.continuous_millis row.last_continuous_ms gap (leb-true _ _ soon);
        wall_later = leb-true _ _ wall_later;
        not_ahead = ahead;
        not_behind = behind;
      }

  -- The row that an accepted observation writes.
  tracked_row-Leased :
      (h : List CoolingStep) (r : IncidentReport) (c : CoolingClock) (grace : ℕ)
      (old : Option CoolingRow)
      → validate_tracking r c ≡ none
      → ((row : CoolingRow) → old ≡ some row → Leased h row × (row.tracking_key ≡ r.tracking_key))
      → Leased (track r c grace ∷ h) (new_row (lease_start old r c gap) r c)
  tracked_row-Leased h r c grace none valid known = record {
    chain = first r c grace h valid refl;
    ordered = omega arith;
  }
  tracked_row-Leased h r c grace (some row) valid known =
      elim (Bool-cases (continues row r c gap)) [
        | inr broken ↦
            rw broken (record { chain = first r c grace h valid refl; ordered = omega arith })
        | inl kept ↦
            let (l, key) = known row refl in
            let k = continues-Continued row r c kept in
            rw kept (record {
              chain =
                  again r c grace h row.first_continuous_ms row.last_continuous_ms row.last_wall_ms
                    valid refl
                    (subst
                      (λ f.
                        Unbroken gap f h row.first_continuous_ms row.last_continuous_ms
                          row.last_wall_ms)
                      (sym (same_facts-eq row r c key k.facts)) l.chain)
                    k.later k.soon k.wall_later k.not_ahead k.not_behind;
              ordered = omega (arith, l.ordered, k.later);
            })
      ]

  select_row-In :
      (key : String) (table : List CoolingRow) (row : CoolingRow)
      → select_row key table ≡ some row
      → In row table × (row.tracking_key ≡ key)
  unfolding select_row
  select_row-In key [] row e = absurd (cc)
  select_row-In key (x ∷ xs) row e = elim (Bool-cases (str_eq x.tracking_key key)) [
    | inl hit ↦
        let same : x ≡ row = cc (rw (hit, select_row) at e) in
        (
          inl (sym same),
          subst (λ (y : CoolingRow). y.tracking_key ≡ key) same ((eq_iff x.tracking_key key).0 hit),
        )
    | inr miss ↦ let (i, k) = select_row-In key xs row (rw (miss, select_row) at e) in (inr i, k)
  ]

  other_key : (a b : String) → not (str_eq a b) ≡ true → a ≢ b
  other_key a b e same = absurd (cc ((eq_iff a b).1 same, e))

  -- Each row of the table of a history, with the lease it records.
  table_of-Leased :
      (h : List CoolingStep) (row : CoolingRow) → In row (table_of gap h) → Leased h row
  unfolding table_of step_table upsert retain_cooling delete_row delete_older
  table_of-Leased [] row i = absurd i
  table_of-Leased (retain keys ∷ h) row i =
      let (j, hit) = In-keep_each (λ x. any (str_eq x.tracking_key) keys) (table_of gap h) row i in
      let (key, k, same) = any_some (str_eq row.tracking_key) keys hit in
      spared_row (retain keys) h row
        (subst (λ x. In x keys) (sym ((eq_iff row.tracking_key key).0 same)) k)
        (table_of-Leased h row j)
  table_of-Leased (delete key ∷ h) row i =
      let (j, hit) = In-keep_each (λ x. not (str_eq x.tracking_key key)) (table_of gap h) row i in
      spared_row (delete key) h row (other_key row.tracking_key key hit) (table_of-Leased h row j)
  table_of-Leased (prune cutoff ∷ h) row i =
      let (j, hit) = In-keep_each (λ x. not (ltb x.last_wall_ms cutoff)) (table_of gap h) row i in
      spared_row (prune cutoff) h row (ground (arith, hit)) (table_of-Leased h row j)
  table_of-Leased (clear ∷ h) row i = absurd i
  table_of-Leased (track r c grace ∷ h) row i =
      let table = table_of gap h in
      elim (Option-cases (validate_tracking r c)) [
        | inr (e, bad) ↦
            spared_row (track r c grace) h row (inr (e, bad))
              (table_of-Leased h row (rw (bad, track_cooling) at i))
        | inl valid ↦
            let j : In row (upsert (tracked_row table r c gap) table) =
              rw (valid, track_cooling) at i in
            elim j [
              | inl new ↦ rw new (
                  tracked_row-Leased h r c grace (select_row r.tracking_key table) valid
                    (λ old found.
                      let (k, key) = select_row-In r.tracking_key table old found in
                      (table_of-Leased h old k, key)))
              | inr kept ↦
                  let (k, hit) =
                    In-keep_each (λ x. not (str_eq x.tracking_key r.tracking_key)) table row kept in
                  spared_row (track r c grace) h row
                    (inl (λ same. other_key row.tracking_key r.tracking_key hit (sym same)))
                    (table_of-Leased h row k)
            ]
      ]

  -- An observation is told that the grace has elapsed only at the end of an unbroken chain of accepted
  -- observations under one key, of one root, with one set of members, in one boot and one epoch and
  -- under one signature, no step longer than the gap on the continuous clock nor further than it off
  -- on the wall clock, and whose first was made at least the grace ago on the continuous clock.
  pub track_cooling-Unbroken :
      (h : List CoolingStep) (r : IncidentReport) (c : CoolingClock) (grace : ℕ)
      (table : List CoolingRow)
      → track_cooling (table_of gap h) r c grace gap ≡ ok (true, table)
      → (start : ℕ) × Unbroken gap
          (facts_of r c)
          (track r c grace ∷ h)
          start
          c.continuous_millis
          c.wall_unix_millis
        × (start + grace ≤ c.continuous_millis)
  unfolding track_cooling tracked_row
  track_cooling-Unbroken h r c grace table e =
      let before = table_of gap h in
      let row = tracked_row before r c gap in
      elim (Option-cases (validate_tracking r c)) [
        | inr (bad, refused) ↦ absurd (cc (rw (refused, track_cooling) at e))
        | inl valid ↦
            let l =
              tracked_row-Leased h r c grace (select_row r.tracking_key before) valid (λ old found.
                let (k, key) = select_row-In r.tracking_key before old found in
                (table_of-Leased h old k, key)) in
            let elapsed : leb grace (c.continuous_millis - row.first_continuous_ms) ≡ true =
              cc (rw (valid, track_cooling) at e) in
            (
              row.first_continuous_ms,
              l.chain,
              elapsed_bound row.first_continuous_ms c.continuous_millis grace l.ordered
                  (leb-true _ _ elapsed),
            )
      ]
