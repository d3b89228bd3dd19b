-- ===== src/Rules/Classify/Checks.antt =====
-- crates/unlinger-rules/src/lib.rs: the checks of a candidate's members, its profiles and the recorders
-- beside it, each with what holds where it raises nothing.
use unlinger.Prelude.{
  or_split, not-false, not_empty_In, ◌≡◌, ◌≢◌, ◌≤◌, refl, Bool, true, false, not, ◌&&◌, ◌||◌, none,
  ℕ, List, [], ◌∷◌, ◌++◌, arith, In, any, all, any_none, all_each, ◌==◌, ==_refl, is_empty, is_none,
  contains, unwrap_or,
}
use unlinger.Core.Model.{ProcessRecord, has_complete_classification_facts, pid_of}
use unlinger.Core.Graph.{ProcessGraph, lineage_has_cycle, has_unresolved_parent}
use unlinger.Rules.Text.{bytes_eq, normalize}
use unlinger.Rules.Matching.{args_contain_any, flag_value, headless_markers, matches_recorder}
use unlinger.Rules.Candidates.{Candidate, processes}
use unlinger.Rules.Ownership.{Analyzer}
use unlinger.Rules.Roles.{has_plausible_unjoined_recorder, outlives}
use unlinger.Rules.Classify.{
  Check, browser_roots, control_path_incomplete, has_browser_roots, has_debug_port, headless,
  is_here, is_self_or_ancestor, manual_cdp, member_checks, members, persistent_profile,
  profile_checks, profile_paths, raised, recorder_checks, same_user, shared_profile,
  standard_profile,
}

abbrev pub holds : Check → Bool
holds check = check.0

pub raised_none : (cs : List Check) → is_empty (raised cs) ≡ true → any holds cs ≡ false
unfolding raised
raised_none [] e = refl
raised_none ((true, id) ∷ cs) e = absurd (cc)
raised_none ((false, id) ∷ cs) e = raised_none cs e

pub quiet_append :
    (xs ys : List Check)
    → any holds (xs ++ ys) ≡ false
    → (any holds xs ≡ false) × (any holds ys ≡ false)
quiet_append [] ys e = (refl, e)
quiet_append (x ∷ xs) ys e =
    let rest = quiet_append xs ys (ground (arith, e)) in (ground (arith, e, rest.0), rest.1)

and_not_split : (x y : Bool) → (x && not y) ≡ false → x ≡ true → y ≡ true
and_not_split true true e h = refl
and_not_split true false e h = absurd (cc)
and_not_split false y e h = absurd (cc)

module _ (g : ProcessGraph) (c : Candidate) where
  -- What the checks of the members have passed.
  pub record MembersSafe (a : Analyzer) : Type 0 where
    pub own_user :
        (p : ProcessRecord)
        → In p (members g c)
        → (p.uid ≡ g.current_uid) × (p.uid ≢ 0) × (has_complete_classification_facts p ≡ true)
    pub no_system_pid : (contains c.member_pids 0 ≡ false) × (contains c.member_pids 1 ≡ false)
    pub not_self : (pid : ℕ) → In pid c.member_pids → is_self_or_ancestor g c a pid ≡ false
    pub rooted :
        (pid : ℕ)
        → In pid c.member_pids
        → (unwrap_or (lineage_has_cycle g pid) false ≡ false)
          × (has_unresolved_parent g pid ≡ false)

  same_user_each :
      (p : ProcessRecord)
      → same_user g c ≡ true
      → In p (members g c)
      → (p.uid ≡ g.current_uid) × (p.uid ≢ 0)
  unfolding same_user
  same_user_each p e i =
      let h = all_each (λ q. q.uid == g.current_uid && not (q.uid == 0)) (members g c) p e i in
      (ground (arith, h), λ z. ground (arith, h, z))

  pub member_checks-MembersSafe :
      (a : Analyzer) → any holds (member_checks g c a) ≡ false → MembersSafe a
  unfolding member_checks
  member_checks-MembersSafe a e =
      let (user, e1) = or_split _ _ e in
      let (system, e2) = or_split _ _ e1 in
      let (self, e3) = or_split _ _ e2 in
      let (cyclic, e4) = or_split _ _ e3 in
      let (unknown, e5) = or_split _ _ e4 in
      record {
        own_user = λ p i.
            let u = same_user_each p (not-false (same_user g c) user) i in
            (
              u.0,
              u.1,
              not-false (has_complete_classification_facts p) (
                  any_none (λ q. not (has_complete_classification_facts q)) (members g c) p unknown
                    i),
            );
        no_system_pid = or_split (contains c.member_pids 0) (contains c.member_pids 1) system;
        not_self = λ pid i. any_none (is_self_or_ancestor g c a) c.member_pids pid self i;
        rooted = λ pid i.
            or_split (unwrap_or (lineage_has_cycle g pid) false) (has_unresolved_parent g pid) (
              any_none (λ n. unwrap_or (lineage_has_cycle g n) false || has_unresolved_parent g n)
                c.member_pids pid cyclic i);
      }

  -- What the checks of the profiles have passed.
  pub record ProfilesSafe : Type 0 where
    pub not_standard : standard_profile g c ≡ false
    pub is_headless :
        (p : ProcessRecord) → In p (browser_roots g c) → args_contain_any p headless_markers ≡ true
    pub not_persistent : persistent_profile g c ≡ false
    pub not_manual : manual_cdp g c ≡ false
    pub not_shared :
        (profile : List ℕ) (p : ProcessRecord)
        → In profile (profile_paths g c)
        → In p (processes g)
        → contains c.member_pids (pid_of p) ≡ false
        → is_here
            (λ other. bytes_eq (normalize other) (normalize profile))
            (flag_value p "--user-data-dir")
          ≡ false
    pub no_peer :
        (p : ProcessRecord) → In p (browser_roots g c) → p.runtime.attached_debug_transport ≡ false
    pub peers_visible :
        (p : ProcessRecord)
        → In p (browser_roots g c)
        → has_debug_port g c ≡ true
        → p.runtime.debug_transport_facts_complete ≡ true

  headless_each :
      (p : ProcessRecord)
      → (has_browser_roots g c && not (headless g c)) ≡ false
      → In p (browser_roots g c)
      → args_contain_any p headless_markers ≡ true
  unfolding headless
  headless_each p e i =
      let there = not_empty_In p (browser_roots g c) i in
      let all_headless : all (λ q. args_contain_any q headless_markers) (browser_roots g c) ≡ true =
        ground (arith, there, and_not_split (has_browser_roots g c) (headless g c) e there) in
      all_each (λ q. args_contain_any q headless_markers) (browser_roots g c) p all_headless i

  -- A process that is not a member has the profile.
  abbrev shares : List ℕ → ProcessRecord → Bool
  shares profile p =
      not (contains c.member_pids (pid_of p))
      && is_here (λ other. bytes_eq (normalize other) (normalize profile))
          (flag_value p "--user-data-dir")

  shared_each :
      (profile : List ℕ) (p : ProcessRecord)
      → shared_profile g c ≡ false
      → In profile (profile_paths g c)
      → In p (processes g)
      → contains c.member_pids (pid_of p) ≡ false
      → is_here
          (λ other. bytes_eq (normalize other) (normalize profile))
          (flag_value p "--user-data-dir")
        ≡ false
  unfolding shared_profile
  shared_each profile p e i j outside =
      let none_shares =
        any_none (λ path. any (shares path) (processes g)) (profile_paths g c) profile e i in
      let apart = any_none (shares profile) (processes g) p none_shares j in
      ground (arith, apart, outside)

  visible_each :
      (p : ProcessRecord)
      → control_path_incomplete g c ≡ false
      → In p (browser_roots g c)
      → has_debug_port g c ≡ true
      → p.runtime.debug_transport_facts_complete ≡ true
  unfolding control_path_incomplete
  visible_each p e i port =
      let hidden : any (λ q. not q.runtime.debug_transport_facts_complete) (browser_roots g c)
          ≡ false =
        ground (arith, e, port) in
      not-false p.runtime.debug_transport_facts_complete (
        any_none (λ q. not q.runtime.debug_transport_facts_complete) (browser_roots g c) p hidden i)

  pub profile_checks-ProfilesSafe : any holds (profile_checks g c) ≡ false → ProfilesSafe
  unfolding profile_checks
  profile_checks-ProfilesSafe e =
      let (standard, e1) = or_split _ _ e in
      let (headed, e2) = or_split _ _ e1 in
      let (persistent, e3) = or_split _ _ e2 in
      let (manual, e4) = or_split _ _ e3 in
      let (shared, e5) = or_split _ _ e4 in
      let (peer, e6) = or_split _ _ e5 in
      let (hidden, e7) = or_split _ _ e6 in
      record {
        not_standard = standard;
        is_headless = λ p i. headless_each p headed i;
        not_persistent = persistent;
        not_manual = manual;
        not_shared = λ profile p i j outside. shared_each profile p shared i j outside;
        no_peer =
            λ p i. any_none (λ q. q.runtime.attached_debug_transport) (browser_roots g c) p peer i;
        peers_visible = λ p i port. visible_each p hidden i port;
      }

  -- A recorder that is left of a session: not a member, of the same user, without a terminal, and in
  -- the process group of a browser that it was not started before.
  pub record IsUnjoined (p browser : ProcessRecord) : Type 0 where
    pub outside : contains c.member_pids (pid_of p) ≡ false
    pub is_recorder : matches_recorder p c.pack ≡ true
    pub own_user : p.uid ≡ g.current_uid
    pub no_terminal : p.tty_device ≡ none
    pub not_before : browser.identity.started_at_unix_micros ≤ p.identity.started_at_unix_micros
    pub has_group : p.process_group_id ≢ 0
    pub same_group : p.process_group_id ≡ browser.process_group_id

  -- The tests of such a recorder, but for the browser.
  abbrev plausible : ProcessRecord → Bool
  plausible p =
      not (contains c.member_pids (pid_of p))
      && matches_recorder p c.pack
      && p.uid == g.current_uid
      && is_none p.tty_device

  IsUnjoined-plausible : (p browser : ProcessRecord) → IsUnjoined p browser → plausible p ≡ true
  IsUnjoined-plausible p browser u =
      rw (u.outside, u.is_recorder, u.no_terminal, u.own_user, ==_refl g.current_uid) refl

  IsUnjoined-outlives :
      (p browser : ProcessRecord) → IsUnjoined p browser → outlives p browser ≡ true
  IsUnjoined-outlives p browser u = ground (arith, u.not_before, u.has_group, u.same_group)

  recorder_each :
      (p browser : ProcessRecord)
      → has_plausible_unjoined_recorder g c (browser_roots g c) ≡ false
      → In p (processes g)
      → In browser (browser_roots g c)
      → IsUnjoined p browser
      → ⊥
  unfolding has_plausible_unjoined_recorder
  recorder_each p browser e i j u =
      let quiet =
        any_none (λ q. plausible q && any (outlives q) (browser_roots g c)) (processes g) p e i in
      let none_outlived : any (outlives p) (browser_roots g c) ≡ false =
        ground (arith, quiet, IsUnjoined-plausible p browser u) in
      absurd (
        cc (
          any_none (outlives p) (browser_roots g c) browser none_outlived j,
          IsUnjoined-outlives p browser u,
        ))

  -- Where the check of the recorders raises nothing, no process of the table is such a recorder.
  pub recorder_checks_quiet :
      (a : Analyzer) (root p browser : ProcessRecord)
      → any holds (recorder_checks g c a root) ≡ false
      → In p (processes g)
      → In browser (browser_roots g c)
      → IsUnjoined p browser
      → ⊥
  unfolding recorder_checks
  recorder_checks_quiet a root p browser e i j u =
      let there = not_empty_In browser (browser_roots g c) j in
      recorder_each p browser (ground (arith, e, there)) i j u
