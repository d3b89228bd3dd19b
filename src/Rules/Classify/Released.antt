-- ===== src/Rules/Classify/Released.antt =====
-- crates/unlinger-rules/src/lib.rs: the owner of a session that has released it.
use unlinger.Prelude.{
  ℕ, List, contains, some_eq, or_split, not-false, ◌≡◌, ◌∙◌, subst, sym, ap, inl, inr, Bool, true,
  false, not, ◌&&◌, ◌||◌, Option, none, some, [], ◌∷◌, String, arith, Option-cases, In, any,
  any_none, is_empty, is_some, str_eq, if◌then◌else◌,
}
use unlinger.Core.Model.{ProcessRecord, pid_of}
use unlinger.Rules.Text.{is_bytes}
use unlinger.Rules.Matching.{flag_value}
use unlinger.Core.Graph.{ProcessGraph}
use unlinger.Core.Task.{SessionOwnerBinding, TaskControllerBinding}
use unlinger.Rules.Candidates.{Candidate, processes}
use unlinger.Rules.Ownership.{
  Analyzer, any_external_session_work, carries_task, is_detached_handler,
  ordinary_session_has_live_work, session_has_live_work, session_tree, task_members,
}
use unlinger.Rules.Classify.{
  cli_attached, cli_persistent, has_client, has_controller, owned_task, owner_checks,
  session_checks, session_owner, task_checks, verified_owner_release, visibility_incomplete,
}
use unlinger.Rules.Classify.Checks.{holds}

-- What the five checks of an owner have passed.
record Passed (released persistent attached blind client live : Bool) : Type 0 where
  is_released : released ≡ true
  not_persistent : persistent ≡ false
  not_attached : attached ≡ false
  not_blind : blind ≡ false
  no_client : client ≡ false
  no_work : live ≡ false

released_lem :
    (released persistent attached blind client live : Bool)
    → (not released || (persistent || (attached || (blind || ((client || live) || false))))) ≡ false
    → Passed released persistent attached blind client live
released_lem released persistent attached blind client live e =
    let (r, e1) = or_split _ _ e in
    let (p, e2) = or_split _ _ e1 in
    let (t, e3) = or_split _ _ e2 in
    let (b, e4) = or_split _ _ e3 in
    let (busy, e5) = or_split (client || live) false e4 in
    let (n, l) = or_split client live busy in
    record {
      is_released = not-false released r;
      not_persistent = p;
      not_attached = t;
      not_blind = b;
      no_client = n;
      no_work = l;
    }

closed :
    {A : Type 0} (b : Bool) (o : Option A) (x : A) → (if b && false then o else none) ≡ some x → ⊥
closed true o x e = cc
closed false o x e = cc

-- A command line names the session of an owner.
abbrev carries_session : SessionOwnerBinding → ProcessRecord → Bool
carries_session b p =
    any (λ flag. is_bytes (flag_value p flag) b.session_name) ("--session" ∷ "-s" ∷ [])

module _ (g : ProcessGraph) (c : Candidate) (a : Analyzer) (root : ProcessRecord) where
  -- The owner that a session must have: one that is bound and has released it, with nothing of its
  -- clients left, as far as all of them are seen.
  pub record OwnerReleased : Type 0 where
    pub is_released : verified_owner_release g c a root ≡ some true
    pub not_persistent : cli_persistent g c a root ≡ false
    pub not_attached : cli_attached g c a root ≡ false
    pub descriptors_known : root.runtime.descriptor_facts_complete ≡ true
    pub sessions_known :
        (p : ProcessRecord) → In p (processes g) → p.runtime.task_session_facts_complete ≡ true
    pub no_client : is_empty root.runtime.connected_named_unix_socket_fingerprints ≡ true
    pub no_task_work :
        (b : TaskControllerBinding) (p : ProcessRecord)
        → owned_task g c a root ≡ some b
        → In p (processes g)
        → contains (task_members g b.task_id a.context.task_controllers) (pid_of p) ≡ false
        → is_detached_handler g (task_members g b.task_id a.context.task_controllers) p ≡ false
        → carries_task b.task_id p ≡ false
    pub no_session_work :
        (b : SessionOwnerBinding) (p : ProcessRecord)
        → session_owner g c a root ≡ some b
        → In p (processes g)
        → contains (session_tree g b.controller) (pid_of p) ≡ false
        → is_detached_handler g (session_tree g b.controller) p ≡ false
        → carries_session b p ≡ false

  no_work_each :
      (inside : List ℕ) (carries : ProcessRecord → Bool) (p : ProcessRecord)
      → any_external_session_work g inside carries ≡ false
      → In p (processes g)
      → contains inside (pid_of p) ≡ false
      → is_detached_handler g inside p ≡ false
      → carries p ≡ false
  unfolding any_external_session_work
  no_work_each inside carries p e i outside attached =
      let idle =
        any_none
          (λ q.
            not (contains inside (pid_of q)) && not (is_detached_handler g inside q) && carries q)
          (processes g) p e i in
      ground (arith, idle, outside, attached)

  task_work_each :
      (b : TaskControllerBinding) (p : ProcessRecord)
      → session_has_live_work a g b.task_id ≡ false
      → In p (processes g)
      → contains (task_members g b.task_id a.context.task_controllers) (pid_of p) ≡ false
      → is_detached_handler g (task_members g b.task_id a.context.task_controllers) p ≡ false
      → carries_task b.task_id p ≡ false
  unfolding session_has_live_work
  task_work_each b p e i outside attached =
      no_work_each (task_members g b.task_id a.context.task_controllers) (carries_task b.task_id) p
        e i outside attached

  session_work_each :
      (b : SessionOwnerBinding) (p : ProcessRecord)
      → ordinary_session_has_live_work g b ≡ false
      → In p (processes g)
      → contains (session_tree g b.controller) (pid_of p) ≡ false
      → is_detached_handler g (session_tree g b.controller) p ≡ false
      → carries_session b p ≡ false
  unfolding ordinary_session_has_live_work
  session_work_each b p e i outside attached =
      no_work_each (session_tree g b.controller) (carries_session b) p e i outside attached

  sessions_each :
      (p : ProcessRecord)
      → visibility_incomplete g c a root ≡ false
      → In p (processes g)
      → p.runtime.task_session_facts_complete ≡ true
  sessions_each p e i =
      let (d, s) = or_split (not root.runtime.descriptor_facts_complete) _ e in
      not-false p.runtime.task_session_facts_complete
        (any_none (λ q. not q.runtime.task_session_facts_complete) (processes g) p s i)

  descriptors_lem :
      visibility_incomplete g c a root ≡ false → root.runtime.descriptor_facts_complete ≡ true
  descriptors_lem e = ground (arith, e)

  -- A session that a task owns is bound to no owner of its own.
  task_excludes :
      (b : TaskControllerBinding) (d : SessionOwnerBinding)
      → owned_task g c a root ≡ some b
      → session_owner g c a root ≡ some d
      → ⊥
  unfolding session_owner
  task_excludes b d o so = closed (str_eq c.pack.id "playwright") _ d (rw (o, session_owner) at so)

  released_task :
      (b : TaskControllerBinding)
      → owned_task g c a root ≡ some b
      → any holds (task_checks g c a root b) ≡ false
      → OwnerReleased
  unfolding verified_owner_release
  released_task b o e =
      let t =
        released_lem b.released (cli_persistent g c a root) (cli_attached g c a root)
          (visibility_incomplete g c a root) (has_client g c a root)
          (session_has_live_work a g b.task_id) e in
      record {
        is_released = rw (o, verified_owner_release) (ap some t.is_released);
        not_persistent = t.not_persistent;
        not_attached = t.not_attached;
        descriptors_known = descriptors_lem t.not_blind;
        sessions_known = λ p i. sessions_each p t.not_blind i;
        no_client =
            not-false (is_empty root.runtime.connected_named_unix_socket_fingerprints) t.no_client;
        no_task_work = λ d p o' i outside attached.
            task_work_each d p
              (subst (λ x. session_has_live_work a g x.task_id ≡ false) (some_eq b d (sym o ∙ o'))
                t.no_work)
              i outside attached;
        no_session_work = λ d p so i outside attached. absurd (task_excludes b d o so);
      }

  released_session :
      (b : SessionOwnerBinding)
      → owned_task g c a root ≡ none
      → session_owner g c a root ≡ some b
      → any holds (session_checks g c a root b) ≡ false
      → OwnerReleased
  unfolding verified_owner_release
  released_session b o so e =
      let t =
        released_lem b.released (cli_persistent g c a root) (cli_attached g c a root)
          (visibility_incomplete g c a root) (has_client g c a root)
          (ordinary_session_has_live_work g b) e in
      record {
        is_released = rw (o, so, verified_owner_release) (ap some t.is_released);
        not_persistent = t.not_persistent;
        not_attached = t.not_attached;
        descriptors_known = descriptors_lem t.not_blind;
        sessions_known = λ p i. sessions_each p t.not_blind i;
        no_client =
            not-false (is_empty root.runtime.connected_named_unix_socket_fingerprints) t.no_client;
        no_task_work = λ d p o' i outside attached. absurd (cc (o, o'));
        no_session_work = λ d p so' i outside attached.
            session_work_each d p
              (subst (λ x. ordinary_session_has_live_work g x ≡ false) (some_eq b d (sym so ∙ so'))
                t.no_work)
              i outside attached;
      }

  never_quiet :
      (test : Bool) (x y : String)
      → any holds (if test then (true, x) ∷ [] else (true, y) ∷ []) ≡ false
      → ⊥
  never_quiet true x y e = cc
  never_quiet false x y e = cc

  -- The checks of an owner raise nothing only if a session that a task owns, or that has a controller,
  -- is released.
  pub owner_checks-OwnerReleased :
      any holds (owner_checks g c a root) ≡ false
      → (has_controller g c || is_some (owned_task g c a root)) ≡ true
      → OwnerReleased
  unfolding owner_checks
  owner_checks-OwnerReleased e owned = elim (Option-cases (owned_task g c a root)) [
    | inr (b, o) ↦ released_task b o (rw (o, owner_checks) at e)
    | inl none_owned ↦
        let controlled : has_controller g c ≡ true = ground (arith, owned, none_owned) in
        elim (Option-cases (session_owner g c a root)) [
          | inr (b, so) ↦
              released_session b none_owned so (rw (none_owned, controlled, so, owner_checks) at e)
          | inl unowned ↦
              absurd (never_quiet _ _ _ (rw (none_owned, controlled, unowned, owner_checks) at e))
        ]
  ]
