-- ===== src/Rules/Classify/Parents.antt =====
-- crates/unlinger-rules/src/lib.rs: the parents that a session is left with.
use unlinger.Prelude.{
  and_split, ◌<◌, ◌≡◌, ◌⊎◌, ◌∙◌, refl, ap, inl, inr, Bool, true, false, not, ◌&&◌, ◌||◌, Option,
  none, some, arith, Bool-cases, Option-cases, In, all, all_each, ◌==◌, is_some, unwrap_or,
}
use unlinger.Core.Model.{ProcessRecord}
use unlinger.Core.Graph.{ProcessGraph}
use unlinger.Rules.Candidates.{Candidate, process_at}
use unlinger.Rules.Ownership.{Analyzer}
use unlinger.Rules.Classify.{
  browser_roots, controller_parent_live, controller_process, controller_reparented,
  has_browser_roots, has_controller, is_here, owner_missing, verified_owner_release,
}

value_here :
    {A : Type 0} (f : A → Bool) (o : Option A)
    → is_here f o ≡ true
    → (x : A) × (o ≡ some x) × (f x ≡ true)
value_here f none e = absurd (cc)
value_here f (some x) e = (x, refl, e)

no_value : {A : Type 0} (o : Option A) → is_some o ≡ false → o ≡ none
no_value none e = refl
no_value (some x) e = absurd (cc)

unwrap_true : (o : Option Bool) → unwrap_or o false ≡ true → o ≡ some true
unwrap_true none e = absurd (cc)
unwrap_true (some b) e = ap some e

module _ (g : ProcessGraph) (c : Candidate) (a : Analyzer) (root : ProcessRecord) where
  -- The process that a controller was started by is no longer there, or its owner has released it.
  abbrev pub NoLiveParent : Type 0
  NoLiveParent =
      (verified_owner_release g c a root ≡ some true)
      ⊎ ((p : ProcessRecord)
          → controller_process g c ≡ some p
          → 1 < p.parent_pid
          → process_at g p.parent_pid ≡ none)

  -- Why a session counts as left: its owner has released it; or, with no owner bound, its controller
  -- has process 1 as its parent, or it has no controller and no browser of it has a parent left.
  abbrev pub LeftBehind : Type 0
  LeftBehind =
      (verified_owner_release g c a root ≡ some true)
      ⊎ ((verified_owner_release g c a root ≡ none)
          × (((p : ProcessRecord) × (controller_process g c ≡ some p) × (p.parent_pid ≡ 1))
              ⊎ ((has_controller g c ≡ false)
                  × (has_browser_roots g c ≡ true)
                  × ((p : ProcessRecord)
                      → In p (browser_roots g c)
                      → (p.parent_pid ≡ 1) ⊎ (process_at g p.parent_pid ≡ none)))))

  pub controller_parent_live-NoLiveParent : controller_parent_live g c a root ≡ false → NoLiveParent
  unfolding controller_parent_live
  controller_parent_live-NoLiveParent e =
      elim (Bool-cases (unwrap_or (verified_owner_release g c a root) false)) [
        | inl released ↦ inl (unwrap_true _ released)
        | inr kept ↦ inr (λ p found lt. no_value _ (ground (arith, rw (kept, found) at e, lt)))
      ]

  abbrev has_no_parent : ProcessRecord → Bool
  has_no_parent p = p.parent_pid == 1 || not (is_some (process_at g p.parent_pid))

  parent_gone :
      (p : ProcessRecord)
      → has_no_parent p ≡ true
      → (p.parent_pid ≡ 1) ⊎ (process_at g p.parent_pid ≡ none)
  parent_gone p e = elim (Bool-cases (p.parent_pid == 1)) [
    | inl one ↦ inl (ground (arith, one))
    | inr other ↦ inr (no_value (process_at g p.parent_pid) (ground (arith, e, other)))
  ]

  orphaned :
      (is_here (λ p. p.parent_pid == 1) (controller_process g c)
          || not (has_controller g c)
            && has_browser_roots g c
            && all has_no_parent (browser_roots g c))
        ≡ true
      → ((p : ProcessRecord) × (controller_process g c ≡ some p) × (p.parent_pid ≡ 1))
        ⊎ ((has_controller g c ≡ false)
            × (has_browser_roots g c ≡ true)
            × ((p : ProcessRecord)
                → In p (browser_roots g c)
                → (p.parent_pid ≡ 1) ⊎ (process_at g p.parent_pid ≡ none)))
  orphaned e = elim (Bool-cases (is_here (λ p. p.parent_pid == 1) (controller_process g c))) [
    | inl adopted ↦
        let (p, found, one) =
          value_here (λ p. p.parent_pid == 1) (controller_process g c) adopted in
        inl (p, found, ground (arith, one))
    | inr kept ↦
        let alone = not (has_controller g c) && has_browser_roots g c in
        let (there, left) =
          and_split alone (all has_no_parent (browser_roots g c)) (ground (arith, e, kept)) in
        inr (
          ground (arith, there),
          ground (arith, there),
          λ p i. parent_gone p (all_each has_no_parent (browser_roots g c) p left i),
        )
  ]

  pub owner_missing-LeftBehind : owner_missing g c a root ≡ true → LeftBehind
  unfolding owner_missing controller_reparented
  owner_missing-LeftBehind e = elim (Option-cases (verified_owner_release g c a root)) [
    | inr (released, v) ↦ inl (v ∙ ap some (rw (v, owner_missing) at e))
    | inl unbound ↦ inr (unbound, orphaned (rw (unbound, owner_missing) at e))
  ]
