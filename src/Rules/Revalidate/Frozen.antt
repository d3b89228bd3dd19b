-- ===== src/Rules/Revalidate/Frozen.antt =====
-- crates/unlinger-rules/src/lib.rs: the identities of a plan's targets, by their pids.
use unlinger.Prelude.{
  some_eq, ℕ, ◌==◌, ==_refl, ◌≡◌, ◌≢◌, ◌⊎◌, refl, sym, ap, ◌∙◌, subst, inl, inr, true, false, some,
  List, [], ◌∷◌, arith, Bool-cases, Option-cases, In, Map, insert, get, get-insert, contains_key,
  is_some, if◌then◌else◌,
}
use unlinger.Core.Model.{ProcessIdentity, exact_match, exact_match-eq, identity_eq_iff}
use unlinger.Core.Evidence.{ProcessTarget}
use unlinger.Core.Cleanup.Plan.{CleanupPlan}
use unlinger.Core.Cleanup.Liveness.{target_identities}
use unlinger.Rules.Revalidate.{identities, is_frozen}

contains_key-insert :
    {V : Type 0} (k j : ℕ) (v : V) (m : Map V)
    → contains_key j (insert k v m) ≡ (if k == j then true else contains_key j m)
contains_key-insert k j v m = ground (arith, get-insert k j v m)

identities_keep :
    (m : Map ProcessIdentity) (ts : List ProcessTarget) (k : ℕ)
    → contains_key k m ≡ true
    → contains_key k (target_identities m ts) ≡ true
unfolding target_identities
identities_keep m [] k e = e
identities_keep m (t ∷ ts) k e =
    identities_keep (insert t.identity.pid t.identity m) ts k
      (contains_key-insert t.identity.pid k t.identity m ∙ ground (arith, e))

pub identities_find :
    (m : Map ProcessIdentity) (ts : List ProcessTarget) (t : ProcessTarget)
    → In t ts
    → contains_key t.identity.pid (target_identities m ts) ≡ true
unfolding target_identities
identities_find m [] t i = absurd i
identities_find m (x ∷ ts) t (inl same) =
    identities_keep (insert x.identity.pid x.identity m) ts t.identity.pid (
      contains_key-insert x.identity.pid t.identity.pid x.identity m
      ∙ rw (ap (λ (y : ProcessTarget). y.identity.pid) (sym same))
          (rw (==_refl t.identity.pid) refl))
identities_find m (x ∷ ts) t (inr i) = identities_find (insert x.identity.pid x.identity m) ts t i

-- An identity that is kept is a target's, or was there before.
identities_origin :
    (m : Map ProcessIdentity) (ts : List ProcessTarget) (k : ℕ) (v : ProcessIdentity)
    → get k (target_identities m ts) ≡ some v
    → (get k m ≡ some v) ⊎ ((t : ProcessTarget) × In t ts × (t.identity ≡ v))
unfolding target_identities
identities_origin m [] k v e = inl e
identities_origin m (t ∷ ts) k v e =
    elim (identities_origin (insert t.identity.pid t.identity m) ts k v e) [
      | inr (u, i, same) ↦ inr (u, inr i, same)
      | inl old ↦ elim (Bool-cases (t.identity.pid == k)) [
        | inl here ↦ inr (
          t,
          inl refl,
          some_eq t.identity v
              (ground (arith, old, get-insert t.identity.pid k t.identity m, here)),
        )
        | inr other ↦ inl (ground (arith, old, get-insert t.identity.pid k t.identity m, other))
      ]
    ]

module _ (plan : CleanupPlan) where
  -- A target of the plan has this very identity, which names its executable.
  pub record IsHeld (i : ProcessIdentity) : Type 0 where
    pub target : ProcessTarget
    pub is_target : In target plan.targets
    pub same_identity : target.identity ≡ i
    pub has_device : is_some i.executable_device ≡ true
    pub has_inode : is_some i.executable_inode ≡ true

  held :
      (t : ProcessTarget) (v i : ProcessIdentity)
      → In t plan.targets
      → t.identity ≡ v
      → exact_match v i ≡ true
      → IsHeld i
  unfolding exact_match
  held t v i j same exact =
      let eq = exact_match-eq v i exact in
      record {
        target = t;
        is_target = j;
        same_identity = same ∙ eq;
        has_device =
            subst (λ (x : ProcessIdentity). is_some x.executable_device ≡ true) eq
              (ground (arith, exact));
        has_inode =
            subst (λ (x : ProcessIdentity). is_some x.executable_inode ≡ true) eq
              (ground (arith, exact));
      }

  pub is_frozen-IsHeld : (i : ProcessIdentity) → is_frozen plan i ≡ true → IsHeld i
  unfolding is_frozen get
  is_frozen-IsHeld i e = elim (Option-cases (get i.pid (identities plan))) [
    | inl missing ↦ absurd (cc (rw (missing, is_frozen) at e))
    | inr (v, found) ↦ elim (identities_origin [] plan.targets i.pid v found) [
      | inl old ↦ absurd (cc (old))
      | inr (t, j, same) ↦ held t v i j same (rw (found, is_frozen) at e)
    ]
  ]

  -- Where an identity that names its executable is not frozen, the plan keeps another one, or none,
  -- under its pid.
  pub not_frozen_lem :
      (i : ProcessIdentity)
      → is_frozen plan i ≡ false
      → is_some i.executable_device ≡ true
      → is_some i.executable_inode ≡ true
      → get i.pid (identities plan) ≢ some i
  unfolding is_frozen exact_match
  not_frozen_lem i e device inode kept =
      absurd
        (ground (arith, rw (kept, is_frozen) at e, device, inode, (identity_eq_iff i i).1 refl))
