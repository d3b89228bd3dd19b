-- ===== src/Core/Graph/Lineage.antt =====
-- crates/unlinger-core/src/graph.rs: the walks up from a process, `ancestor_pids` and
-- `lineage_has_cycle`, and the fuel they need.
use unlinger.Prelude.{
  ℕ, zero, suc, ◌+◌, ◌≤◌, ◌==◌, ◌≡◌, refl, sym, subst, ◌∙◌, inl, inr, Bool, true, false, ◌||◌,
  Option, none, some, List, [], ◌∷◌, arith, Bool-cases, Option-cases, In, get, keys, contains,
  length, ==_iff, if◌then◌else◌, Map,
}
use unlinger.Core.Graph.{
  ProcessGraph, parent_of, proper_parent_of, ancestor_walk, ancestor_pids, cycle_walk,
  lineage_has_cycle, enough_fuel,
}

-- How many of the keys a walk has not seen.
abbrev unseen : List ℕ → List ℕ → ℕ
unseen seen [] = 0
unseen seen (k ∷ ks) = let rest = unseen seen ks in if contains seen k then rest else rest + 1

unseen-length : (seen ks : List ℕ) → unseen seen ks ≤ length ks
unseen-length seen [] = ground arith
unseen-length seen (k ∷ ks) = ground (arith, unseen-length seen ks)

unseen_le : (n : ℕ) (seen ks : List ℕ) → unseen (n ∷ seen) ks ≤ unseen seen ks
unseen_le n seen [] = ground arith
unseen_le n seen (k ∷ ks) = ground (arith, unseen_le n seen ks)

unseen_lt :
    (n : ℕ) (seen ks : List ℕ)
    → contains seen n ≡ false
    → In n ks
    → unseen (n ∷ seen) ks + 1 ≤ unseen seen ks
unseen_lt n seen [] fresh i = absurd i
unseen_lt n seen (k ∷ ks) fresh (inl e) = ground (arith, unseen_le n seen ks)
unseen_lt n seen (k ∷ ks) fresh (inr i) = ground (arith, unseen_lt n seen ks fresh i)

get-In : {V : Type 0} (k : ℕ) (m : Map V) (v : V) → get k m ≡ some v → In k (keys m)
unfolding get
get-In k [] v e = absurd (cc)
get-In k ((j, w) ∷ m) v e = elim (Bool-cases (j == k)) [
  | inl hit ↦ inl (ground arith)
  | inr miss ↦ inr (get-In k m v (ground arith))
]

length-keys : {V : Type 0} (m : Map V) → length (keys m) ≡ length m
length-keys [] = refl
length-keys (e ∷ m) = ground (arith, length-keys m)

module _ (g : ProcessGraph) where
  parent_of-In : (pid q : ℕ) → parent_of g pid ≡ some q → In pid (keys g.processes)
  unfolding parent_of
  parent_of-In pid q e = elim (Option-cases (get pid g.processes)) [
    | inl absent ↦ absurd (ground (arith, e))
    | inr (p, found) ↦ get-In pid g.processes p found
  ]

  -- A walk up the parents: it goes on to each parent that is not 0 and was not met before, and stops
  -- at the first that is.
  abbrev pub IsWalk : List ℕ → Option ℕ → List ℕ → Type 0
  IsWalk seen cursor [] = (p : ℕ) → cursor ≡ some p → (p == 0 || contains seen p) ≡ true
  IsWalk seen cursor (p ∷ ps) =
      (cursor ≡ some p)
      × ((p == 0 || contains seen p) ≡ false)
      × IsWalk (p ∷ seen) (parent_of g p) ps

  abbrev Walks : ℕ → List ℕ → Option ℕ → Type 0
  Walks fuel seen cursor =
      (l : List ℕ) × (ancestor_walk g fuel seen cursor ≡ some l) × IsWalk seen cursor l

  Walks-none : (fuel : ℕ) (seen : List ℕ) → Walks fuel seen none
  unfolding ancestor_walk
  Walks-none fuel seen = ([], refl, λ p e. absurd (cc))

  walk_on :
      (fuel : ℕ) (seen : List ℕ) (pid : ℕ)
      → (pid == 0 || contains seen pid) ≡ false
      → Walks fuel (pid ∷ seen) (parent_of g pid)
      → Walks (suc fuel) seen (some pid)
  unfolding ancestor_walk
  walk_on fuel seen pid go (l, e, w) = (pid ∷ l, rw (go, e) refl, (refl, go, w))

  walk_ends :
      (fuel : ℕ) (seen : List ℕ) (pid : ℕ)
      → (pid == 0 || contains seen pid) ≡ true
      → Walks (suc fuel) seen (some pid)
  unfolding ancestor_walk
  walk_ends fuel seen pid stop = ([], rw stop refl, λ p e. ground (arith, e, stop))

  walk_lem :
      (fuel : ℕ) (seen : List ℕ) (pid : ℕ)
      → unseen seen (keys g.processes) + 1 ≤ fuel
      → Walks fuel seen (some pid)
  walk_lem zero seen pid enough = absurd (ground arith)
  walk_lem (suc fuel) seen pid enough = elim (Bool-cases (pid == 0 || contains seen pid)) [
    | inl stop ↦ walk_ends fuel seen pid stop
    | inr go ↦ walk_on fuel seen pid go (elim (Option-cases (parent_of g pid)) [
      | inl top ↦ subst (Walks fuel (pid ∷ seen)) (sym top) (Walks-none fuel (pid ∷ seen))
      | inr (q, parent) ↦ subst (Walks fuel (pid ∷ seen)) (sym parent) (
          walk_lem fuel (pid ∷ seen) q (
            ground (
              arith,
              unseen_lt pid seen (keys g.processes) (ground arith) (parent_of-In pid q parent),
            )))
    ])
  ]

  fuel_lem : (seen : List ℕ) → unseen seen (keys g.processes) + 1 ≤ enough_fuel g
  fuel_lem seen = ground (arith, unseen-length seen (keys g.processes), length-keys g.processes)

  -- The ancestors of a process are found with the fuel given, whatever cycles the parents form: each
  -- is the parent of the one before, none is 0 and none is repeated, and the list ends only where there
  -- is no further parent, or it is 0, or it is listed already.
  pub ancestor_pids-IsWalk :
      (pid : ℕ) → (l : List ℕ) × (ancestor_pids g pid ≡ some l) × IsWalk [] (parent_of g pid) l
  unfolding ancestor_pids
  ancestor_pids-IsWalk pid = elim (Option-cases (parent_of g pid)) [
    | inl top ↦ subst (Walks (enough_fuel g) []) (sym top) (Walks-none (enough_fuel g) [])
    | inr (q, parent) ↦
        subst (Walks (enough_fuel g) []) (sym parent) (walk_lem (enough_fuel g) [] q (fuel_lem []))
  ]

  proper_parent_of-In : (pid q : ℕ) → proper_parent_of g pid ≡ some q → In pid (keys g.processes)
  unfolding proper_parent_of
  proper_parent_of-In pid q e = elim (Option-cases (get pid g.processes)) [
    | inl absent ↦ absurd (ground (arith, e))
    | inr (p, found) ↦ get-In pid g.processes p found
  ]

  abbrev pub proper_parent : Option ℕ → Option ℕ
  proper_parent none = none
  proper_parent (some pid) = proper_parent_of g pid

  -- The process some steps up from a process, through parents that are neither 0 nor 1.
  unfoldable pub climb : ℕ → ℕ → Option ℕ
  climb zero pid = some pid
  climb (suc n) pid = proper_parent (climb n pid)

  -- What an answer says: a process above is above itself, or the lineage ends.
  abbrev pub Answers : ℕ → Bool → Type 0
  Answers pid true =
      (q : ℕ) × (m : ℕ) × (n : ℕ) × (climb m pid ≡ some q) × (climb (suc n) q ≡ some q)
  Answers pid false = (m : ℕ) × (climb m pid ≡ none)

  -- The processes seen are those below the one at hand.
  abbrev Below : List ℕ → ℕ → Type 0
  Below seen current = (s : ℕ) → contains seen s ≡ true → (n : ℕ) × (climb (suc n) s ≡ some current)

  Below-step :
      (seen : List ℕ) (current next : ℕ)
      → proper_parent_of g current ≡ some next
      → Below seen current
      → Below (current ∷ seen) next
  unfolding climb
  Below-step seen current next parent below s c = elim (Bool-cases (s == current)) [
    | inl same ↦ (0, rw ((==_iff s current).0 same) parent)
    | inr other ↦ let (n, e) = below s (ground arith) in (suc n, rw e parent)
  ]

  climb_step :
      (m pid current : ℕ)
      → climb m pid ≡ some current
      → climb (suc m) pid ≡ proper_parent_of g current
  unfolding climb
  climb_step m pid current e = rw e refl

  abbrev Cycles : ℕ → List ℕ → ℕ → Option ℕ → Type 0
  Cycles pid seen fuel cursor =
      (b : Bool) × (cycle_walk g fuel seen cursor ≡ some b) × Answers pid b

  Cycles-none :
      (pid : ℕ) (seen : List ℕ) (fuel m : ℕ) → climb m pid ≡ none → Cycles pid seen fuel none
  unfolding cycle_walk
  Cycles-none pid seen fuel m e = (false, refl, (m, e))

  cycle_ends :
      (pid : ℕ) (seen : List ℕ) (fuel current m : ℕ)
      → climb m pid ≡ some current
      → Below seen current
      → contains seen current ≡ true
      → Cycles pid seen (suc fuel) (some current)
  unfolding cycle_walk
  cycle_ends pid seen fuel current m at below c =
      let (n, e) = below current c in (true, rw c refl, (current, m, n, at, e))

  cycle_on :
      (pid : ℕ) (seen : List ℕ) (fuel current : ℕ)
      → contains seen current ≡ false
      → Cycles pid (current ∷ seen) fuel (proper_parent_of g current)
      → Cycles pid seen (suc fuel) (some current)
  unfolding cycle_walk
  cycle_on pid seen fuel current go (b, e, a) = (b, rw (go, e) refl, a)

  cycle_lem :
      (pid : ℕ) (fuel : ℕ) (seen : List ℕ) (current m : ℕ)
      → climb m pid ≡ some current
      → Below seen current
      → unseen seen (keys g.processes) + 1 ≤ fuel
      → Cycles pid seen fuel (some current)
  cycle_lem pid zero seen current m at below enough = absurd (ground arith)
  cycle_lem pid (suc fuel) seen current m at below enough =
      elim (Bool-cases (contains seen current)) [
        | inl stop ↦ cycle_ends pid seen fuel current m at below stop
        | inr go ↦
            cycle_on pid seen fuel current go (elim (Option-cases (proper_parent_of g current)) [
              | inl top ↦ subst (Cycles pid (current ∷ seen) fuel) (sym top) (
                  Cycles-none pid (current ∷ seen) fuel (suc m) (climb_step m pid current at ∙ top))
              | inr (q, parent) ↦ subst (Cycles pid (current ∷ seen) fuel) (sym parent) (
                  cycle_lem pid fuel (current ∷ seen) q (suc m)
                    (climb_step m pid current at ∙ parent) (Below-step seen current q parent below)
                    (ground (
                      arith,
                      unseen_lt current seen (keys g.processes) go
                          (proper_parent_of-In current q parent),
                    )))
            ])
      ]

  -- The test for a cycle answers with the fuel given. Where it says that there is one, some process
  -- above the given one is its own ancestor; where it says that there is none, the lineage comes to an
  -- end.
  pub lineage_has_cycle-Answers :
      (pid : ℕ) → (b : Bool) × (lineage_has_cycle g pid ≡ some b) × Answers pid b
  unfolding lineage_has_cycle
  lineage_has_cycle-Answers pid =
      cycle_lem pid (enough_fuel g) [] pid 0 (unfold climb in refl) (λ s c. absurd (cc))
        (fuel_lem [])
