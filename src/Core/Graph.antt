-- ===== src/Core/Graph.antt =====
-- crates/unlinger-core/src/graph.rs: the process graph and the walk up from a process.
-- The walk is a `while` loop in the source; here it runs on fuel, with `none` where the fuel is spent.
pub mod Lineage
pub mod Index
pub mod Descent
use unlinger.Prelude.{
  ℕ, zero, suc, ◌+◌, ◌==◌, ltb, Bool, true, false, ◌&&◌, ◌||◌, not, Option, none, some, List, [],
  ◌∷◌, ◌++◌, String, Result, ok, err, ◌>>=◌, ◌>>◌, guard, Map, insert, get, keys, values,
  contains_key, contains, length, sort, unwrap_or, if◌then◌else◌,
}
use unlinger.Core.Fingerprint.{fingerprint_process_set}
use unlinger.Core.Model.{ProcessIdentity, ProcessRecord, Snapshot, pid_of}

pub data GraphError : Type 0 where
  duplicate_pid : ℕ → GraphError

pub record ProcessGraph : Type 0 where
  pub current_uid : ℕ
  pub processes : Map ProcessRecord
  pub children : Map (List ℕ)

-- The first loop of `from_snapshot`.
unfoldable pub add_processes :
    Map ProcessRecord → List ProcessRecord → Result GraphError (Map ProcessRecord)
unfolding insert
add_processes m [] = ok m
add_processes m (p ∷ ps) =
    guard (not (contains_key (pid_of p) m)) (duplicate_pid (pid_of p))
    >> add_processes (insert (pid_of p) p m) ps

unfoldable pub add_children : Map (List ℕ) → List ProcessRecord → Map (List ℕ)
unfolding insert get
add_children m [] = m
add_children m (p ∷ ps) =
    add_children (insert p.parent_pid (unwrap_or (get p.parent_pid m) [] ++ pid_of p ∷ []) m) ps

unfoldable pub sort_values : Map (List ℕ) → Map (List ℕ)
unfolding sort
sort_values [] = []
sort_values ((k, pids) ∷ m) = (k, sort pids) ∷ sort_values m

unfoldable pub from_snapshot : Snapshot → Result GraphError ProcessGraph
unfolding add_processes add_children sort_values
from_snapshot snapshot = add_processes [] snapshot.processes >>= λ processes. ok (record {
  current_uid = snapshot.current_uid;
  processes = processes;
  children = sort_values (add_children [] (values processes));
})

abbrev pub children_of : ProcessGraph → ℕ → List ℕ
children_of g pid = unwrap_or (get pid g.children) []

abbrev pub push_result : ℕ → Option (List ℕ) → Option (List ℕ)
push_result pid none = none
push_result pid (some pids) = some (pid ∷ pids)

-- The loop of `descendant_pids`, with the queue, the pids seen, and the pids found in the order found.
unfoldable pub descend : ProcessGraph → ℕ → List ℕ → List ℕ → Option (List ℕ)
unfolding get
descend g fuel seen [] = some []
descend g zero seen (pid ∷ queue) = none
descend g (suc fuel) seen (pid ∷ queue) = elim (contains seen pid) [
  | true ↦ descend g fuel seen queue
  | false ↦
      let rest = descend g fuel (pid ∷ seen) (queue ++ children_of g pid) in
      if contains_key pid g.processes then push_result pid rest else rest
]

unfoldable pub child_count : Map (List ℕ) → ℕ
child_count [] = 0
child_count ((pid, pids) ∷ m) = length pids + child_count m

abbrev sorted_result : Option (List ℕ) → Option (List ℕ)
sorted_result none = none
sorted_result (some pids) = some (sort pids)

-- Each child is queued at most once, and so is the root.
unfoldable pub descendant_pids : ProcessGraph → ℕ → Option (List ℕ)
unfolding descend child_count sort
descendant_pids g pid = sorted_result (descend g (child_count g.children + 1) [] (pid ∷ []))

-- `ProcessGraph::get(pid).map(|process| process.parent_pid)`.
unfoldable pub parent_of : ProcessGraph → ℕ → Option ℕ
unfolding get
parent_of g pid = elim (get pid g.processes) [ none ↦ none | some p ↦ some p.parent_pid ]

-- The loop of `ancestor_pids`.
unfoldable pub ancestor_walk : ProcessGraph → ℕ → List ℕ → Option ℕ → Option (List ℕ)
unfolding parent_of
ancestor_walk g fuel seen none = some []
ancestor_walk g zero seen (some pid) = none
ancestor_walk g (suc fuel) seen (some pid) =
    let rest = ancestor_walk g fuel (pid ∷ seen) (parent_of g pid) in
    if pid == 0 || contains seen pid then some [] else push_result pid rest

-- Each turn but the last visits another process.
abbrev pub enough_fuel : ProcessGraph → ℕ
enough_fuel g = length g.processes + 2

unfoldable pub ancestor_pids : ProcessGraph → ℕ → Option (List ℕ)
unfolding ancestor_walk
ancestor_pids g pid = ancestor_walk g (enough_fuel g) [] (parent_of g pid)

-- `has_ancestor`.
unfoldable pub has_ancestor : ProcessGraph → ℕ → ℕ → Bool
unfolding ancestor_pids
has_ancestor g pid ancestor = contains (unwrap_or (ancestor_pids g pid) []) ancestor

-- `has_unresolved_parent`.
unfoldable pub has_unresolved_parent : ProcessGraph → ℕ → Bool
unfolding get
has_unresolved_parent g pid = elim (get pid g.processes) [
  | none ↦ false
  | some p ↦ ltb 1 p.parent_pid && not (contains_key p.parent_pid g.processes)
]

-- The step of `lineage_has_cycle`: a parent that is neither 0 nor 1.
unfoldable pub proper_parent_of : ProcessGraph → ℕ → Option ℕ
unfolding get
proper_parent_of g pid = elim (get pid g.processes) [
  | none ↦ none
  | some p ↦ if not (p.parent_pid == 0) && not (p.parent_pid == 1) then some p.parent_pid else none
]

unfoldable pub cycle_walk : ProcessGraph → ℕ → List ℕ → Option ℕ → Option Bool
unfolding proper_parent_of
cycle_walk g fuel seen none = some false
cycle_walk g zero seen (some pid) = none
cycle_walk g (suc fuel) seen (some pid) =
    let rest = cycle_walk g fuel (pid ∷ seen) (proper_parent_of g pid) in
    if contains seen pid then some true else rest

unfoldable pub lineage_has_cycle : ProcessGraph → ℕ → Option Bool
unfolding cycle_walk
lineage_has_cycle g pid = cycle_walk g (enough_fuel g) [] (some pid)

-- The identities of the pids that are in the graph.
unfoldable pub found_identities : ProcessGraph → List ℕ → List ProcessIdentity
unfolding get
found_identities g [] = []
found_identities g (pid ∷ pids) = elim (get pid g.processes) [
  | none ↦ found_identities g pids
  | some p ↦ p.identity ∷ found_identities g pids
]

unfoldable pub process_set_fingerprint : ProcessGraph → List ℕ → String
unfolding found_identities fingerprint_process_set
process_set_fingerprint g pids = fingerprint_process_set (found_identities g pids)
