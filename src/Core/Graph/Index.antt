-- ===== src/Core/Graph/Index.antt =====
-- crates/unlinger-core/src/graph.rs: the maps that `ProcessGraph::from_snapshot` builds.
use unlinger.Prelude.{
  ℕ, ◌==◌, ◌≡◌, refl, sym, subst, ap, ◌⊎◌, inl, inr, false, none, some, List, [], ◌∷◌, ◌++◌,
  Result-cases, ok, arith, Bool-cases, Option-cases, In, In-append-split, In-append_left,
  In-append_right, Map, insert, get, get-insert, values, unwrap_or, ==_iff, ==_refl, sort, In-sort,
}
use unlinger.Core.Model.{ProcessRecord, Snapshot, pid_of}
use unlinger.Core.Graph.{
  ProcessGraph, add_processes, add_children, sort_values, from_snapshot, children_of,
}

add_processes_cons :
    (m : Map ProcessRecord) (p : ProcessRecord) (ps : List ProcessRecord) (m' : Map ProcessRecord)
    → add_processes m (p ∷ ps) ≡ ok m'
    → (get (pid_of p) m ≡ none) × (add_processes (insert (pid_of p) p m) ps ≡ ok m')
unfolding add_processes
add_processes_cons m p ps m' e = elim (Option-cases (get (pid_of p) m)) [
  | inl fresh ↦ (fresh, ground (arith, e, fresh))
  | inr (q, taken) ↦ absurd (ground (arith, e, taken))
]

get-insert_same : {V : Type 0} (k : ℕ) (v : V) (m : Map V) → get k (insert k v m) ≡ some v
get-insert_same k v m = ground (arith, get-insert k k v m, ==_refl k)

-- The processes indexed before stay where they are.
add_processes_keeps :
    (m : Map ProcessRecord) (ps : List ProcessRecord) (m' : Map ProcessRecord) (k : ℕ)
    (p : ProcessRecord)
    → add_processes m ps ≡ ok m'
    → get k m ≡ some p
    → get k m' ≡ some p
unfolding add_processes
add_processes_keeps m [] m' k p e at = ground (arith, e, at)
add_processes_keeps m (q ∷ qs) m' k p e at =
    let (fresh, rest) = add_processes_cons m q qs m' e in
    add_processes_keeps (insert (pid_of q) q m) qs m' k p rest (elim (Bool-cases (pid_of q == k)) [
      | inl same ↦ absurd (ground (arith, fresh, at, same))
      | inr other ↦ ground (arith, get-insert (pid_of q) k q m, other, at)
    ])

add_processes_finds :
    (m : Map ProcessRecord) (ps : List ProcessRecord) (m' : Map ProcessRecord) (p : ProcessRecord)
    → add_processes m ps ≡ ok m'
    → In p ps
    → get (pid_of p) m' ≡ some p
add_processes_finds m [] m' p e i = absurd i
add_processes_finds m (q ∷ qs) m' p e (inl same) =
    subst (λ x. get (pid_of x) m' ≡ some x) (sym same)
      (add_processes_keeps (insert (pid_of q) q m) qs m' (pid_of q) q
        (add_processes_cons m q qs m' e).1 (get-insert_same (pid_of q) q m))
add_processes_finds m (q ∷ qs) m' p e (inr i) =
    add_processes_finds (insert (pid_of q) q m) qs m' p (add_processes_cons m q qs m' e).1 i

add_processes_only :
    (m : Map ProcessRecord) (ps : List ProcessRecord) (m' : Map ProcessRecord) (k : ℕ)
    (p : ProcessRecord)
    → add_processes m ps ≡ ok m'
    → get k m' ≡ some p
    → (get k m ≡ some p) ⊎ (In p ps × (pid_of p ≡ k))
unfolding add_processes
add_processes_only m [] m' k p e at = inl (ground (arith, e, at))
add_processes_only m (q ∷ qs) m' k p e at =
    elim (add_processes_only (insert (pid_of q) q m) qs m' k p (add_processes_cons m q qs m' e).1
      at) [
        | inr (i, same) ↦ inr (inr i, same)
        | inl old ↦ elim (Bool-cases (pid_of q == k)) [
          | inl same ↦ inr (
            inl (ground (arith, old, get-insert (pid_of q) k q m, same)),
            ground (arith, old, get-insert (pid_of q) k q m, same),
          )
          | inr other ↦ inl (ground (arith, old, get-insert (pid_of q) k q m, other))
        ]
      ]

get-values : {V : Type 0} (k : ℕ) (m : Map V) (v : V) → get k m ≡ some v → In v (values m)
unfolding get
get-values k [] v e = absurd (cc)
get-values k ((j, w) ∷ m) v e = elim (Bool-cases (j == k)) [
  | inl hit ↦ inl (ground (arith, e, hit))
  | inr miss ↦ inr (get-values k m v (ground (arith, e, miss)))
]

values-insert :
    {V : Type 0} (k : ℕ) (v w : V) (m : Map V)
    → In w (values (insert k v m))
    → (w ≡ v) ⊎ In w (values m)
unfolding insert
values-insert k v w [] i = i
values-insert k v w ((j, x) ∷ m) i = ground (arith, i, values-insert k v w m)

add_processes-values :
    (m : Map ProcessRecord) (ps : List ProcessRecord) (m' : Map ProcessRecord) (p : ProcessRecord)
    → add_processes m ps ≡ ok m'
    → In p (values m')
    → In p (values m) ⊎ In p ps
unfolding add_processes
add_processes-values m [] m' p e i = inl (ground (arith, e, i))
add_processes-values m (q ∷ qs) m' p e i =
    elim (add_processes-values (insert (pid_of q) q m) qs m' p (add_processes_cons m q qs m' e).1
      i) [
        | inr later ↦ inr (inr later)
        | inl old ↦ elim (values-insert (pid_of q) q p m old) [
          | inl here ↦ inr (inl here)
          | inr before ↦ inl before
        ]
      ]

abbrev at_key : Map (List ℕ) → ℕ → List ℕ
at_key m q = unwrap_or (get q m) []

-- A child listed under its parent.
abbrev IsChildIn : List ProcessRecord → ℕ → ℕ → Type 0
IsChildIn ps c q = (p : ProcessRecord) × In p ps × (pid_of p ≡ c) × (p.parent_pid ≡ q)

abbrev with_child : Map (List ℕ) → ProcessRecord → Map (List ℕ)
with_child m p = insert p.parent_pid (at_key m p.parent_pid ++ pid_of p ∷ []) m

with_child_same :
    (m : Map (List ℕ)) (p : ProcessRecord) (q : ℕ)
    → p.parent_pid ≡ q
    → at_key (with_child m p) q ≡ at_key m q ++ pid_of p ∷ []
with_child_same m p q e =
    subst (λ x. at_key (with_child m p) x ≡ at_key m x ++ pid_of p ∷ []) e
      (ap (λ o. unwrap_or o [])
        (get-insert_same p.parent_pid (at_key m p.parent_pid ++ pid_of p ∷ []) m))

with_child_other :
    (m : Map (List ℕ)) (p : ProcessRecord) (q : ℕ)
    → (p.parent_pid == q) ≡ false
    → at_key (with_child m p) q ≡ at_key m q
with_child_other m p q e =
    let here = get-insert p.parent_pid q (at_key m p.parent_pid ++ pid_of p ∷ []) m in
    rw (here, e) refl

add_children_keeps :
    (m : Map (List ℕ)) (ps : List ProcessRecord) (c q : ℕ)
    → In c (at_key m q)
    → In c (at_key (add_children m ps) q)
unfolding add_children
add_children_keeps m [] c q i = i
add_children_keeps m (p ∷ ps) c q i =
    add_children_keeps (with_child m p) ps c q (elim (Bool-cases (p.parent_pid == q)) [
      | inl same ↦
          rw (with_child_same m p q ((==_iff p.parent_pid q).0 same))
            (In-append_left c (at_key m q) (pid_of p ∷ []) i)
      | inr other ↦ rw (with_child_other m p q other) i
    ])

add_children_finds :
    (m : Map (List ℕ)) (ps : List ProcessRecord) (p : ProcessRecord)
    → In p ps
    → In (pid_of p) (at_key (add_children m ps) p.parent_pid)
unfolding add_children
add_children_finds m [] p i = absurd i
add_children_finds m (x ∷ ps) p (inl same) =
    subst (λ y. In (pid_of y) (at_key (add_children (with_child m x) ps) y.parent_pid)) (sym same)
      (add_children_keeps (with_child m x) ps (pid_of x) x.parent_pid (
        rw (with_child_same m x x.parent_pid refl)
          (In-append_right (pid_of x) (at_key m x.parent_pid) (pid_of x ∷ []) (inl refl))))
add_children_finds m (x ∷ ps) p (inr i) = add_children_finds (with_child m x) ps p i

add_children_only :
    (m : Map (List ℕ)) (ps : List ProcessRecord) (c q : ℕ)
    → In c (at_key (add_children m ps) q)
    → In c (at_key m q) ⊎ IsChildIn ps c q
unfolding add_children
add_children_only m [] c q i = inl i
add_children_only m (x ∷ ps) c q i = elim (add_children_only (with_child m x) ps c q i) [
  | inr (p, j, same, parent) ↦ inr (p, inr j, same, parent)
  | inl old ↦ elim (Bool-cases (x.parent_pid == q)) [
    | inr other ↦ inl (rw (sym (with_child_other m x q other)) old)
    | inl same ↦
        let parent = (==_iff x.parent_pid q).0 same in
        elim (In-append-split c (at_key m q) (pid_of x ∷ [])
          (subst (In c) (with_child_same m x q parent) old)) [
            | inl before ↦ inl before
            | inr (inl here) ↦ inr (x, inl refl, sym here, parent)
            | inr (inr none_left) ↦ absurd none_left
          ]
  ]
]

sort_values_iff : (m : Map (List ℕ)) (c q : ℕ) → at_key (sort_values m) q ≡ sort (at_key m q)
unfolding sort_values get sort
sort_values_iff [] c q = refl
sort_values_iff ((k, xs) ∷ m) c q = elim (Bool-cases (k == q)) [
  | inl hit ↦ rw hit refl
  | inr miss ↦ rw miss (sort_values_iff m c q)
]

-- What the maps of a graph hold, against the snapshot.
pub record IsIndex (snapshot : Snapshot) (g : ProcessGraph) : Type 0 where
  pub finds : (p : ProcessRecord) → In p snapshot.processes → get (pid_of p) g.processes ≡ some p
  pub only :
      (k : ℕ) (p : ProcessRecord)
      → get k g.processes ≡ some p
      → In p snapshot.processes × (pid_of p ≡ k)
  pub child :
      (p : ProcessRecord) → In p snapshot.processes → In (pid_of p) (children_of g p.parent_pid)
  pub only_child : (c q : ℕ) → In c (children_of g q) → IsChildIn snapshot.processes c q

abbrev graph_of : Snapshot → Map ProcessRecord → ProcessGraph
graph_of snapshot m = record {
  current_uid = snapshot.current_uid;
  processes = m;
  children = sort_values (add_children [] (values m));
}

graph_of-IsIndex :
    (snapshot : Snapshot) (m : Map ProcessRecord)
    → add_processes [] snapshot.processes ≡ ok m
    → IsIndex snapshot (graph_of snapshot m)
unfolding get
graph_of-IsIndex snapshot m e = record {
  finds = λ p i. add_processes_finds [] snapshot.processes m p e i;
  only = λ k p at. elim (add_processes_only [] snapshot.processes m k p e at) [
    | inl old ↦ absurd (cc)
    | inr new ↦ new
  ];
  child = λ p i. rw (sort_values_iff (add_children [] (values m)) (pid_of p) p.parent_pid) (
      (In-sort (pid_of p) (at_key (add_children [] (values m)) p.parent_pid)).1 (
        add_children_finds [] (values m) p
          (get-values (pid_of p) m p (add_processes_finds [] snapshot.processes m p e i))));
  only_child = λ c q i.
      elim (add_children_only [] (values m) c q (
        (In-sort c (at_key (add_children [] (values m)) q)).0
          (subst (In c) (sort_values_iff (add_children [] (values m)) c q) i))) [
            | inl old ↦ absurd old
            | inr (p, j, same, parent) ↦ elim (add_processes-values [] snapshot.processes m p e j) [
              | inl old ↦ absurd old
              | inr k ↦ (p, k, same, parent)
            ]
          ];
}

-- A graph built from a snapshot finds each process of the snapshot under its pid, and finds no other;
-- and the children of a pid are the pids of exactly the processes that name it as their parent.
pub from_snapshot-IsIndex :
    (snapshot : Snapshot) (g : ProcessGraph) → from_snapshot snapshot ≡ ok g → IsIndex snapshot g
unfolding from_snapshot
from_snapshot-IsIndex snapshot g e = elim (Result-cases (add_processes [] snapshot.processes)) [
  | inr (x, refused) ↦ absurd (ground (arith, e, refused))
  | inl (m, built) ↦
      subst (IsIndex snapshot) (ground (arith, e, built)) (graph_of-IsIndex snapshot m built)
]
