-- ===== src/Core/Graph/Descent.antt =====
-- crates/unlinger-core/src/graph.rs: `descendant_pids`, the search down from a process.
use unlinger.Prelude.{
  ℕ, zero, suc, ◌+◌, ◌≤◌, ◌==◌, ◌≡◌, ◌↔◌, ◌⊎◌, refl, sym, subst, inl, inr, true, false, some, List,
  [], ◌∷◌, ◌++◌, arith, Bool-cases, In, In-append-split, In-append_left, In-append_right, In-sort,
  get, contains, contains_iff, contains_key, length, length-append, ==_iff, if◌then◌else◌, Map,
  unwrap_or, sort,
}
use unlinger.Core.Graph.{ProcessGraph, children_of, descend, child_count, descendant_pids}

-- How many children the pids that are not seen have.
abbrev room : List ℕ → Map (List ℕ) → ℕ
room seen [] = 0
room seen ((k, pids) ∷ m) =
    let rest = room seen m in if contains seen k then rest else rest + length pids

room_le : (n : ℕ) (seen : List ℕ) (m : Map (List ℕ)) → room (n ∷ seen) m ≤ room seen m
room_le n seen [] = ground arith
room_le n seen ((k, pids) ∷ m) = ground (arith, room_le n seen m)

room_lt :
    (n : ℕ) (seen : List ℕ) (m : Map (List ℕ))
    → contains seen n ≡ false
    → room (n ∷ seen) m + length (unwrap_or (get n m) []) ≤ room seen m
unfolding get
room_lt n seen [] fresh = ground arith
room_lt n seen ((k, pids) ∷ m) fresh = elim (Bool-cases (k == n)) [
  | inl hit ↦ rw hit (ground (arith, room_le n seen m, hit, fresh))
  | inr miss ↦ rw miss (ground (arith, room_lt n seen m fresh, miss))
]

room_count : (m : Map (List ℕ)) → room [] m ≡ child_count m
unfolding child_count
room_count [] = refl
room_count ((k, pids) ∷ m) = ground (arith, room_count m)

module _ (g : ProcessGraph) where
  -- A pid that is reached from another through children.
  pub data Reaches : ℕ → ℕ → Type 0 where
    here : {n : ℕ} → Reaches n n
    down : {n m c : ℕ} → Reaches n m → In c (children_of g m) → Reaches n c

  abbrev IsProcess : ℕ → Type 0
  IsProcess n = contains_key n g.processes ≡ true

  -- What a search has visited when it ends.
  record Search (seen queue found : List ℕ) : Type 0 where
    visited : List ℕ
    old : (n : ℕ) → In n seen → In n visited
    queued : (n : ℕ) → In n queue → In n visited
    closed : (m : ℕ) → In m visited → In m seen ⊎ ((c : ℕ) → In c (children_of g m) → In c visited)
    only : (n : ℕ) → In n visited → In n seen ⊎ ((q : ℕ) × In q queue × Reaches q n)
    found_iff : (n : ℕ) → In n found ↔ (In n visited × (contains seen n ≡ false) × IsProcess n)

  abbrev Descends : ℕ → List ℕ → List ℕ → Type 0
  Descends fuel seen queue =
      (found : List ℕ) × (descend g fuel seen queue ≡ some found) × Search seen queue found

  Search-ends : (seen : List ℕ) → Search seen [] []
  Search-ends seen = record {
    visited = seen;
    old = λ n i. i;
    queued = λ n i. absurd i;
    closed = λ m i. inl i;
    only = λ n i. inl i;
    found_iff = λ n. ((λ i. absurd i), λ p. ground (arith, contains_iff seen n, p.0, p.1));
  }

  Search-skip :
      (seen queue found : List ℕ) (pid : ℕ)
      → contains seen pid ≡ true
      → Search seen queue found
      → Search seen (pid ∷ queue) found
  Search-skip seen queue found pid met s = record {
    visited = s.visited;
    old = s.old;
    queued = λ n i. elim i [
      | inl e ↦ s.old n (subst (λ x. In x seen) (sym e) ((contains_iff seen pid).0 met))
      | inr j ↦ s.queued n j
    ];
    closed = s.closed;
    only = λ n i. elim (s.only n i) [ inl j ↦ inl j | inr (q, j, r) ↦ inr (q, inr j, r) ];
    found_iff = s.found_iff;
  }

  Reaches-trans : (q c n : ℕ) → In c (children_of g q) → Reaches c n → Reaches q n
  Reaches-trans q c n i here = down here i
  Reaches-trans q c n i (down r j) = down (Reaches-trans q c _ i r) j

  step_only :
      (seen queue found : List ℕ) (pid n : ℕ)
      (s : Search (pid ∷ seen) (queue ++ children_of g pid) found)
      → In n s.visited
      → In n seen ⊎ ((q : ℕ) × In q (pid ∷ queue) × Reaches q n)
  step_only seen queue found pid n s i = elim (s.only n i) [
    | inl (inl e) ↦ inr (pid, inl refl, subst (Reaches pid) (sym e) here)
    | inl (inr j) ↦ inl j
    | inr (q, j, r) ↦ elim (In-append-split q queue (children_of g pid) j) [
      | inl k ↦ inr (q, inr k, r)
      | inr k ↦ inr (pid, inl refl, Reaches-trans pid q n k r)
    ]
  ]

  abbrev with_pid : ℕ → List ℕ → List ℕ
  with_pid pid found = if contains_key pid g.processes then pid ∷ found else found

  with_pid_iff :
      (pid n : ℕ) (found : List ℕ)
      → In n (with_pid pid found) ↔ (((n ≡ pid) × IsProcess pid) ⊎ In n found)
  with_pid_iff pid n found = elim (Bool-cases (contains_key pid g.processes)) [
    | inl listed ↦ rw listed (
      (λ i. elim i [ inl e ↦ inl (e, refl) | inr j ↦ inr j ]),
      (λ p. elim p [ inl q ↦ inl q.0 | inr j ↦ inr j ]),
    )
    | inr absent ↦ rw absent ((λ i. inr i), (λ p. elim p [ inl q ↦ absurd (cc) | inr j ↦ j ]))
  ]

  step_found :
      (seen queue found : List ℕ) (pid n : ℕ) (fresh : contains seen pid ≡ false)
      (s : Search (pid ∷ seen) (queue ++ children_of g pid) found)
      → In n (with_pid pid found) ↔ (In n s.visited × (contains seen n ≡ false) × IsProcess n)
  step_found seen queue found pid n fresh s = (
    (λ i. elim ((with_pid_iff pid n found).0 i) [
      | inl (e, listed) ↦ (
        s.old n (inl e),
        subst (λ x. contains seen x ≡ false) (sym e) fresh,
        subst IsProcess (sym e) listed,
      )
      | inr j ↦ let (v, unmet, listed) = (s.found_iff n).0 j in (v, ground (arith, unmet), listed)
    ]),
    (λ (v, unmet, listed). (with_pid_iff pid n found).1 (elim (Bool-cases (n == pid)) [
      | inl same ↦ let e = (==_iff n pid).0 same in inl (e, subst IsProcess e listed)
      | inr other ↦ inr ((s.found_iff n).1 (v, ground (arith, other, unmet), listed))
    ])),
  )

  Search-fresh :
      (seen queue found : List ℕ) (pid : ℕ)
      → contains seen pid ≡ false
      → Search (pid ∷ seen) (queue ++ children_of g pid) found
      → Search seen (pid ∷ queue) (with_pid pid found)
  Search-fresh seen queue found pid fresh s = record {
    visited = s.visited;
    old = λ n i. s.old n (inr i);
    queued = λ n i. elim i [
      | inl e ↦ s.old n (inl e)
      | inr j ↦ s.queued n (In-append_left n queue (children_of g pid) j)
    ];
    closed = λ m i. elim (s.closed m i) [
      | inr down_closed ↦ inr down_closed
      | inl (inr j) ↦ inl j
      | inl (inl e) ↦ inr (λ c k.
          s.queued c
            (In-append_right c queue (children_of g pid) (subst (λ x. In c (children_of g x)) e k)))
    ];
    only = λ n i. step_only seen queue found pid n s i;
    found_iff = λ n. step_found seen queue found pid n fresh s;
  }

  skips :
      (fuel : ℕ) (seen queue : List ℕ) (pid : ℕ)
      → contains seen pid ≡ true
      → Descends fuel seen queue
      → Descends (suc fuel) seen (pid ∷ queue)
  unfolding descend
  skips fuel seen queue pid met (found, e, s) =
      (found, rw (met, descend) e, Search-skip seen queue found pid met s)

  goes_on :
      (fuel : ℕ) (seen queue : List ℕ) (pid : ℕ)
      → contains seen pid ≡ false
      → Descends fuel (pid ∷ seen) (queue ++ children_of g pid)
      → Descends (suc fuel) seen (pid ∷ queue)
  unfolding descend
  goes_on fuel seen queue pid fresh (found, e, s) = (
    with_pid pid found,
    rw (fresh, descend, e)
        (elim (Bool-cases (contains_key pid g.processes)) [
          | inl listed ↦ rw listed refl
          | inr absent ↦ rw absent refl
        ]),
    Search-fresh seen queue found pid fresh s,
  )

  descend_lem :
      (fuel : ℕ) (seen queue : List ℕ)
      → length queue + room seen g.children ≤ fuel
      → Descends fuel seen queue
  descend_lem fuel seen [] enough = ([], unfold descend in refl, Search-ends seen)
  descend_lem zero seen (pid ∷ queue) enough = absurd (ground arith)
  descend_lem (suc fuel) seen (pid ∷ queue) enough = elim (Bool-cases (contains seen pid)) [
    | inl met ↦ skips fuel seen queue pid met (descend_lem fuel seen queue (ground arith))
    | inr fresh ↦ goes_on fuel seen queue pid fresh (
        descend_lem fuel (pid ∷ seen) (queue ++ children_of g pid) (
          ground
            (arith, length-append queue (children_of g pid), room_lt pid seen g.children fresh)))
  ]

  all_visited :
      (seen queue found : List ℕ) (s : Search [] queue found) (q n : ℕ)
      → In q s.visited
      → Reaches q n
      → In n s.visited
  all_visited seen queue found s q n i here = i
  all_visited seen queue found s q n i (down {m = m} r j) =
      elim (s.closed m (all_visited seen queue found s q m i r)) [
        | inl none_left ↦ absurd none_left
        | inr below ↦ below n j
      ]

  Search-iff :
      (root n : ℕ) (found : List ℕ)
      → Search [] (root ∷ []) found
      → In n found ↔ (Reaches root n × IsProcess n)
  Search-iff root n found s = (
    (λ i.
        let (v, unmet, listed) = (s.found_iff n).0 i in
        (
          elim (s.only n v) [
            | inl none_left ↦ absurd none_left
            | inr (q, inl e, r) ↦ subst (λ x. Reaches x n) e r
            | inr (q, inr none_left, r) ↦ absurd none_left
          ],
          listed,
        )),
    (λ (r, listed).
        (s.found_iff n).1
          (all_visited [] (root ∷ []) found s root n (s.queued root (inl refl)) r, refl, listed)),
  )

  -- The descendants of a process are found with the fuel given, whatever cycles the children form: they
  -- are exactly the processes of the graph that are reached from it through children, itself included.
  pub descendant_pids-Reaches :
      (root : ℕ)
      → (l : List ℕ) × (descendant_pids g root ≡ some l)
        × ((n : ℕ) → In n l ↔ (Reaches root n × (contains_key n g.processes ≡ true)))
  unfolding descendant_pids
  descendant_pids-Reaches root =
      let (found, e, s) =
        descend_lem (child_count g.children + 1) [] (root ∷ [])
          (ground (arith, room_count g.children)) in
      (
        sort found,
        rw e refl,
        λ n. (
          (λ i. (Search-iff root n found s).0 ((In-sort n found).0 i)),
          (λ p. (In-sort n found).1 ((Search-iff root n found s).1 p)),
        ),
      )
