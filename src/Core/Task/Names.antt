-- ===== src/Core/Task/Names.antt =====
-- crates/unlinger-core/src/task.rs: the session names of tasks, and ordinary ones.
use unlinger.Prelude.{
  ℕ, ◌≡◌, ◌↔◌, refl, sym, ap, ◌∙◌, subst, inl, inr, true, none, some, List, [], ◌∷◌, ◌++◌, arith,
  Bool-cases, Option-cases, ◌==◌, ==_iff,
}
use unlinger.Core.Task.{
  valid_task_id, session_prefix, session_name_from_id, strip_prefix, task_id_from_session,
  valid_ordinary_session_name,
}

strip_prefix-append : (ps id : List ℕ) → strip_prefix ps (ps ++ id) ≡ some id
unfolding strip_prefix
strip_prefix-append [] id = refl
strip_prefix-append (p ∷ ps) id = rw ((==_iff p p).1 refl) (strip_prefix-append ps id)

strip_prefix_sound : (ps value id : List ℕ) → strip_prefix ps value ≡ some id → value ≡ ps ++ id
unfolding strip_prefix
strip_prefix_sound [] value id e = ground (arith, e)
strip_prefix_sound (p ∷ ps) [] id e = absurd (cc)
strip_prefix_sound (p ∷ ps) (b ∷ bs) id e = elim (Bool-cases (b == p)) [
  | inl same ↦
      ground
        (arith, e, same, (==_iff b p).0 same, strip_prefix_sound ps bs id (ground (arith, e, same)))
  | inr other ↦ absurd (ground (arith, e, other))
]

session_id_sound :
    (value id : List ℕ)
    → task_id_from_session value ≡ some id
    → (value ≡ session_name_from_id id) × (valid_task_id id ≡ true)
unfolding task_id_from_session session_name_from_id
session_id_sound value id e = elim (Option-cases (strip_prefix session_prefix value)) [
  | inl absent ↦ absurd (ground (arith, e, absent))
  | inr (found, stripped) ↦ elim (Bool-cases (valid_task_id found)) [
    | inr invalid ↦ absurd (ground (arith, e, stripped, invalid))
    | inl valid ↦
        let same : found ≡ id = ground (arith, e, stripped, valid) in
        (
          strip_prefix_sound session_prefix value id (stripped ∙ ap some same),
          subst (λ x. valid_task_id x ≡ true) same valid,
        )
  ]
]

session_id_complete :
    (id : List ℕ)
    → valid_task_id id ≡ true
    → task_id_from_session (session_name_from_id id) ≡ some id
unfolding task_id_from_session session_name_from_id
session_id_complete id valid = rw (strip_prefix-append session_prefix id, valid) refl

-- A session name yields a task id exactly if it is the name issued for that id, and the id is valid.
pub task_id_from_session_iff :
    (value id : List ℕ)
    → (task_id_from_session value ≡ some id)
      ↔ ((value ≡ session_name_from_id id) × (valid_task_id id ≡ true))
task_id_from_session_iff value id = (
  session_id_sound value id,
  λ p. subst (λ x. task_id_from_session x ≡ some id) (sym p.0) (session_id_complete id p.1),
)

-- No ordinary session name yields a task id.
pub valid_ordinary_session_name_lem :
    (value : List ℕ) → valid_ordinary_session_name value ≡ true → task_id_from_session value ≡ none
unfolding valid_ordinary_session_name task_id_from_session
valid_ordinary_session_name_lem value e = elim (Option-cases (strip_prefix session_prefix value)) [
  | inl absent ↦ rw absent refl
  | inr (found, stripped) ↦ absurd (ground (arith, e, stripped))
]
