-- ===== src/Core/Fingerprint/Order.antt =====
-- crates/unlinger-core/src/fingerprint.rs: the order in which a process set's rows are sorted.
use mathlib.Core.List.{Permᴰ}
use unlinger.Prelude.{ℕ, ◌≡◌, refl, ap, ◌∙◌, true, false, List, [], ◌∷◌, arith, map}
use unlinger.Core.Model.{ProcessIdentity}
use unlinger.Core.Fingerprint.{
  row_le, insert_row, sort_rows, identity_row, fingerprint_parts, fingerprint_process_set,
}

row_le_total : (r s : List ℕ) → row_le r s ≡ false → row_le s r ≡ true
unfolding row_le
row_le_total [] s e = absurd (cc)
row_le_total (x ∷ xs) [] e = refl
row_le_total (x ∷ xs) (y ∷ ys) e = ground (arith, row_le_total xs ys)

row_le_antisym : (r s : List ℕ) → row_le r s ≡ true → row_le s r ≡ true → r ≡ s
unfolding row_le
row_le_antisym [] [] e f = refl
row_le_antisym [] (y ∷ ys) e f = absurd (cc)
row_le_antisym (x ∷ xs) [] e f = absurd (cc)
row_le_antisym (x ∷ xs) (y ∷ ys) e f = ground (arith, row_le_antisym xs ys)

row_le_trans : (r s t : List ℕ) → row_le r s ≡ true → row_le s t ≡ true → row_le r t ≡ true
unfolding row_le
row_le_trans [] s t e f = refl
row_le_trans (x ∷ xs) [] t e f = absurd (cc)
row_le_trans (x ∷ xs) (y ∷ ys) [] e f = absurd (cc)
row_le_trans (x ∷ xs) (y ∷ ys) (z ∷ zs) e f = ground (arith, row_le_trans xs ys zs)

insert_row_swap :
    (r s : List ℕ) (rows : List (List ℕ))
    → insert_row r (insert_row s rows) ≡ insert_row s (insert_row r rows)
unfolding insert_row
insert_row_swap r s [] = ground (arith, row_le_total r s, row_le_total s r, row_le_antisym r s)
insert_row_swap r s (t ∷ rows) = ground (
  arith,
  row_le_total r s,
  row_le_total s r,
  row_le_antisym r s,
  row_le_trans r s t,
  row_le_trans s r t,
  insert_row_swap r s rows,
)

same_rows :
    {xs ys : List ProcessIdentity}
    → Permᴰ xs ys
    → sort_rows (map identity_row xs) ≡ sort_rows (map identity_row ys)
unfolding sort_rows
same_rows Permᴰ.nil = refl
same_rows (Permᴰ.cons {b = b} {l₁ = xs} e p) =
    ap (λ i. insert_row (identity_row i) (sort_rows (map identity_row xs))) e
    ∙ ap (insert_row (identity_row b)) (same_rows p)
same_rows (Permᴰ.swap {a = a} {b = b} {a' = c} {b' = d} {l = l} e f) =
    let rows = sort_rows (map identity_row l) in
    insert_row_swap (identity_row a) (identity_row b) rows
    ∙ ap (λ i. insert_row (identity_row i) (insert_row (identity_row a) rows)) f
    ∙ ap (λ i. insert_row (identity_row c) (insert_row (identity_row i) rows)) e
same_rows (Permᴰ.trans p q) = same_rows p ∙ same_rows q

-- The fingerprint of a process set does not depend on the order in which the processes are listed.
pub fingerprint_process_set_lem :
    (xs ys : List ProcessIdentity)
    → Permᴰ xs ys
    → fingerprint_process_set xs ≡ fingerprint_process_set ys
unfolding fingerprint_process_set
fingerprint_process_set_lem xs ys p = ap fingerprint_parts (same_rows p)
