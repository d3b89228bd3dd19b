-- ===== src/Prelude/Lists.antt =====
-- Lists: their native length, Boolean searches, sorting of numbers, and predicates on the elements.
use Prim.Native.Nat.{ℕ, suc, ◌+◌, ◌≤◌}
use mathlib.Core.Path.{◌≡◌, refl, sym, ap, ◌∙◌, subst}
use mathlib.Core.Logic.{◌⊎◌, inl, inr, ◌↔◌}
use mathlib.Core.Bool.{Bool, true, false, not, ◌&&◌, ◌||◌}
use mathlib.Core.List.{List, [], ◌∷◌, ◌++◌}
use mathlib.Core.Option.{Option, none, some}
use native.Mathlib.Omega.{arith}
use unlinger.Prelude.Tests.{leb, Bool-cases, ◌==◌, if◌then◌else◌}

module _ {ℓ} {A : Type ℓ} where
  abbrev pub length : List A → ℕ
  length [] = 0
  length (x ∷ xs) = suc (length xs)

  pub length-append : (xs ys : List A) → length (xs ++ ys) ≡ length xs + length ys
  length-append [] ys = omega arith
  length-append (x ∷ xs) ys = omega (arith, length-append xs ys)

  abbrev pub is_empty : List A → Bool
  is_empty [] = true
  is_empty (x ∷ xs) = false

  -- `iter().any(..)`, `iter().all(..)`, `iter().find(..)` and `iter().filter(..)`.
  abbrev pub any : (A → Bool) → List A → Bool
  any p [] = false
  any p (x ∷ xs) = p x || any p xs

  abbrev pub all : (A → Bool) → List A → Bool
  all p [] = true
  all p (x ∷ xs) = p x && all p xs

  abbrev pub find : (A → Bool) → List A → Option A
  find p [] = none
  find p (x ∷ xs) = if p x then some x else find p xs

  abbrev pub keep : (A → Bool) → List A → List A
  keep p [] = []
  keep p (x ∷ xs) = if p x then x ∷ keep p xs else keep p xs

-- One step of `filter_map`.
abbrev pub cons_some : {A : Type 0} → Option A → List A → List A
cons_some none xs = xs
cons_some (some x) xs = x ∷ xs

-- Membership and a predicate on every element, as types that compute on the list.
abbrev pub In : {A : Type 0} → A → List A → Type 0
In a [] = ⊥
In a (x ∷ xs) = (a ≡ x) ⊎ In a xs

abbrev pub All : {A : Type 0} → (A → Type 0) → List A → Type 0
All P [] = Unit
All P (x ∷ xs) = P x × All P xs

pub In-All : {A : Type 0} (P : A → Type 0) (a : A) (xs : List A) → All P xs → In a xs → P a
In-All P a [] h i = absurd i
In-All P a (x ∷ xs) h (inl e) = rw e h.0
In-All P a (x ∷ xs) h (inr i) = In-All P a xs h.1 i

pub In-append_right : {A : Type 0} (a : A) (xs ys : List A) → In a ys → In a (xs ++ ys)
In-append_right a [] ys h = h
In-append_right a (x ∷ xs) ys h = inr (In-append_right a xs ys h)

pub In-append_left : {A : Type 0} (a : A) (xs ys : List A) → In a xs → In a (xs ++ ys)
In-append_left a [] ys h = absurd h
In-append_left a (x ∷ xs) ys (inl e) = inl e
In-append_left a (x ∷ xs) ys (inr h) = inr (In-append_left a xs ys h)

pub In-append-split : {A : Type 0} (a : A) (xs ys : List A) → In a (xs ++ ys) → In a xs ⊎ In a ys
In-append-split a [] ys h = inr h
In-append-split a (x ∷ xs) ys (inl e) = inl (inl e)
In-append-split a (x ∷ xs) ys (inr h) = elim (In-append-split a xs ys h) [
  | inl i ↦ inl (inr i)
  | inr i ↦ inr i
]

-- `contains` on numbers.
abbrev pub contains : List ℕ → ℕ → Bool
contains [] n = false
contains (x ∷ xs) n = n == x || contains xs n

pub contains_iff : (xs : List ℕ) (n : ℕ) → (contains xs n ≡ true) ↔ In n xs
contains_iff [] n = ((λ h. cc), (λ h. absurd h))
contains_iff (x ∷ xs) n = ground (arith, contains_iff xs n)

-- `sort_unstable` on numbers, as an insertion sort, and `dedup`.
pub insert_sorted : ℕ → List ℕ → List ℕ
insert_sorted n [] = n ∷ []
insert_sorted n (x ∷ xs) = if leb n x then n ∷ x ∷ xs else x ∷ insert_sorted n xs

unfoldable pub sort : List ℕ → List ℕ
unfolding insert_sorted
sort [] = []
sort (x ∷ xs) = insert_sorted x (sort xs)

dedup_after : ℕ → List ℕ → List ℕ
dedup_after n [] = []
dedup_after n (x ∷ xs) = if n == x then dedup_after n xs else x ∷ dedup_after x xs

unfoldable pub dedup : List ℕ → List ℕ
unfolding dedup_after
dedup [] = []
dedup (x ∷ xs) = x ∷ dedup_after x xs

In-insert_sorted : (a n : ℕ) (xs : List ℕ) → In a (insert_sorted n xs) ↔ ((a ≡ n) ⊎ In a xs)
unfolding insert_sorted
In-insert_sorted a n [] = ((λ h. h), (λ h. h))
In-insert_sorted a n (x ∷ xs) = ground (arith, In-insert_sorted a n xs)

pub In-sort : (a : ℕ) (xs : List ℕ) → In a (sort xs) ↔ In a xs
unfolding sort
In-sort a [] = ((λ h. h), (λ h. h))
In-sort a (x ∷ xs) = ground (arith, In-sort a xs, In-insert_sorted a x (sort xs))

-- Increasing, from a lower bound on.
abbrev pub SortedFrom : ℕ → List ℕ → Type 0
SortedFrom n [] = Unit
SortedFrom n (x ∷ xs) = (n ≤ x) × SortedFrom x xs

insert_sorted-SortedFrom :
    (m n : ℕ) (xs : List ℕ) → m ≤ n → SortedFrom m xs → SortedFrom m (insert_sorted n xs)
unfolding insert_sorted
insert_sorted-SortedFrom m n [] h s = (h, tt)
insert_sorted-SortedFrom m n (x ∷ xs) h s = ground (arith, insert_sorted-SortedFrom x n xs)

pub sort-SortedFrom : (xs : List ℕ) → SortedFrom 0 (sort xs)
unfolding sort
sort-SortedFrom [] = tt
sort-SortedFrom (x ∷ xs) = insert_sorted-SortedFrom 0 x (sort xs) (omega arith) (sort-SortedFrom xs)

-- What a failed search, a successful test of all, and a filter say of each element.
pub any_none :
    {A : Type 0} (p : A → Bool) (xs : List A) (a : A) → any p xs ≡ false → In a xs → p a ≡ false
any_none p [] a e i = absurd i
any_none p (x ∷ xs) a e (inl same) = rw same (ground (arith, e))
any_none p (x ∷ xs) a e (inr i) = any_none p xs a (ground (arith, e)) i

pub all_each :
    {A : Type 0} (p : A → Bool) (xs : List A) (a : A) → all p xs ≡ true → In a xs → p a ≡ true
all_each p [] a e i = absurd i
all_each p (x ∷ xs) a e (inl same) = rw same (ground (arith, e))
all_each p (x ∷ xs) a e (inr i) = all_each p xs a (ground (arith, e)) i

pub any_some :
    {A : Type 0} (p : A → Bool) (xs : List A) → any p xs ≡ true → (a : A) × In a xs × (p a ≡ true)
any_some p [] e = absurd (cc)
any_some p (x ∷ xs) e = elim (Bool-cases (p x)) [
  | inl hit ↦ (x, inl refl, hit)
  | inr miss ↦ let (a, i, h) = any_some p xs (ground (arith, e, miss)) in (a, inr i, h)
]

pub In-keep_each :
    {A : Type 0} (p : A → Bool) (xs : List A) (a : A) → In a (keep p xs) → In a xs × (p a ≡ true)
In-keep_each p [] a i = absurd i
In-keep_each p (x ∷ xs) a i = elim (Bool-cases (p x)) [
  | inl hit ↦ elim (subst (λ b. In a (if b then x ∷ keep p xs else keep p xs)) hit i) [
    | inl same ↦ (inl same, rw same hit)
    | inr j ↦ let (k, h) = In-keep_each p xs a j in (inr k, h)
  ]
  | inr miss ↦
      let (k, h) =
        In-keep_each p xs a (subst (λ b. In a (if b then x ∷ keep p xs else keep p xs)) miss i) in
      (inr k, h)
]

pub In-keep_pass :
    {A : Type 0} (p : A → Bool) (xs : List A) (a : A) → In a xs → p a ≡ true → In a (keep p xs)
In-keep_pass p [] a i h = i
In-keep_pass p (x ∷ xs) a (inl same) h = rw (sym (ap p same) ∙ h) (inl same)
In-keep_pass p (x ∷ xs) a (inr i) h = elim (Bool-cases (p x)) [
  | inl hit ↦ rw hit (inr (In-keep_pass p xs a i h))
  | inr miss ↦ rw miss (In-keep_pass p xs a i h)
]

pub some_eq : {A : Type 0} (x y : A) → some x ≡ some y → x ≡ y
some_eq x y e = cc

pub not_empty_In : {A : Type 0} (x : A) (xs : List A) → In x xs → not (is_empty xs) ≡ true
not_empty_In x [] i = absurd i
not_empty_In x (y ∷ ys) i = refl

pub first_of : {A : Type 0} (xs : List A) → is_empty xs ≡ false → (x : A) × In x xs
first_of [] e = absurd (cc)
first_of (x ∷ xs) e = (x, inl refl)

-- What `find` finds.
pub find-some :
    {A : Type 0} (p : A → Bool) (xs : List A) (a : A) → find p xs ≡ some a → In a xs × (p a ≡ true)
find-some p [] a e = absurd (cc)
find-some p (x ∷ xs) a e = elim (Bool-cases (p x)) [
  | inl hit ↦
      let same = some_eq x a (subst (λ b. (if b then some x else find p xs) ≡ some a) hit e) in
      (inl (sym same), subst (λ y. p y ≡ true) same hit)
  | inr miss ↦
      let (i, h) =
        find-some p xs a (subst (λ b. (if b then some x else find p xs) ≡ some a) miss e) in
      (inr i, h)
]
