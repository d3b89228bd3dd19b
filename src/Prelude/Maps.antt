-- ===== src/Prelude/Maps.antt =====
-- `BTreeMap<u32, V>` as a list of pairs in the order of its keys.
use Prim.Native.Nat.{ℕ, compare, Ordering}
use mathlib.Core.Path.{◌≡◌, refl}
use mathlib.Core.Logic.{◌⊎◌, inl, inr}
use mathlib.Core.Bool.{Bool, true, false}
use mathlib.Core.List.{List, [], ◌∷◌, map}
use mathlib.Core.Option.{Option, none, some}
use native.Mathlib.Omega.{arith}
use unlinger.Prelude.Tests.{◌==◌, if◌then◌else◌, is_some}
use unlinger.Prelude.Lists.{In}

abbrev pub Map : Type 0 → Type 0
Map V = List (ℕ × V)

module _ {V : Type 0} where
  unfoldable pub insert : ℕ → V → Map V → Map V
  insert k v [] = (k, v) ∷ []
  insert k v ((j, w) ∷ m) = elim (compare k j) [
    | Ordering.lt ↦ (k, v) ∷ (j, w) ∷ m
    | Ordering.eq ↦ (k, v) ∷ m
    | Ordering.gt ↦ (j, w) ∷ insert k v m
  ]

  unfoldable pub get : ℕ → Map V → Option V
  get k [] = none
  get k ((j, w) ∷ m) = if j == k then some w else get k m

  abbrev pub contains_key : ℕ → Map V → Bool
  contains_key k m = is_some (get k m)

  abbrev pub keys : Map V → List ℕ
  keys = map (λ e. e.0)

  abbrev pub values : Map V → List V
  values = map (λ e. e.1)

  pub get-insert :
      (k j : ℕ) (v : V) (m : Map V) → get j (insert k v m) ≡ (if k == j then some v else get j m)
  unfolding insert get
  get-insert k j v [] = refl
  get-insert k j v ((i, w) ∷ m) = ground (arith, get-insert k j v m)

  -- A key of the list is one that `get` finds.
  pub In-keys : (k : ℕ) (m : Map V) → In k (keys m) → (v : V) × (get k m ≡ some v)
  unfolding get
  In-keys k [] h = absurd h
  In-keys k ((j, w) ∷ m) (inl e) = (w, ground arith)
  In-keys k ((j, w) ∷ m) (inr h) =
      let (v, e) = In-keys k m h in
      elim (Bool-split (j == k)) [ inl hit ↦ (w, rw hit) | inr miss ↦ (v, rw miss e) ]
    where
      Bool-split : (b : Bool) → (b ≡ true) ⊎ (b ≡ false)
      Bool-split true = inl refl
      Bool-split false = inr refl
