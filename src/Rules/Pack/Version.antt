-- ===== src/Rules/Pack/Version.antt =====
-- crates/unlinger-rules/src/lib.rs: dotted versions.
pub mod Bounds
use unlinger.Prelude.{
  ℕ, ◌+◌, ◌*◌, ◌-◌, ◌==◌, ltb, leb, Bool, true, false, ◌&&◌, ◌||◌, not, Option, none, some, List,
  [], ◌∷◌, all, is_empty, length, u64_max, if◌then◌else◌,
}
use unlinger.Core.Task.{is_ascii_digit}
use unlinger.Rules.Text.{split_on}

-- `parse::<u64>` of digits: `none` where the value does not fit.
unfoldable pub parse_digits : ℕ → List ℕ → Option ℕ
parse_digits acc [] = some acc
parse_digits acc (d ∷ ds) =
    let acc' = acc * 10 + (d - b'0') in
    let rest = parse_digits acc' ds in if leb acc' u64_max then rest else none

unfoldable pub parse_component : List ℕ → Option ℕ
unfolding parse_digits
parse_component part =
    if not (is_empty part) && all is_ascii_digit part then parse_digits 0 part else none

abbrev pub cons_component : Option ℕ → Option (List ℕ) → Option (List ℕ)
cons_component (some n) (some ns) = some (n ∷ ns)
cons_component (some n) none = none
cons_component none ns = none

-- `collect::<Option<Vec<_>>>()`.
unfoldable pub parse_components : List (List ℕ) → Option (List ℕ)
unfolding parse_component
parse_components [] = some []
parse_components (p ∷ ps) = cons_component (parse_component p) (parse_components ps)

-- Zeros at the end are dropped, all of them.
unfoldable pub drop_zeros : List ℕ → List ℕ
drop_zeros [] = []
drop_zeros (n ∷ ns) = let rest = drop_zeros ns in if n == 0 && is_empty rest then [] else n ∷ rest

-- The loop that pops zeros as long as a component is left.
unfoldable pub pop_zeros : List ℕ → List ℕ
unfolding drop_zeros
pop_zeros [] = []
pop_zeros (n ∷ ns) = n ∷ drop_zeros ns

abbrev pub popped : Option (List ℕ) → Option (List ℕ)
popped none = none
popped (some ns) = some (pop_zeros ns)

unfoldable pub parse_dotted_version : List ℕ → Option (List ℕ)
unfolding split_on parse_components pop_zeros
parse_dotted_version value =
    if is_empty value || ltb 64 (length value)
    then none
    else let parts = split_on b'.' [] value in
      if is_empty parts || ltb 8 (length parts) then none else popped (parse_components parts)
