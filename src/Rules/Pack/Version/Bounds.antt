-- ===== src/Rules/Pack/Version/Bounds.antt =====
-- crates/unlinger-rules/src/lib.rs: the size of a version that is read.
use unlinger.Prelude.{
  ℕ, ◌+◌, ◌*◌, ◌-◌, ◌≤◌, ◌<◌, ◌≡◌, refl, sym, inl, inr, false, ◌&&◌, ◌||◌, not, Option, none, some,
  List, [], ◌∷◌, arith, All, all, Bool-cases, Option-cases, is_empty, length, leb, ltb, u64_max,
  ◌==◌,
}
use unlinger.Core.Task.{is_ascii_digit}
use unlinger.Rules.Text.{split_on}
use unlinger.Rules.Pack.Version.{
  drop_zeros, parse_component, parse_components, parse_digits, parse_dotted_version, pop_zeros,
  popped,
}

abbrev Fits : ℕ → Type 0
Fits n = n ≤ u64_max

parse_digits-Fits :
    (acc : ℕ) (ds : List ℕ) (n : ℕ) → acc ≤ u64_max → parse_digits acc ds ≡ some n → Fits n
unfolding parse_digits
parse_digits-Fits acc [] n h e = ground (arith, h, e)
parse_digits-Fits acc (d ∷ ds) n h e = elim (Bool-cases (leb (acc * 10 + (d - b'0')) u64_max)) [
  | inr large ↦ absurd (cc (rw (large, parse_digits) at e))
  | inl small ↦
      parse_digits-Fits (acc * 10 + (d - b'0')) ds n (ground (arith, small))
        (rw (small, parse_digits) at e)
]

parse_component-Fits : (part : List ℕ) (n : ℕ) → parse_component part ≡ some n → Fits n
unfolding parse_component
parse_component-Fits part n e = elim (Bool-cases (not (is_empty part) && all is_ascii_digit part)) [
  | inr bad ↦ absurd (cc (rw (bad, parse_component) at e))
  | inl good ↦ parse_digits-Fits 0 part n (omega arith) (rw (good, parse_component) at e)
]

parse_components-Fits :
    (parts : List (List ℕ)) (ns : List ℕ)
    → parse_components parts ≡ some ns
    → (length ns ≡ length parts) × All Fits ns
unfolding parse_components
parse_components-Fits [] ns e =
    let same : [] ≡ ns = cc (e) in (rw (sym same) refl, rw (sym same) tt)
parse_components-Fits (p ∷ ps) ns e = elim (Option-cases (parse_component p)) [
  | inl bad ↦ absurd (cc (rw (bad, parse_components) at e))
  | inr (n, good) ↦ elim (Option-cases (parse_components ps)) [
    | inl bad ↦ absurd (cc (rw (good, bad, parse_components) at e))
    | inr (rest, more) ↦
        let same : n ∷ rest ≡ ns = cc (rw (good, more, parse_components) at e) in
        let (l, f) = parse_components-Fits ps rest more in
        (rw (sym same) (omega (arith, l)), rw (sym same) (parse_component-Fits p n good, f))
  ]
]

drop_zeros-Fits :
    (ns : List ℕ) → All Fits ns → (length (drop_zeros ns) ≤ length ns) × All Fits (drop_zeros ns)
unfolding drop_zeros
drop_zeros-Fits [] f = (ground arith, tt)
drop_zeros-Fits (n ∷ ns) f =
    let (l, g) = drop_zeros-Fits ns f.1 in
    elim (Bool-cases (n == 0 && is_empty (drop_zeros ns))) [
      | inl last ↦ rw last (omega arith, tt)
      | inr kept ↦ rw kept (omega (arith, l), (f.0, g))
    ]

popped-Fits :
    (o : Option (List ℕ)) (parts : List (List ℕ)) (ns : List ℕ)
    → ((ms : List ℕ) → o ≡ some ms → (length ms ≡ length parts) × All Fits ms)
    → 0 < length parts
    → popped o ≡ some ns
    → (0 < length ns) × (length ns ≤ length parts) × All Fits ns
unfolding pop_zeros
popped-Fits none parts ns h lo e = absurd (cc)
popped-Fits (some []) parts ns h lo e = absurd (omega (arith, lo, (h [] refl).0))
popped-Fits (some (m ∷ ms)) parts ns h lo e =
    let same : m ∷ drop_zeros ms ≡ ns = cc (e) in
    let (l, f) = h (m ∷ ms) refl in
    let (shorter, g) = drop_zeros-Fits ms f.1 in
    (rw (sym same) (omega arith), rw (sym same) (omega (arith, l, shorter)), rw (sym same) (f.0, g))

size_bounds :
    {A : Type 0} (xs : List A) (n : ℕ)
    → (is_empty xs || ltb n (length xs)) ≡ false
    → (0 < length xs) × (length xs ≤ n)
size_bounds [] n e = absurd (cc)
size_bounds (x ∷ xs) n e = (omega arith, ground (arith, e))

-- A version is read only from a text of 1 to 64 bytes, and has 1 to 8 components that fit in 64 bits.
pub parse_dotted_version_bounds :
    (value ns : List ℕ)
    → parse_dotted_version value ≡ some ns
    → (0 < length value)
      × (length value ≤ 64)
      × (0 < length ns)
      × (length ns ≤ 8)
      × All (λ n. n ≤ u64_max) ns
unfolding parse_dotted_version
parse_dotted_version_bounds value ns e =
    let parts = split_on b'.' [] value in
    elim (Bool-cases (is_empty value || ltb 64 (length value))) [
      | inl bad ↦ absurd (cc (rw (bad, parse_dotted_version) at e))
      | inr good ↦ elim (Bool-cases (is_empty parts || ltb 8 (length parts))) [
        | inl bad ↦ absurd (cc (rw (good, bad, parse_dotted_version) at e))
        | inr few ↦
            let (l, u) = size_bounds value 64 good in
            let (m, v) = size_bounds parts 8 few in
            let (n, k, f) =
              popped-Fits (parse_components parts) parts ns (λ ms. parse_components-Fits parts ms) m
                (rw (good, few, parse_dotted_version) at e) in
            (l, u, n, omega (arith, k, v), f)
      ]
    ]
