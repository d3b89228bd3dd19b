-- ===== src/Rules/Matching.antt =====
-- crates/unlinger-rules/src/lib.rs: what the rules look for in one process.
use unlinger.Prelude.{
  ℕ, ◌+◌, Bool, true, false, ◌&&◌, ◌||◌, not, Option, none, some, List, [], ◌∷◌, ◌++◌, String, any,
  bytes, if◌then◌else◌, unwrap_or,
}
use unlinger.Core.Model.{ProcessRecord}
use unlinger.Core.Task.{strip_prefix}
use unlinger.Rules.Text.{
  bytes_eq, contains_any, contains_text, executable_basename, normalize, starts_with,
  to_ascii_lowercase,
}
use unlinger.Rules.Pack.{SignaturePack}

abbrev pub standard_profile_markers : List String
standard_profile_markers =
    "/library/application support/google/chrome" ∷ "/library/application support/chromium"
    ∷ "/library/application support/microsoft edge" ∷ []

abbrev pub headless_markers : List String
headless_markers = "--headless" ∷ "--headless=new" ∷ "--headless=old" ∷ []

abbrev pub transport_markers : List String
transport_markers = "--remote-debugging-pipe" ∷ "--remote-debugging-port" ∷ []

-- The arguments, none where they are not known.
abbrev pub arguments_of : ProcessRecord → List String
arguments_of p = unwrap_or p.arguments []

abbrev lower : String → List ℕ
lower s = to_ascii_lowercase (bytes s)

unfoldable pub lower_basename : ProcessRecord → List ℕ
unfolding executable_basename to_ascii_lowercase
lower_basename p = lower (executable_basename p)

unfoldable pub matches_recorder : ProcessRecord → SignaturePack → Bool
unfolding lower_basename bytes_eq
matches_recorder p pack =
    any (λ name. bytes_eq (lower_basename p) (bytes name)) pack.recorder_executable_basenames

-- Some argument starts with `--type=`.
unfoldable pub has_type_argument : ProcessRecord → Bool
unfolding to_ascii_lowercase starts_with
has_type_argument p = any (λ a. starts_with (lower a) (bytes "--type=")) (arguments_of p)

unfoldable pub matches_controller : ProcessRecord → SignaturePack → Bool
unfolding matches_recorder lower_basename contains_text has_type_argument contains_any starts_with
matches_controller p pack =
    if matches_recorder p pack
      || contains_text (lower_basename p) (bytes "crashpad")
      || has_type_argument p
    then false
    else if contains_any (lower (unwrap_or p.executable_path p.name)) pack.controller_markers
    then true
    else any
        (λ a.
          not (starts_with (bytes a) (bytes "-")) && contains_any (bytes a) pack.controller_markers)
        (arguments_of p)

unfoldable pub is_browser_root : ProcessRecord → SignaturePack → Bool
unfolding lower_basename contains_any has_type_argument
is_browser_root p pack =
    contains_any (lower_basename p) pack.browser_executable_markers && not (has_type_argument p)

unfoldable pub process_contains_any : ProcessRecord → List String → Bool
unfolding contains_any
process_contains_any p markers =
    contains_any (bytes p.name) markers
    || (elim p.executable_path [ none ↦ false | some path ↦ contains_any (bytes path) markers ])
    || any (λ a. contains_any (bytes a) markers) (arguments_of p)

unfoldable pub args_contain : ProcessRecord → String → Bool
unfolding to_ascii_lowercase bytes_eq starts_with
args_contain p marker =
    any
      (λ a. bytes_eq (lower a) (lower marker) || starts_with (lower a) (lower marker ++ bytes "="))
      (arguments_of p)

unfoldable pub args_contain_any : ProcessRecord → List String → Bool
unfolding args_contain
args_contain_any p markers = any (args_contain p) markers

-- What is left of a text behind as many bytes as a flag has.
abbrev drop_bytes : List ℕ → List ℕ → List ℕ
drop_bytes [] text = text
drop_bytes (f ∷ fs) [] = []
drop_bytes (f ∷ fs) (b ∷ bs) = drop_bytes fs bs

abbrev first_bytes : List String → Option (List ℕ)
first_bytes [] = none
first_bytes (a ∷ as_) = some (bytes a)

-- `argument[offset..]`: lower case keeps the length, so the value is what follows the flag.
unfoldable pub value_in : List String → List ℕ → Option (List ℕ)
unfolding to_ascii_lowercase bytes_eq strip_prefix
value_in [] flag = none
value_in (a ∷ as_) flag =
    let rest = value_in as_ flag in
    if bytes_eq (lower a) flag
    then first_bytes as_
    else elim (strip_prefix (flag ++ bytes "=") (lower a)) [
      | none ↦ rest
      | some value ↦ some (drop_bytes (flag ++ bytes "=") (bytes a))
    ]

unfoldable pub flag_value : ProcessRecord → String → Option (List ℕ)
unfolding value_in
flag_value p flag = value_in (arguments_of p) (lower flag)

unfoldable pub pack_anchor_count : ProcessRecord → SignaturePack → ℕ
unfolding process_contains_any flag_value contains_any
pack_anchor_count p pack =
    (if process_contains_any p pack.framework_markers then 1 else 0)
    + (elim (flag_value p "--user-data-dir") [
      | none ↦ 0
      | some path ↦ if contains_any path pack.ephemeral_profile_markers then 1 else 0
    ])

unfoldable pub is_ephemeral_path : List ℕ → Bool
unfolding normalize starts_with contains_text
is_ephemeral_path path =
    let path' = normalize path in
    starts_with path' (bytes "/tmp/")
    || starts_with path' (bytes "/private/tmp/")
    || starts_with path' (bytes "/var/folders/")
    || contains_text path' (bytes "playwright_chromiumdev_profile")
    || contains_text path' (bytes "puppeteer_dev_chrome_profile")
