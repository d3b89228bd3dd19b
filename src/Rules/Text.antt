-- ===== src/Rules/Text.antt =====
-- crates/unlinger-rules/src/lib.rs: text that the rules look into, as the list of its bytes.
use Prim.Native.Char.{code}
use Prim.Native.String.{◌++◌ as append_text}
use unlinger.Prelude.{
  ℕ, ◌+◌, ◌==◌, leb, Bool, true, false, ◌&&◌, ◌||◌, Option, none, some, List, [], ◌∷◌, ◌++◌, map,
  String, str_eq, any, is_empty, is_some, bytes, utf8, is_whitespace, if◌then◌else◌, unwrap_or,
}
use unlinger.Core.Model.{ProcessRecord}
use unlinger.Core.Task.{strip_prefix}

abbrev pub lower_byte : ℕ → ℕ
lower_byte b = if leb b'A' b && leb b b'Z' then b + 32 else b

unfoldable pub to_ascii_lowercase : List ℕ → List ℕ
to_ascii_lowercase = map lower_byte

-- `replace('\\', "/")`.
abbrev pub slash_byte : ℕ → ℕ
slash_byte b = if b == 0x5c then b'/' else b

unfoldable pub normalize : List ℕ → List ℕ
unfolding to_ascii_lowercase
normalize value = map slash_byte (to_ascii_lowercase value)

unfoldable pub bytes_eq : List ℕ → List ℕ → Bool
bytes_eq [] [] = true
bytes_eq [] (b ∷ bs) = false
bytes_eq (a ∷ as_) [] = false
bytes_eq (a ∷ as_) (b ∷ bs) = a == b && bytes_eq as_ bs

unfoldable pub starts_with : List ℕ → List ℕ → Bool
unfolding strip_prefix
starts_with value needle = is_some (strip_prefix needle value)

-- `str::contains`.
unfoldable pub contains_text : List ℕ → List ℕ → Bool
unfolding starts_with
contains_text [] needle = is_empty needle
contains_text (b ∷ bs) needle = starts_with (b ∷ bs) needle || contains_text bs needle

unfoldable pub contains_any : List ℕ → List String → Bool
unfolding normalize contains_text
contains_any value markers =
    let value' = normalize value in any (λ m. contains_text value' (normalize (bytes m))) markers

-- `option == Some(text)`.
abbrev pub is_text : Option String → String → Bool
is_text none s = false
is_text (some t) s = str_eq t s

abbrev pub is_bytes : Option (List ℕ) → List ℕ → Bool
is_bytes none s = false
is_bytes (some t) s = bytes_eq t s

-- The code points of a text, and `str::trim` as bytes.
unfoldable pub codes : String → List ℕ
codes String.[] = []
codes (String.◌∷◌ c s) = code c ∷ codes s

unfoldable pub trim_start : List ℕ → List ℕ
trim_start [] = []
trim_start (c ∷ cs) = if is_whitespace c then trim_start cs else c ∷ cs

unfoldable pub trim_end : List ℕ → List ℕ
trim_end [] = []
trim_end (c ∷ cs) =
    let rest = trim_end cs in if is_empty rest && is_whitespace c then [] else c ∷ rest

unfoldable pub encode : List ℕ → List ℕ
encode [] = []
encode (c ∷ cs) = utf8 c ++ encode cs

unfoldable pub trim : String → List ℕ
unfolding codes trim_start trim_end encode
trim s = encode (trim_end (trim_start (codes s)))

-- The parts between the separators, the part being read held in order.
unfoldable pub split_on : ℕ → List ℕ → List ℕ → List (List ℕ)
split_on sep part [] = part ∷ []
split_on sep part (b ∷ bs) =
    let done = part ∷ split_on sep [] bs in
    let more = split_on sep (part ++ b ∷ []) bs in if b == sep then done else more

split_path : String → String → List String
split_path part String.[] = part ∷ []
split_path part (String.◌∷◌ c s) =
    let done = part ∷ split_path String.[] s in
    let more = split_path (append_text part (String.◌∷◌ c String.[])) s in
    if code c == b'/' then done else more

-- `Path::file_name`: the last part that is neither empty nor `.`, unless it is `..`.
last_part : Option String → List String → Option String
last_part last [] = last
last_part last (p ∷ ps) = last_part (if str_eq p "" || str_eq p "." then last else some p) ps

normal_part : Option String → Option String
normal_part none = none
normal_part (some p) = if str_eq p ".." then none else some p

unfoldable pub file_name : String → Option String
unfolding split_path last_part normal_part
file_name path = normal_part (last_part none (split_path String.[] path))

abbrev file_name_of : Option String → Option String
file_name_of none = none
file_name_of (some path) = file_name path

-- `ProcessRecord::executable_basename`.
unfoldable pub executable_basename : ProcessRecord → String
unfolding file_name
executable_basename p = unwrap_or (file_name_of p.executable_path) p.name
