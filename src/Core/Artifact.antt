-- ===== src/Core/Artifact.antt =====
-- crates/unlinger-core/src/artifact.rs: runtime artifacts, their admission and their dispositions.
-- A path is the list of its bytes; `components` and `is_utf8` are std's, for Unix.
use Prim.Native.String.{◌++◌ as append_text}
use unlinger.Prelude.{
  ℕ, zero, suc, ◌+◌, Bool, true, false, ◌&&◌, ◌||◌, List, [], ◌∷◌, ◌++◌, Option, none, some, String,
  Result, ok, err, ◌>>=◌, ◌>>◌, guard, ltb, leb, ◌==◌, if◌then◌else◌, not, is_blank, bytes,
}
use unlinger.Core.Fingerprint.{fingerprint_parts}

pub data RuntimeArtifactKind : Type 0 where
  dev_tools_active_port : RuntimeArtifactKind

pub data ArtifactDisposition : Type 0 where
  removed already_absent identity_mismatch referenced unsafe rejected : ArtifactDisposition
  cancelled_before_delivery delivery_unknown : ArtifactDisposition

abbrev pub completed_cleanup : ArtifactDisposition → Bool
completed_cleanup removed = true
completed_cleanup already_absent = true
completed_cleanup _ = false

pub record ArtifactActionIntent : Type 0 where
  pub kind : RuntimeArtifactKind
  pub artifact_fingerprint : String

pub record ArtifactAction : Type 0 where
  pub kind : RuntimeArtifactKind
  pub artifact_fingerprint : String
  pub disposition : ArtifactDisposition

abbrev pub PathBytes : Type 0
PathBytes = List ℕ

pub record RuntimeArtifactCandidate : Type 0 where
  pub kind : RuntimeArtifactKind
  pub profile_path : PathBytes
  pub artifact_path : PathBytes
  pub owner_uid : ℕ
  pub session_fingerprint : String
  pub artifact_fingerprint : String

-- `RuntimeArtifactCandidate::intent`.
abbrev pub intent : RuntimeArtifactCandidate → ArtifactActionIntent
intent c = record { kind = c.kind; artifact_fingerprint = c.artifact_fingerprint }

pub record RuntimeArtifactIdentity : Type 0 where
  pub device : ℕ
  pub inode : ℕ
  pub owner_uid : ℕ
  pub mode : ℕ
  pub link_count : ℕ
  pub parent_device : ℕ
  pub parent_inode : ℕ
  pub parent_owner_uid : ℕ
  pub parent_mode : ℕ

pub record FrozenRuntimeArtifact : Type 0 where
  pub candidate : RuntimeArtifactCandidate
  pub identity : RuntimeArtifactIdentity

pub data ArtifactFreeze : Type 0 where
  frozen : FrozenRuntimeArtifact → ArtifactFreeze
  absent unsafe : ArtifactFreeze

pub data ArtifactCandidateError : Type 0 where
  relative_path unsafe_path_component root_profile non_utf8_path root_owner : ArtifactCandidateError
  missing_session_fingerprint : ArtifactCandidateError

pub data Component : Type 0 where
  root_dir cur_dir parent_dir : Component
  normal : List ℕ → Component

-- The parts of a path between slashes, the part being read held back to front.
split_slashes : List ℕ → List ℕ → List (List ℕ)
split_slashes part [] = part ∷ []
split_slashes part (b ∷ bs) =
    if b == b'/' then part ∷ split_slashes [] bs else split_slashes (part ++ b ∷ []) bs

abbrev is_dots : ℕ → List ℕ → Bool
is_dots zero [] = true
is_dots zero (b ∷ bs) = false
is_dots (suc n) [] = false
is_dots (suc n) (b ∷ bs) = b == b'.' && is_dots n bs

-- Empty parts and `.` are dropped.
part_components : List (List ℕ) → List Component
part_components [] = []
part_components (p ∷ ps) =
    if is_dots 0 p || is_dots 1 p
    then part_components ps
    else (if is_dots 2 p then parent_dir else normal p) ∷ part_components ps

-- A relative path keeps a leading `.`.
relative_components : List (List ℕ) → List Component
unfolding part_components
relative_components [] = []
relative_components (p ∷ ps) =
    if is_dots 1 p then cur_dir ∷ part_components ps else part_components (p ∷ ps)

-- `Path::is_absolute` and `Path::components`.
abbrev pub is_absolute : PathBytes → Bool
is_absolute [] = false
is_absolute (b ∷ bs) = b == b'/'

unfoldable pub components : PathBytes → List Component
unfolding split_slashes part_components relative_components
components path =
    if is_absolute path
    then root_dir ∷ part_components (split_slashes [] path)
    else relative_components (split_slashes [] path)

-- After the first byte of a character: how many bytes follow, and the bounds of the next one.
abbrev utf8_head : ℕ → Option (ℕ × ℕ × ℕ)
utf8_head b =
    if ltb b 0x80
    then some (0, 0x80, 0xbf)
    else if ltb b 0xc2
    then none
    else if ltb b 0xe0
    then some (1, 0x80, 0xbf)
    else if b == 0xe0
    then some (2, 0xa0, 0xbf)
    else if b == 0xed
    then some (2, 0x80, 0x9f)
    else if ltb b 0xf0
    then some (2, 0x80, 0xbf)
    else if b == 0xf0
    then some (3, 0x90, 0xbf)
    else if ltb b 0xf4
    then some (3, 0x80, 0xbf)
    else if b == 0xf4
    then some (3, 0x80, 0x8f)
    else none

utf8_from : ℕ → ℕ → ℕ → List ℕ → Bool
utf8_from zero lo hi [] = true
utf8_from (suc need) lo hi [] = false
utf8_from (suc need) lo hi (b ∷ bs) = leb lo b && leb b hi && utf8_from need 0x80 0xbf bs
utf8_from zero lo hi (b ∷ bs) = elim (utf8_head b) [
  | none ↦ false
  | some (need, l, h) ↦ utf8_from need l h bs
]

-- `Path::to_str` fails where the bytes are not UTF-8.
unfoldable pub is_utf8 : PathBytes → Bool
unfolding utf8_from
is_utf8 path = utf8_from 0 0x80 0xbf path

-- `Path::join` of a relative name.
unfoldable pub join : PathBytes → List ℕ → PathBytes
join [] name = name
join (b ∷ []) name = if b == b'/' then b ∷ name else b ∷ b'/' ∷ name
join (b ∷ c ∷ rest) name = b ∷ join (c ∷ rest) name

-- The loop of `validate_profile_path`, with the count of normal components.
count_normal : ℕ → List Component → Result ArtifactCandidateError ℕ
count_normal n [] = ok n
count_normal n (root_dir ∷ cs) = count_normal n cs
count_normal n (normal name ∷ cs) = count_normal (n + 1) cs
count_normal n (cur_dir ∷ cs) = err unsafe_path_component
count_normal n (parent_dir ∷ cs) = err unsafe_path_component

unfoldable pub validate_profile_path : PathBytes → Result ArtifactCandidateError (Unit {0})
unfolding components count_normal
validate_profile_path path = do
  guard (is_absolute path) relative_path
  normal_components ← count_normal 0 (components path)
  guard (not (normal_components == 0)) root_profile

unfoldable pub devtools_active_port :
    PathBytes → ℕ → String → Result ArtifactCandidateError RuntimeArtifactCandidate
unfolding validate_profile_path is_utf8 join fingerprint_parts is_blank
devtools_active_port profile uid session = do
  validate_profile_path profile
  guard (not (uid == 0)) root_owner
  guard (not (is_blank session)) missing_session_fingerprint
  guard (is_utf8 profile) non_utf8_path
  ok (record {
    kind = dev_tools_active_port;
    profile_path = profile;
    artifact_path = join profile (bytes "DevToolsActivePort");
    owner_uid = uid;
    session_fingerprint = session;
    artifact_fingerprint = append_text "art-" (
        fingerprint_parts (
          bytes "unlinger.runtime-artifact.v1"
          ∷ bytes "devtools_active_port"
          ∷ bytes session
          ∷ profile
          ∷ []));
  })
