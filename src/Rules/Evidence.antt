-- ===== src/Rules/Evidence.antt =====
-- crates/unlinger-rules/src/lib.rs: evidence in its order, and the parts of a report.
use unlinger.Prelude.{
  ℕ, suc, ◌+◌, ◌%◌, ◌^◌, ◌==◌, ltb, leb, Bool, true, false, ◌&&◌, ◌||◌, Option, none, some, List,
  [], ◌∷◌, String, str_eq, bytes, Map, insert, get, if◌then◌else◌, Result, ok, err,
}
use unlinger.Core.Model.{ProcessRecord}
use unlinger.Core.Evidence.{
  EvidenceFamily, EvidenceItem, ProcessRole, ProcessRoleCount, ProcessTarget, automation_provenance,
  abandonment, isolation, protection, controller, browser_root, renderer, gpu, utility,
  browser_helper, crash_handler, recorder, incident_member,
}
use unlinger.Core.Artifact.{ArtifactCandidateError, RuntimeArtifactCandidate, devtools_active_port}
use unlinger.Core.Fingerprint.{row_le}
use unlinger.Rules.Text.{bytes_eq, normalize}
use unlinger.Rules.Candidates.{Candidate}
use unlinger.Rules.Roles.{process_role}
use unlinger.Rules.Classify.{is_here}

abbrev pub item : String → EvidenceFamily → Option ℕ → EvidenceItem
item id family source_pid = record { id = id; family = family; source_pid = source_pid }

abbrev family_rank : EvidenceFamily → ℕ
family_rank automation_provenance = 0
family_rank abandonment = 1
family_rank isolation = 2
family_rank protection = 3

-- `None` is below every `Some`.
abbrev pid_key : Option ℕ → ℕ
pid_key none = 0
pid_key (some pid) = suc pid

-- `(family, id, source_pid) <= (family, id, source_pid)`.
unfoldable pub evidence_le : EvidenceItem → EvidenceItem → Bool
unfolding row_le bytes_eq
evidence_le x y =
    ltb (family_rank x.family) (family_rank y.family)
    || family_rank x.family == family_rank y.family
      && (if bytes_eq (bytes x.id) (bytes y.id)
          then leb (pid_key x.source_pid) (pid_key y.source_pid)
          else row_le (bytes x.id) (bytes y.id))

abbrev evidence_eq : EvidenceItem → EvidenceItem → Bool
evidence_eq x y =
    family_rank x.family == family_rank y.family
    && str_eq x.id y.id
    && pid_key x.source_pid == pid_key y.source_pid

unfoldable pub insert_evidence : EvidenceItem → List EvidenceItem → List EvidenceItem
unfolding evidence_le
insert_evidence x [] = x ∷ []
insert_evidence x (y ∷ ys) = if evidence_le x y then x ∷ y ∷ ys else y ∷ insert_evidence x ys

unfoldable pub sorted_evidence : List EvidenceItem → List EvidenceItem
unfolding insert_evidence
sorted_evidence [] = []
sorted_evidence (x ∷ xs) = insert_evidence x (sorted_evidence xs)

-- `dedup_by`: an item that equals the one kept before it is dropped.
unfoldable pub dedup_evidence : Option EvidenceItem → List EvidenceItem → List EvidenceItem
dedup_evidence last [] = []
dedup_evidence last (x ∷ xs) =
    let kept = x ∷ dedup_evidence (some x) xs in
    let dropped = dedup_evidence last xs in if is_here (evidence_eq x) last then dropped else kept

unfoldable pub sort_evidence : List EvidenceItem → List EvidenceItem
unfolding sorted_evidence dedup_evidence
sort_evidence evidence = dedup_evidence none (sorted_evidence evidence)

abbrev pub when : Bool → List EvidenceItem → List EvidenceItem
when true items = items
when false items = []

abbrev pub head_pid : List ℕ → Option ℕ
head_pid [] = none
head_pid (pid ∷ pids) = some pid

abbrev role_rank : ProcessRole → ℕ
role_rank controller = 0
role_rank browser_root = 1
role_rank renderer = 2
role_rank gpu = 3
role_rank utility = 4
role_rank browser_helper = 5
role_rank crash_handler = 6
role_rank recorder = 7
role_rank incident_member = 8

abbrev count_of : Option ProcessRoleCount → ℕ
count_of none = 0
count_of (some r) = r.count

-- `*role_counts.entry(role).or_default() += 1` for each member, in the order of the roles.
unfoldable pub count_roles :
    Candidate → Map ProcessRoleCount → List ProcessRecord → Map ProcessRoleCount
unfolding insert get process_role
count_roles c counts [] = counts
count_roles c counts (p ∷ ps) =
    let role = process_role p c in
    count_roles c
      (insert (role_rank role)
        (record { role = role; count = count_of (get (role_rank role) counts) + 1 }) counts)
      ps

abbrev pub target_of : Candidate → ProcessRecord → ProcessTarget
target_of c p = record {
  identity = p.identity;
  process_group_id = p.process_group_id;
  role = process_role p c;
}

unfoldable pub sum_memory : List ProcessRecord → ℕ
sum_memory [] = 0
sum_memory (p ∷ ps) = (p.resident_memory_bytes + sum_memory ps) % 2 ^ 64

-- `unique_profiles`: the first path for each normalized one, in their order.
unfoldable pub insert_profile : List ℕ → List (List ℕ × List ℕ) → List (List ℕ × List ℕ)
unfolding normalize bytes_eq row_le
insert_profile path [] = (normalize path, path) ∷ []
insert_profile path ((key, kept) ∷ rest) =
    if bytes_eq (normalize path) key
    then (key, kept) ∷ rest
    else if row_le (normalize path) key
    then (normalize path, path) ∷ (key, kept) ∷ rest
    else (key, kept) ∷ insert_profile path rest

unfoldable pub unique_profiles : List (List ℕ × List ℕ) → List (List ℕ) → List (List ℕ × List ℕ)
unfolding insert_profile
unique_profiles acc [] = acc
unique_profiles acc (path ∷ paths) = unique_profiles (insert_profile path acc) paths

abbrev if_ok :
    Result ArtifactCandidateError RuntimeArtifactCandidate → List RuntimeArtifactCandidate
if_ok (ok c) = c ∷ []
if_ok (err e) = []

-- `into_values().next().and_then(..)` where there is one profile, and nothing otherwise.
unfoldable pub only_artifact : List (List ℕ × List ℕ) → ℕ → String → List RuntimeArtifactCandidate
unfolding devtools_active_port
only_artifact ((key, path) ∷ []) uid session = if_ok (devtools_active_port path uid session)
only_artifact _ uid session = []
