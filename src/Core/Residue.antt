-- ===== src/Core/Residue.antt =====
-- crates/unlinger-core/src/storage_residue.rs: what is observed of storage residue, and how a cleanup of it
-- ends.
use unlinger.Prelude.{
  ℕ, ◌≡◌, ◌↔◌, refl, Bool, true, false, Option, none, some, List, String, str_eq, eq_iff,
  if◌then◌else◌,
}

pub data StorageResidueKind : Type 0 where
  chrome_code_sign_clone : StorageResidueKind

pub data StorageResidueStatus : Type 0 where
  clear detected unavailable : StorageResidueStatus

pub data StorageResidueReferenceCheck : Type 0 where
  incomplete complete_no_references referenced : StorageResidueReferenceCheck

pub record StorageResidueObservation : Type 0 where
  pub kind : StorageResidueKind
  pub status : StorageResidueStatus
  pub observed_at_unix_millis : ℕ
  pub candidate_count : ℕ
  pub logical_bytes : ℕ
  pub shape_complete : Bool
  pub reference_check : StorageResidueReferenceCheck
  pub automatic_cleanup_eligible : Bool
  pub reason_ids : List String

pub record StorageCleanupAttemptFacts : Type 0 where
  pub planned_candidate_count : ℕ
  pub before_candidate_count : ℕ
  pub before_logical_bytes : ℕ

pub data StorageCleanupDisposition : Type 0 where
  complete partial failed delivery_unknown : StorageCleanupDisposition

pub record StorageCleanupResultFacts : Type 0 where
  pub disposition : StorageCleanupDisposition
  pub planned_candidate_count : ℕ
  pub before_candidate_count : ℕ
  pub before_logical_bytes : ℕ
  pub removed_candidate_count : Option ℕ
  pub after_candidate_count : Option ℕ
  pub after_logical_bytes : Option ℕ
  pub retained_not_planned_count : Option ℕ

abbrev pub as_str : StorageCleanupDisposition → String
as_str complete = "complete"
as_str partial = "partial"
as_str failed = "failed"
as_str delivery_unknown = "delivery_unknown"

unfoldable pub parse : String → Option StorageCleanupDisposition
parse value =
    if str_eq value "complete"
    then some complete
    else if str_eq value "partial"
    then some partial
    else if str_eq value "failed"
    then some failed
    else if str_eq value "delivery_unknown"
    then some delivery_unknown
    else none

-- The branches of `parse`.
parse_split :
    (value : String) (is : Bool) (word : String) (hit : StorageCleanupDisposition)
    (rest : Option StorageCleanupDisposition) (d : StorageCleanupDisposition)
    → str_eq value word ≡ is
    → as_str hit ≡ word
    → (rest ≡ some d → value ≡ as_str d)
    → (if is then some hit else rest) ≡ some d
    → value ≡ as_str d
parse_split value true word hit rest d e w later h =
    let same : hit ≡ d = cc (h) in cc ((eq_iff value word).0 e, w, same)
parse_split value false word hit rest d e w later h = later h

written : (d : StorageCleanupDisposition) → parse (as_str d) ≡ some d
unfolding parse
written complete = refl
written partial = refl
written failed = refl
written delivery_unknown = refl

-- A text is read as a disposition exactly if it is the text that stands for it.
pub parse-as_str :
    (value : String) (d : StorageCleanupDisposition) → (parse value ≡ some d) ↔ (value ≡ as_str d)
unfolding parse
parse-as_str value d = (
  (λ e.
      parse_split value (str_eq value "complete") "complete" complete _ d refl refl
        (parse_split value (str_eq value "partial") "partial" partial _ d refl refl (
          parse_split value (str_eq value "failed") "failed" failed _ d refl refl (
            parse_split value (str_eq value "delivery_unknown") "delivery_unknown" delivery_unknown
              none d refl refl (λ n. absurd (cc (n))))))
        e),
  (λ same. rw same (written d)),
)
