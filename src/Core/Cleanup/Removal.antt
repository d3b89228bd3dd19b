-- ===== src/Core/Cleanup/Removal.antt =====
-- crates/unlinger-core/src/cleanup.rs: `execute_artifact_action`, which journals the removal of one
-- runtime artifact and looks at its path again afterwards.
use unlinger.Prelude.{ℕ, Option, none, some, String, not, if◌then◌else◌}
use unlinger.Core.Artifact.{
  ArtifactActionIntent, ArtifactDisposition, ArtifactFreeze, FrozenRuntimeArtifact,
  RuntimeArtifactCandidate, frozen, absent, already_absent, completed_cleanup, intent,
}
use unlinger.Core.Cleanup.Runtime.{
  Environment, Exec, Reply, next, artifact_frozen, artifact_removed, artifact_prepared,
  artifact_completed, pure, logged, or_terminal, or_open, update_receipt, ◌>>=◌, ◌>>◌,
}
use unlinger.Core.Cleanup.Liveness.{should_stop, clock_sample}
use unlinger.Core.Cleanup.Signal.{add_artifact_action}

module _ (env : Environment) where
  abbrev pub freeze_artifact : RuntimeArtifactCandidate → Exec (Reply ArtifactFreeze)
  freeze_artifact c s =
      let reply = env.freeze_artifact s.history c in
      (next reply, logged s (artifact_frozen c reply))

  abbrev pub remove_artifact_exact : FrozenRuntimeArtifact → Exec ArtifactDisposition
  remove_artifact_exact f s =
      let d = env.remove_artifact_exact s.history f in (next d, logged s (artifact_removed f d))

  abbrev pub prepare_artifact_action : ArtifactActionIntent → ℕ → Exec (Reply String)
  prepare_artifact_action i at s =
      let reply = env.prepare_artifact_action s.history i at in
      (next reply, logged s (artifact_prepared i at reply))

  abbrev pub complete_artifact_action : String → ArtifactDisposition → ℕ → Exec (Reply (Unit {0}))
  complete_artifact_action id d at s =
      let reply = env.complete_artifact_action s.history id d at in
      (next reply, logged s (artifact_completed id d at reply))

  unfoldable pub complete_artifact_prepared :
      ArtifactActionIntent → String → ArtifactDisposition → Exec (Unit {0})
  complete_artifact_prepared i id d = do
    sample ← clock_sample env >>= or_open id
    complete_artifact_action id d sample.wall_unix_millis >>= or_open id
    update_receipt (add_artifact_action i d)

  -- What a second look says of a path that was absent when the plan was frozen.
  abbrev pub late_disposition : ArtifactFreeze → ArtifactDisposition
  late_disposition absent = already_absent
  late_disposition (frozen f) = ArtifactDisposition.identity_mismatch
  late_disposition ArtifactFreeze.unsafe = ArtifactDisposition.unsafe

  -- What the last look says of a path whose removal is done.
  abbrev pub final_disposition : ArtifactDisposition → ArtifactFreeze → ArtifactDisposition
  final_disposition d absent = d
  final_disposition d (frozen f) = ArtifactDisposition.identity_mismatch
  final_disposition d ArtifactFreeze.unsafe = ArtifactDisposition.unsafe

  -- `absent_revalidation`.
  unfoldable pub look_again :
      RuntimeArtifactCandidate → ArtifactFreeze → Exec (Option ArtifactFreeze)
  look_again c absent = freeze_artifact c >>= or_terminal >>= λ again. pure (some again)
  look_again c (frozen f) = pure none
  look_again c ArtifactFreeze.unsafe = pure none

  -- The `match frozen` behind the journalled boundary. A second look is at hand where it is needed;
  -- the clause without one is the source's `unreachable!`, which no call reaches.
  unfoldable pub act : ArtifactFreeze → Option ArtifactFreeze → Exec ArtifactDisposition
  act (frozen f) again = remove_artifact_exact f
  act ArtifactFreeze.unsafe again = pure ArtifactDisposition.unsafe
  act absent (some late) = pure (late_disposition late)
  act absent none = pure ArtifactDisposition.rejected

  unfoldable pub confirm_absent :
      RuntimeArtifactCandidate → ArtifactDisposition → Exec ArtifactDisposition
  confirm_absent c d =
      if not (completed_cleanup d)
      then pure d
      else freeze_artifact c >>= or_terminal >>= λ final. pure (final_disposition d final)

  unfoldable pub execute_artifact_action :
      RuntimeArtifactCandidate → ArtifactFreeze → Exec ArtifactDisposition
  unfolding look_again act complete_artifact_prepared confirm_absent
  execute_artifact_action c f = do
    stop ← should_stop env
    if stop then pure ArtifactDisposition.cancelled_before_delivery else do
      again ← look_again c f
      sample ← clock_sample env >>= or_terminal
      id ← prepare_artifact_action (intent c) sample.wall_unix_millis >>= or_terminal
      stop' ← should_stop env
      d ← if stop' then pure ArtifactDisposition.cancelled_before_delivery else act f again
      complete_artifact_prepared (intent c) id d
      confirm_absent c d
