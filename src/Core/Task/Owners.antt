-- ===== src/Core/Task/Owners.antt =====
-- crates/unlinger-core/src/task.rs: the identity of a task's owner.
use unlinger.Prelude.{
  ℕ, ◌<◌, ◌≡◌, ◌≢◌, ◌↔◌, refl, sym, true, not, ltb, ◌&&◌, ◌==◌, Option, some, arith,
}
use unlinger.Core.Model.{ProcessRecord, pid_of}
use unlinger.Core.Task.{TaskOwnerIdentity, from_process, owner_matches}

same_owner :
    (o : TaskOwnerIdentity) (pid started uid : ℕ)
    → o.pid ≡ pid
    → o.started_at_unix_micros ≡ started
    → o.uid ≡ uid
    → ◌≡◌ {A = Option TaskOwnerIdentity}
        (some (record { pid = pid; started_at_unix_micros = started; uid = uid }))
        (some o)
same_owner o pid started uid e f g = rw (sym e, sym f, sym g) refl

taken :
    (p : ProcessRecord) (o : TaskOwnerIdentity)
    → (ltb 1 (pid_of p) && ltb 0 p.identity.started_at_unix_micros && not (p.uid == 0)) ≡ true
    → o.pid ≡ pid_of p
    → o.started_at_unix_micros ≡ p.identity.started_at_unix_micros
    → o.uid ≡ p.uid
    → from_process p ≡ some o
unfolding from_process
taken p o guard e f g =
    rw guard (same_owner o (pid_of p) p.identity.started_at_unix_micros p.uid e f g)

-- An owner is taken from a process exactly if the process has a pid above 1, a known start time and a
-- user that is not root, and the owner matches it.
pub from_process-owner_matches :
    (p : ProcessRecord) (o : TaskOwnerIdentity)
    → (from_process p ≡ some o) ↔ (
        (1 < pid_of p)
        × (0 < p.identity.started_at_unix_micros)
        × (p.uid ≢ 0)
        × (owner_matches o p ≡ true))
unfolding from_process owner_matches
from_process-owner_matches p o = (
  λ e. (ground (arith, e), ground (arith, e), λ z. ground (arith, e, z), ground (arith, e)),
  λ h. taken p o (ground (arith, h)) (ground (arith, h)) (ground (arith, h)) (ground (arith, h)),
)
