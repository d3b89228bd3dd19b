-- ===== src/Core/Cleanup/Logic.antt =====
-- How the executor's parts are reasoned about: what holds when a part goes on, and when it ends the
-- run.
use unlinger.Prelude.{◌≡◌, refl, Bool, true, false, String, ok, err, if◌then◌else◌}
use unlinger.Core.Cleanup.Runtime.{
  Exec, Exit, Flow, Reply, Run, RuntimeFailure, next, exit, continue_with, or_terminal, or_open,
  raised, runtime, attempt_open, failed_receipt,
}

abbrev pub Ensures :
    {A : Type 0} → (A → Run → Type 0) → (Exit → Run → Type 0) → Flow A × Run → Type 0
Ensures Q X (next a, s) = Q a s
Ensures Q X (exit x, s) = X x s

module _ {A B : Type 0} (Q : A → Run → Type 0) (R : B → Run → Type 0)
    (X : Exit → Run → Type 0) where
  pub Ensures-bind :
      (f : A → Exec B) (r : Flow A × Run)
      → Ensures Q X r
      → ((a : A) (s : Run) → Q a s → Ensures R X (f a s))
      → Ensures R X (continue_with f r)
  Ensures-bind f (next a, s) h k = k a s h
  Ensures-bind f (exit x, s) h k = h

module _ {A : Type 0} (Q : A → Run → Type 0) (X : Exit → Run → Type 0) where
  pub Ensures-if :
      (b : Bool) (x y : Exec A) (s : Run)
      → (b ≡ true → Ensures Q X (x s))
      → (b ≡ false → Ensures Q X (y s))
      → Ensures Q X ((if b then x else y) s)
  Ensures-if true x y s h k = h refl
  Ensures-if false x y s h k = k refl

  pub Ensures-or_terminal :
      (r : Reply A) (s : Run)
      → ((a : A) → r ≡ ok a → Q a s)
      → ((e : RuntimeFailure) → r ≡ err e → X (raised (runtime e (failed_receipt s.receipt))) s)
      → Ensures Q X (or_terminal r s)
  Ensures-or_terminal (ok a) s h k = h a refl
  Ensures-or_terminal (err e) s h k = k e refl

  pub Ensures-or_open :
      (id : String) (r : Reply A) (s : Run)
      → ((a : A) → r ≡ ok a → Q a s)
      → ((e : RuntimeFailure) → r ≡ err e → X (raised (attempt_open e s.receipt id)) s)
      → Ensures Q X (or_open id r s)
  Ensures-or_open id (ok a) s h k = h a refl
  Ensures-or_open id (err e) s h k = k e refl

module _ {A : Type 0} (Q R : A → Run → Type 0) (X : Exit → Run → Type 0) where
  pub Ensures-weaken :
      (r : Flow A × Run) → ((a : A) (s : Run) → Q a s → R a s) → Ensures Q X r → Ensures R X r
  Ensures-weaken (next a, s) k h = k a s h
  Ensures-weaken (exit x, s) k h = h
