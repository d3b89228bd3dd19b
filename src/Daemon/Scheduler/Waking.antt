-- ===== src/Daemon/Scheduler/Waking.antt =====
-- crates/unlinger-daemon/src/scheduler.rs: the wait ends, and for the reason it gives.
use unlinger.Prelude.{
  leb-true, leb-false, ℕ, zero, suc, ◌+◌, ◌-◌, ◌≤◌, ◌<◌, ◌≡◌, ◌≢◌, ◌⊎◌, refl, subst, inl, inr, leb,
  true, false, Option, none, some, String, Result, ok, err, arith, Bool-cases, Option-cases,
}
use unlinger.Daemon.Scheduler.{
  ReconcileTrigger, periodic, process_cleanup_completed, source_failed, stop_requested, runtime,
  ReconciliationScheduler, Turn, heard, min, source_lost, stop_poll_interval, take_turn,
  wait_for_trigger,
}

min_right : (m n : ℕ) → min m n ≤ n
min_right m n = ground arith

first_or_later : (n i : ℕ) → n ≤ i → (n ≡ i) ⊎ (suc n ≤ i)
first_or_later n i h = ground (arith, h)

some_pair :
    {A B : Type 0} (P : A → B → Type 0) {a c : A} {b d : B}
    → ◌≡◌ {A = Option (A × B)} (some (a, b)) (some (c, d))
    → P a b
    → P c d
some_pair {A = A} {B = B} P {a} {c} {b} {d} e p =
    let pairs : ◌≡◌ {A = A × B} (a, b) (c, d) = cc (e) in subst (λ x. P x.0 x.1) pairs p

module _ (Source Event : Type 0) where
  -- Nothing that ends the wait is seen in a turn, but for the source.
  pub record IsQuiet (t : Turn Source Event) (s : ReconciliationScheduler Source Event)
      : Type 0 where
    pub no_stop : t.should_stop ≡ false
    pub no_cleanup : t.cleanup_finished ≡ false
    pub is_early : t.now < s.periodic_deadline

  -- How long a turn lets the source wait: to the deadline, but for a tenth of a second at most.
  abbrev poll_timeout : Turn Source Event → ReconciliationScheduler Source Event → ℕ
  poll_timeout t s = min (s.periodic_deadline - t.now) stop_poll_interval

  -- Nothing is seen in a turn: the source, where there is one, waits for its time without an event and
  -- without an error.
  pub record IsSilent (t : Turn Source Event) (s : ReconciliationScheduler Source Event)
      : Type 0 where
    pub is_quiet : IsQuiet t s
    pub no_answer : (s.source ≡ none) ⊎ (t.wait_timeout (poll_timeout t s) ≡ ok none)

  -- Why a turn ends with a trigger, and what becomes of the scheduler.
  abbrev pub Cause :
      Turn Source Event
      → ReconciliationScheduler Source Event
      → ReconcileTrigger Source Event
      → ReconciliationScheduler Source Event
      → Type 0
  Cause t s stop_requested s' = (t.should_stop ≡ true) × (s' ≡ s)
  Cause t s process_cleanup_completed s' =
      (t.should_stop ≡ false) × (t.cleanup_finished ≡ true) × (s' ≡ s)
  Cause t s periodic s' =
      (t.should_stop ≡ false)
      × (t.cleanup_finished ≡ false)
      × (s.periodic_deadline ≤ t.now)
      × (s' ≡ s)
  Cause t s (runtime event) s' =
      IsQuiet t s
      × (s.source ≢ none)
      × (poll_timeout t s ≤ stop_poll_interval)
      × (t.wait_timeout (poll_timeout t s) ≡ ok (some event))
      × (s' ≡ s)
  Cause t s source_failed s' =
      IsQuiet t s
      × (s.source ≢ none)
      × ((error : String) × (t.wait_timeout (poll_timeout t s) ≡ err error)
          × (s' ≡ source_lost Source Event error s))

  heard-Cause :
      (t : Turn Source Event) (s : ReconciliationScheduler Source Event)
      (answer : Result String (Option Event)) (trigger : ReconcileTrigger Source Event)
      (s' : ReconciliationScheduler Source Event)
      → IsQuiet t s
      → s.source ≢ none
      → t.wait_timeout (poll_timeout t s) ≡ answer
      → heard Source Event answer s ≡ some (trigger, s')
      → Cause t s trigger s'
  heard-Cause t s (err error) trigger s' q there w e =
      some_pair (Cause t s) e (q, there, (error, w, refl))
  heard-Cause t s (ok none) trigger s' q there w e = absurd (cc)
  heard-Cause t s (ok (some event)) trigger s' q there w e =
      some_pair (Cause t s) e
        (q, there, min_right (s.periodic_deadline - t.now) stop_poll_interval, w, refl)

  heard_nothing :
      (answer : Result String (Option Event)) (s : ReconciliationScheduler Source Event)
      → heard Source Event answer s ≡ none
      → answer ≡ ok none
  heard_nothing (err error) s e = absurd (cc)
  heard_nothing (ok none) s e = refl
  heard_nothing (ok (some event)) s e = absurd (cc)

  take_turn-Cause :
      (t : Turn Source Event) (s : ReconciliationScheduler Source Event)
      (trigger : ReconcileTrigger Source Event) (s' : ReconciliationScheduler Source Event)
      → take_turn Source Event t s ≡ some (trigger, s')
      → Cause t s trigger s'
  unfolding take_turn
  take_turn-Cause t s trigger s' e = elim (Bool-cases t.should_stop) [
    | inl stop ↦ some_pair (Cause t s) (rw (stop, take_turn) at e) (stop, refl)
    | inr no_stop ↦ elim (Bool-cases t.cleanup_finished) [
      | inl finished ↦
          some_pair (Cause t s) (rw (no_stop, finished, take_turn) at e) (no_stop, finished, refl)
      | inr no_cleanup ↦ elim (Bool-cases (leb s.periodic_deadline t.now)) [
        | inl late ↦
            some_pair (Cause t s) (rw (no_stop, no_cleanup, late, take_turn) at e)
              (no_stop, no_cleanup, leb-true s.periodic_deadline t.now late, refl)
        | inr early ↦ elim (Option-cases s.source) [
          | inl lost ↦ absurd (cc (rw (no_stop, no_cleanup, early, lost, take_turn) at e))
          | inr (source, there) ↦
              heard-Cause t s (t.wait_timeout (poll_timeout t s)) trigger s'
                (record {
                  no_stop = no_stop;
                  no_cleanup = no_cleanup;
                  is_early = leb-false _ _ early;
                })
                (λ lost. cc (lost, there)) refl
                (rw (no_stop, no_cleanup, early, there, take_turn) at e)
        ]
      ]
    ]
  ]

  take_turn-IsSilent :
      (t : Turn Source Event) (s : ReconciliationScheduler Source Event)
      → take_turn Source Event t s ≡ none
      → IsSilent t s
  unfolding take_turn
  take_turn-IsSilent t s e = elim (Bool-cases t.should_stop) [
    | inl stop ↦ absurd (cc (rw (stop, take_turn) at e))
    | inr no_stop ↦ elim (Bool-cases t.cleanup_finished) [
      | inl finished ↦ absurd (cc (rw (no_stop, finished, take_turn) at e))
      | inr no_cleanup ↦ elim (Bool-cases (leb s.periodic_deadline t.now)) [
        | inl late ↦ absurd (cc (rw (no_stop, no_cleanup, late, take_turn) at e))
        | inr early ↦ record {
          is_quiet = record {
            no_stop = no_stop;
            no_cleanup = no_cleanup;
            is_early = leb-false _ _ early;
          };
          no_answer = elim (Option-cases s.source) [
            | inl lost ↦ inl lost
            | inr (source, there) ↦ inr (
                heard_nothing (t.wait_timeout (poll_timeout t s)) s
                  (rw (no_stop, no_cleanup, early, there, take_turn) at e))
          ];
        }
      ]
    ]
  ]

  -- How the wait ended: after silent turns, in a turn that gives the cause.
  pub record IsWoken (fuel : ℕ) (turns : ℕ → Turn Source Event) (n : ℕ)
      (s : ReconciliationScheduler Source Event) : Type 0 where
    pub trigger : ReconcileTrigger Source Event
    pub scheduler : ReconciliationScheduler Source Event
    pub last : ℕ
    pub answers : wait_for_trigger Source Event fuel turns n s ≡ some (trigger, scheduler, last)
    pub quiet : (i : ℕ) → n ≤ i → i < last → IsSilent (turns i) s
    pub cause : Cause (turns last) s trigger scheduler

  now_IsWoken :
      (fuel : ℕ) (turns : ℕ → Turn Source Event) (n : ℕ) (s : ReconciliationScheduler Source Event)
      (trigger : ReconcileTrigger Source Event) (s' : ReconciliationScheduler Source Event)
      → take_turn Source Event (turns n) s ≡ some (trigger, s')
      → IsWoken (suc fuel) turns n s
  unfolding wait_for_trigger
  now_IsWoken fuel turns n s trigger s' hit = record {
    trigger = trigger;
    scheduler = s';
    last = n;
    answers = rw (hit, wait_for_trigger) refl;
    quiet = λ i lo hi. absurd (omega (arith, lo, hi));
    cause = take_turn-Cause (turns n) s trigger s' hit;
  }

  later_IsWoken :
      (fuel : ℕ) (turns : ℕ → Turn Source Event) (n : ℕ) (s : ReconciliationScheduler Source Event)
      → take_turn Source Event (turns n) s ≡ none
      → IsWoken fuel turns (suc n) s
      → IsWoken (suc fuel) turns n s
  unfolding wait_for_trigger
  later_IsWoken fuel turns n s nothing w = record {
    trigger = w.trigger;
    scheduler = w.scheduler;
    last = w.last;
    answers = rw (nothing, wait_for_trigger) w.answers;
    quiet = λ i lo hi. elim (first_or_later n i lo) [
      | inl same ↦ subst (λ k. IsSilent (turns k) s) same (take_turn-IsSilent (turns n) s nothing)
      | inr later ↦ w.quiet i later hi
    ];
    cause = w.cause;
  }

  -- The wait ends where the clock goes on from turn to turn: as many turns are enough as the deadline
  -- is away. In all turns before the last there was no stop, no finished cleanup and no deadline, and
  -- the source, if there is one, gave no event and no error. The last turn gives the cause: a stop is
  -- answered before a finished cleanup, that before the deadline, and that before the source, which
  -- is asked to wait for a tenth of a second at most and is dropped if it fails.
  pub wait_for_trigger-IsWoken :
      (fuel : ℕ) (turns : ℕ → Turn Source Event) (n : ℕ) (s : ReconciliationScheduler Source Event)
      → ((i : ℕ) → (turns i).now < (turns (suc i)).now)
      → s.periodic_deadline ≤ (turns n).now + fuel
      → IsWoken (suc fuel) turns n s
  unfolding wait_for_trigger
  wait_for_trigger-IsWoken zero turns n s advances near =
      elim (Option-cases (take_turn Source Event (turns n) s)) [
        | inr ((trigger, s'), hit) ↦ now_IsWoken zero turns n s trigger s' hit
        | inl nothing ↦
            absurd (omega (arith, near, (take_turn-IsSilent (turns n) s nothing).is_quiet.is_early))
      ]
  wait_for_trigger-IsWoken (suc fuel) turns n s advances near =
      elim (Option-cases (take_turn Source Event (turns n) s)) [
        | inr ((trigger, s'), hit) ↦ now_IsWoken (suc fuel) turns n s trigger s' hit
        | inl nothing ↦ later_IsWoken (suc fuel) turns n s nothing (
            wait_for_trigger-IsWoken fuel turns (suc n) s advances
              (omega (arith, near, advances n)))
      ]
