-- ===== src/Daemon/Scheduler.antt =====
-- crates/unlinger-daemon/src/scheduler.rs: what wakes the next cycle.
-- Each turn of the loop reads the environment once: the two tests, the clock and the source's answer.
-- The source, its events and its errors are arguments. `complete_cycle` is given the clock and the answer of the source.
pub mod Waking
use unlinger.Prelude.{
  ℕ, zero, suc, ◌+◌, ◌-◌, leb, Bool, true, false, Option, none, some, String, Result, ok, err,
  if◌then◌else◌,
}

-- `Duration::from_millis(100)`, in nanoseconds.
abbrev pub stop_poll_interval : ℕ
stop_poll_interval = 100000000

-- `Duration::min`.
abbrev pub min : ℕ → ℕ → ℕ
min m n = if leb m n then m else n

module _ (Source Event : Type 0) where
  pub data ReconcileTrigger : Type 0 where
    periodic process_cleanup_completed source_failed stop_requested : ReconcileTrigger
    runtime : Event → ReconcileTrigger

  pub record ReconciliationScheduler : Type 0 where
    pub source : Option Source
    pub source_error : Option String
    pub periodic_interval : ℕ
    pub periodic_deadline : ℕ

  -- One turn's answers. The source is asked to wait for `timeout`.
  pub record Turn : Type 0 where
    pub should_stop : Bool
    pub cleanup_finished : Bool
    pub now : ℕ
    pub wait_timeout : ℕ → Result String (Option Event)

  abbrev pub new_scheduler : Option Source → ℕ → Option String → ℕ → ReconciliationScheduler
  new_scheduler source interval error now = record {
    source = source;
    source_error = error;
    periodic_interval = interval;
    periodic_deadline = now + interval;
  }

  abbrev pub source_lost : String → ReconciliationScheduler → ReconciliationScheduler
  source_lost error s = record s { source = none; source_error = some error }

  abbrev watch_result : Result String (Unit {0}) → ReconciliationScheduler → ReconciliationScheduler
  watch_result (ok u) s = s
  watch_result (err e) s = source_lost e s

  abbrev pub cycle_failed : ℕ → ReconciliationScheduler → ReconciliationScheduler
  cycle_failed now s = record s { periodic_deadline = now + s.periodic_interval }

  abbrev pub complete_cycle :
      ℕ → (Source → Result String (Unit {0})) → ReconciliationScheduler → ReconciliationScheduler
  complete_cycle now replace s = elim s.source [
    | none ↦ cycle_failed now s
    | some source ↦ watch_result (replace source) (cycle_failed now s)
  ]

  -- What a turn ends in: a trigger, or another turn.
  abbrev pub heard :
      Result String (Option Event)
      → ReconciliationScheduler
      → Option (ReconcileTrigger × ReconciliationScheduler)
  heard (ok (some event)) s = some (runtime event, s)
  heard (ok none) s = none
  heard (err e) s = some (source_failed, source_lost e s)

  unfoldable pub take_turn :
      Turn → ReconciliationScheduler → Option (ReconcileTrigger × ReconciliationScheduler)
  take_turn t s =
      if t.should_stop
      then some (stop_requested, s)
      else if t.cleanup_finished
      then some (process_cleanup_completed, s)
      else if leb s.periodic_deadline t.now
      then some (periodic, s)
      else elim s.source [
        | none ↦ none
        | some source ↦
            heard (t.wait_timeout (min (s.periodic_deadline - t.now) stop_poll_interval)) s
      ]

  -- The loop; the number of the turn that ended it comes with the answer.
  unfoldable pub wait_for_trigger :
      ℕ
      → (ℕ → Turn)
      → ℕ
      → ReconciliationScheduler
      → Option (ReconcileTrigger × ReconciliationScheduler × ℕ)
  unfolding take_turn
  wait_for_trigger zero turns n s = none
  wait_for_trigger (suc fuel) turns n s =
      let rest = wait_for_trigger fuel turns (suc n) s in
      elim (take_turn (turns n) s) [ some answer ↦ some (answer.0, answer.1, n) | none ↦ rest ]

  abbrev pub take_source_error : ReconciliationScheduler → Option String × ReconciliationScheduler
  take_source_error s = (s.source_error, record s { source_error = none })
