-- ===== src/Loop.antt =====
-- The loop of CPU::run in lib/cpu.cpp seen from one source of work: the signal poller, the poller of that
-- source, the other pollers, the tasks and the idle procedure, while other threads make work visible and
-- wake the CPU by pthread_kill with SIGALRM.
pub mod Sleep
pub mod Sources
pub mod Wakeups
mod Tests
use miniss.Base.{ℕ, ◌+◌, ◌≤◌, ◌<◌, ◌≡◌, ◌⊎◌, Bool, true, false, ◌||◌, replicate}
use miniss.Signal.{SignalPoller, poll}
use miniss.Idle.{
  Thread, start, running, masked, checked, waiting, leaving, mask, check, wait, return_wait,
  restore, arrive,
}

-- What the loop needs of a source of work. `is_idle` says that a poll would find nothing, `wakeups`
-- counts the calls of maybe_wakeup, and `owes` says that another thread is on its way to one. `Change`
-- is what the other threads and the tasks of this CPU do, and `Look` is a poll with its result.
pub record Source : Type 1 where
  pub State : Type 0
  pub is_idle : State → Bool
  pub wakeups : State → ℕ
  pub owes : State → Bool
  pub Change : State → State → Type 0
  pub Look : State → State → Bool → Type 0
  pub change-wakes :
      (x y : State)
      → Change x y
      → ((is_idle x ≡ true → is_idle y ≡ true) ⊎ (owes y ≡ true) ⊎ (wakeups x < wakeups y))
        × (owes x ≡ true → (owes y ≡ true) ⊎ (wakeups x < wakeups y))
        × (wakeups x ≤ wakeups y)
  pub look-finds :
      (x y : State) (found : Bool)
      → Look x y found
      → (found ≡ false → is_idle y ≡ true) × (owes y ≡ owes x) × (wakeups y ≡ wakeups x)

abbrev pub sigalrm : ℕ
sigalrm = 14

-- How far the round of the loop is: before the signal poller, before the source's poller, or behind it.
pub data Stage : Type 0 where
  at_signals at_source at_rest : Stage

-- `active` is `cpu_active`, and `woken` counts the wakeups that have arrived.
pub record LoopState (B : Source) : Type 0 where
  pub source : B.State
  pub thread : Thread
  pub stage : Stage
  pub active : Bool
  pub woken : ℕ

module _ (B : Source) where
  -- The signal poller, with `early` wakeups between its load and its fetch_and.
  unfoldable pub poll_signals : ℕ → SignalPoller ℕ → LoopState B → LoopState B
  unfolding poll
  poll_signals early p s =
      let (p', found, handlers) = poll (replicate early sigalrm) p in
      record s {
        thread = record s.thread { pending_signals = p'.pending_signals };
        stage = at_source;
        active = found;
        woken = s.woken + early;
      }

  pub data Step (s s' : LoopState B) : Type 0 where
    changes : (x : B.State) → B.Change s.source x → s' ≡ record s { source = x } → Step s s'
    kills :
        s.woken < B.wakeups s.source
        → s' ≡ record s { woken = s.woken + 1; thread = arrive sigalrm s.thread }
        → Step s s'
    arrives : (signo : ℕ) → s' ≡ record s { thread = arrive signo s.thread } → Step s s'
    polls_signals :
        (early : ℕ) (p : SignalPoller ℕ)
        → s.thread.at ≡ running
        → s.stage ≡ at_signals
        → p.pending_signals ≡ s.thread.pending_signals
        → s.woken + early ≤ B.wakeups s.source
        → s' ≡ poll_signals early p s
        → Step s s'
    polls_source :
        (x : B.State) (found : Bool)
        → s.thread.at ≡ running
        → s.stage ≡ at_source
        → B.Look s.source x found
        → s' ≡ record s { source = x; stage = at_rest; active = s.active || found }
        → Step s s'
    polls_other :
        (found : Bool)
        → s.thread.at ≡ running
        → s' ≡ record s { active = s.active || found }
        → Step s s'
    runs_batch :
        s.thread.at ≡ running
        → s.stage ≡ at_rest
        → s' ≡ record s { stage = at_signals; active = false }
        → Step s s'
    goes_idle :
        s.thread.at ≡ running
        → s.stage ≡ at_rest
        → s.active ≡ false
        → s' ≡ record s { thread = mask s.thread }
        → Step s s'
    checks : s.thread.at ≡ masked → s' ≡ record s { thread = check s.thread } → Step s s'
    enters : s.thread.at ≡ checked → s' ≡ record s { thread = wait s.thread } → Step s s'
    wakes : s.thread.at ≡ waiting → s' ≡ record s { thread = return_wait s.thread } → Step s s'
    restores :
        s.thread.at ≡ leaving
        → s' ≡ record s { thread = restore s.thread; stage = at_signals; active = false }
        → Step s s'

  -- From any state of the source, with every wakeup so far arrived and the signals not yet polled.
  pub data Reach : LoopState B → Type 0 where
    here :
        (x : B.State)
        → Reach (record {
          source = x;
          thread = start;
          stage = at_signals;
          active = false;
          woken = B.wakeups x;
        })
    next : {s s' : LoopState B} → Reach s → Step s s' → Reach s'
