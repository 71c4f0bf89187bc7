-- ===== src/Alarm.antt =====
-- How the timers of a CPU reach its task queue: init_pollers_ and schedule_after of lib/cpu.cpp, and the
-- handler of SIGALRM, which calls Timer_service::complete_timers from the Signal_poller.
pub mod Serve
pub mod Scheduled
mod Tests
use miniss.Base.{ℕ, ℤ, Bool, true, false, Option, none, some, List, [], ◌∷◌, ◌++◌}
use miniss.Exceptions.{Outcome, ok, throws, ◌>>=◌}
use miniss.Timer.{TimerService, add_timer, complete_timers}
use miniss.Signal.{SignalPoller, poll, register_signal}
use miniss.Cpu.{Poller}
use miniss.Loop.{sigalrm}

-- The only handler: `timer_service_.complete_timers()`.
pub data Handler : Type 0 where
  on_alarm : Handler

-- What the clock and the kernel answer: the signals that arrive during a call of the signal poller, the
-- time, and the result of timer_settime.
pub record Clock : Type 0 where
  pub early : List ℕ
  pub now : ℕ
  pub settime : ℤ

-- The parts of the CPU's world that the timers need, and the clock, which anything may set anew; `rest` is
-- all else.
pub record World (T V : Type 0) : Type 0 where
  pub timers : TimerService T
  pub signals : SignalPoller Handler
  pub clock : Clock
  pub rest : V

module _ {T V : Type 0} where
  abbrev pub with_tasks : List T → Option (World T V × List T) → Option (World T V × List T)
  with_tasks ts none = none
  with_tasks ts (some (w, us)) = some (w, ts ++ us)

  abbrev pub completed : World T V → Option (TimerService T) × List T → Option (World T V × List T)
  completed w (none, ts) = none
  completed w (some timers', ts) = some (record w { timers = timers' }, ts)

  -- The handlers that the poller calls, one after the other; the list is what they schedule.
  unfoldable pub call_handlers : List (ℕ × Handler) → World T V → Option (World T V × List T)
  call_handlers [] w = some (w, [])
  call_handlers ((signo, on_alarm) ∷ calls) w =
      elim (completed w (complete_timers w.clock.now w.clock.settime w.timers)) [
        | none ↦ none
        | some (w', ts) ↦ with_tasks ts (call_handlers calls w')
      ]

  abbrev pub as_poll : Bool → Option (World T V × List T) → Option (World T V × List T × Bool)
  as_poll found none = none
  as_poll found (some (w, ts)) = some (w, ts, found)

  -- Signal_poller::poll as a poller of the CPU.
  unfoldable pub signal_poller : Poller T (World T V)
  unfolding poll call_handlers
  signal_poller w =
      let (p, found, calls) = poll w.clock.early w.signals in
      as_poll found (call_handlers calls (record w { signals = p }))

  -- `init_pollers_`: the signal poller, behind it the three others. `action` and `mask` are what
  -- sigaction and pthread_sigmask return.
  unfoldable pub init_pollers :
      ℤ
      → ℤ
      → ℤ
      → List (Poller T (World T V))
      → World T V
      → Outcome (World T V × List (Poller T (World T V)))
  unfolding register_signal
  init_pollers action mask errno others w = do
    p ←
        register_signal sigalrm on_alarm action mask errno
          (record { pending_signals = w.signals.pending_signals; signal_handlers = [] })
    ok (record w { signals = p }, signal_poller ∷ others)

  abbrev pub stored : World T V → Option (TimerService T) → Option (World T V)
  stored w none = none
  stored w (some timers') = some (record w { timers = timers' })

  unfoldable pub schedule_after : ℕ → T → World T V → Option (World T V)
  unfolding add_timer
  schedule_after interval t w = stored w (add_timer w.clock.now interval t w.clock.settime w.timers)
