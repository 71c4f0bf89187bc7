-- ===== src/Alarm/Serve.antt =====
-- That a task whose deadline has passed is run once the alarm rings (lib/cpu.cpp, lib/io/timer.cpp).
use miniss.Base.{
  get_elem?-skip, get_elem?-front, get_elem?-lt, ℕ, zero, suc, ◌+◌, ◌*◌, ◌<◌, ◌≡◌, refl, pos, Bool,
  true, some, List, [], ◌∷◌, ◌++◌, append-nil, append_assoc, length, arith, get_elem?, Option-cases,
  inl, inr, if◌then◌else◌,
}
use miniss.Timer.{TimerService, complete_timers}
use miniss.Timer.Agenda.{IsSorted, agenda, due_tasks, not_due}
use miniss.Timer.Queue.{complete_timers-due}
use miniss.Signal.{
  emplace, dispatch_all, clear_bits, Word, SignalPoller, poll, get_bit, handle_from,
}
use miniss.Signal.Delivery.{is_zero-get_bit}
use miniss.Cpu.{Cpu, Poller, Func, batch_size, schedule_all, poll_all, run, iterate}
use miniss.Cpu.Fifo.{InOrder}
use miniss.Cpu.Polled.{poll_all-appends, run-serves_polled}
use miniss.Loop.{sigalrm}
use miniss.Alarm.{ok, ℤ, init_pollers, Handler, on_alarm, World, signal_poller, call_handlers}

-- The map of handlers that `init_pollers_` leaves.
abbrev pub only_alarm : List (ℕ × Handler)
only_alarm = (sigalrm, on_alarm) ∷ []

handle_from-above : (k : ℕ) (w : Word) → sigalrm < k → handle_from only_alarm k w ≡ []
unfolding handle_from
handle_from-above k [] h = refl
handle_from-above k (b ∷ w) h = ground (arith, handle_from-above (suc k) w)

handle_from-alarm :
    (k i : ℕ) (w : Word)
    → k + i ≡ sigalrm
    → handle_from only_alarm k w ≡ (if get_bit w i then only_alarm else [])
unfolding handle_from
handle_from-alarm k i [] h = refl
handle_from-alarm k zero (b ∷ w) h = ground (arith, handle_from-above (suc k) w)
handle_from-alarm k (suc i) (b ∷ w) h = ground (arith, handle_from-alarm (suc k) i w)

poll-alarm :
    (early : List ℕ) (p : SignalPoller Handler)
    → p.signal_handlers ≡ only_alarm
    → get_bit p.pending_signals sigalrm ≡ true
    → (p' : SignalPoller Handler) × (poll early p ≡ (p', true, only_alarm))
unfolding poll
poll-alarm early p hs b =
    let called : handle_from p.signal_handlers 0 p.pending_signals ≡ only_alarm =
      rw hs (ground (arith, handle_from-alarm 0 sigalrm p.pending_signals)) in
    (
      record p {
        pending_signals = clear_bits (dispatch_all early p.pending_signals) p.pending_signals;
      },
      ground (arith, called, is_zero-get_bit p.pending_signals sigalrm),
    )

module _ {T V : Type 0} where
  -- Where sigaction and pthread_sigmask succeed, the signal poller is the first poller and the alarm's
  -- handler the only one.
  init_pollers-only_alarm :
      (errno : ℤ) (others : List (Poller T (World T V))) (w : World T V)
      → (w' : World T V) × (init_pollers (pos 0) (pos 0) errno others w
          ≡ ok (w', signal_poller ∷ others))
        × (w'.signals.signal_handlers ≡ only_alarm)
        × (w'.signals.pending_signals ≡ w.signals.pending_signals)
        × (w'.timers ≡ w.timers)
  unfolding init_pollers emplace
  init_pollers-only_alarm errno others w = (
    record w {
      signals = record {
        pending_signals = w.signals.pending_signals;
        signal_handlers = only_alarm;
      };
    },
    refl,
    refl,
    refl,
    refl,
  )

  call_handlers-alarm :
      (w : World T V) (timers' : TimerService T) (ts : List T)
      → complete_timers w.clock.now w.clock.settime w.timers ≡ (some timers', ts)
      → call_handlers only_alarm w ≡ some (record w { timers = timers' }, ts)
  unfolding call_handlers
  call_handlers-alarm w timers' ts e = ground (arith, append-nil ts)

  -- The signal poller, when the alarm has rung.
  signal_poller-due :
      (ret : ℕ) (w : World T V)
      → w.clock.settime ≡ pos ret
      → w.signals.signal_handlers ≡ only_alarm
      → get_bit w.signals.pending_signals sigalrm ≡ true
      → IsSorted w.timers.timers
      → (w' : World T V) × (signal_poller w
          ≡ some (w', due_tasks w.clock.now (agenda w.timers.timers), true))
        × IsSorted w'.timers.timers
        × (agenda w'.timers.timers ≡ not_due w.clock.now (agenda w.timers.timers))
  unfolding signal_poller
  signal_poller-due ret w s hs b a =
      let (tasks, (timers', done, sorted, rest)) = complete_timers-due w.clock.now ret w.timers a in
      let (p, polled) = poll-alarm w.clock.early w.signals hs b in
      let completes : complete_timers w.clock.now w.clock.settime w.timers
          ≡ (some timers', due_tasks w.clock.now (agenda w.timers.timers)) =
        rw s (ground arith) in
      (
        record w { signals = p; timers = timers' },
        rw
            (
              polled,
              call_handlers-alarm (record w { signals = p }) timers'
                  (due_tasks w.clock.now (agenda w.timers.timers)) completes,
            )
            refl,
        sorted,
        rest,
      )

  poll_all-due :
      (ret : ℕ) (others : List (Poller T (World T V))) (c p : Cpu T (World T V)) (active : Bool)
      → c.world.clock.settime ≡ pos ret
      → c.world.signals.signal_handlers ≡ only_alarm
      → get_bit c.world.signals.pending_signals sigalrm ≡ true
      → IsSorted c.world.timers.timers
      → poll_all (signal_poller ∷ others) c ≡ some (p, active)
      → (more : List T) × (p.task_queue
          ≡ c.task_queue ++ (due_tasks c.world.clock.now (agenda c.world.timers.timers) ++ more))
  unfolding poll_all schedule_all
  poll_all-due ret others c p active s hs b a e =
      let ts = due_tasks c.world.clock.now (agenda c.world.timers.timers) in
      let (w', polled, _, _) = signal_poller-due ret c.world s hs b a in
      let next = schedule_all ts (record c { world = w' }) in
      elim (Option-cases (poll_all others next)) [
        | inl g ↦ ground arith
        | inr ((d, f), g) ↦
            let (more, k) = poll_all-appends others next d f g in
            (more, ground (arith, k, append_assoc c.task_queue ts more))
      ]

  module _ (func : Func T (World T V)) (idle : World T V → World T V)
      (others : List (Poller T (World T V))) where
    -- When SIGALRM is pending and its handler is the only one, the map of timers is sorted, timer_settime
    -- does not fail, and the tasks that were scheduled are those that were run and those in the queue, in
    -- this order: if `n + 1` rounds of the loop, whatever the other pollers, the tasks and the idle
    -- procedure do, do not end the program, then every task that is due in the first round has been run
    -- behind the last one, in the order of the deadlines and in its turn behind the tasks that were queued;
    -- so far as those and it make up at most eight for each round.
    pub run-serves_due :
        (n i ret : ℕ) (t : T) (c c' : Cpu T (World T V))
        → InOrder c
        → c.world.clock.settime ≡ pos ret
        → c.world.signals.signal_handlers ≡ only_alarm
        → get_bit c.world.signals.pending_signals sigalrm ≡ true
        → IsSorted c.world.timers.timers
        → run func idle (signal_poller ∷ others) (suc n) c ≡ some c'
        → length c.task_queue + i < batch_size * suc n
        → get_elem? (due_tasks c.world.clock.now (agenda c.world.timers.timers)) i ≡ some t
        → get_elem? c'.executed (length c.executed + (length c.task_queue + i)) ≡ some t
    unfolding run iterate
    run-serves_due n i ret t c c' h s hs b a r k g =
        elim (Option-cases (poll_all (signal_poller ∷ others) c)) [
          | inl f ↦ ground arith
          | inr ((p, active), f) ↦
              let ts = due_tasks c.world.clock.now (agenda c.world.timers.timers) in
              let (more, e) = poll_all-due ret others c p active s hs b a f in
              let there : get_elem? p.task_queue (length c.task_queue + i) ≡ some t =
                rw
                  (
                    e,
                    get_elem?-skip c.task_queue (ts ++ more) i,
                    get_elem?-front ts more i (get_elem?-lt ts i t g),
                  )
                  g in
              run-serves_polled func idle (signal_poller ∷ others) n (length c.task_queue + i) t c p
                c' active h f r k there
        ]
