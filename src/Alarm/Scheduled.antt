-- ===== src/Alarm/Scheduled.antt =====
-- That a task given to schedule_after is run (lib/cpu.cpp, lib/io/timer.cpp).
use miniss.Base.{
  get_elem?-lt, sym, subst, ℕ, suc, ◌+◌, ◌*◌, ◌≤◌, ◌≡◌, pos, true, some, List, [], ◌∷◌, length,
  arith, get_elem?, Bool-cases, ltb, inl, inr,
}
use miniss.Timer.{max_time, TimerService, add_timer}
use miniss.Timer.Agenda.{IsSorted, Agenda, agenda, enter, due_tasks}
use miniss.Timer.Queue.{add_timer-enter}
use miniss.Signal.{get_bit}
use miniss.Cpu.{Cpu, Poller, Func, batch_size, run}
use miniss.Cpu.Fifo.{InOrder}
use miniss.Loop.{sigalrm}
use miniss.Alarm.{World, signal_poller, schedule_after}
use miniss.Alarm.Serve.{only_alarm, run-serves_due}

module _ {T : Type 0} where
  -- A task that was entered is among the due ones from its deadline on.
  due_tasks-enter :
      (now d : ℕ) (t : T) (a : Agenda T)
      → d ≤ now
      → (i : ℕ) × (get_elem? (due_tasks now (enter d t a)) i ≡ some t)
  unfolding due_tasks enter
  due_tasks-enter now d t [] h = (0, ground arith)
  due_tasks-enter now d t ((e, u) ∷ a) h =
      let (i, g) = due_tasks-enter now d t a h in
      elim (Bool-cases (ltb d e)) [ inl k ↦ (0, ground arith) | inr k ↦ (suc i, ground arith) ]

module _ {T V : Type 0} where
  schedule_after-stored :
      (interval : ℕ) (t : T) (w w' : World T V) (timers' : TimerService T)
      → add_timer w.clock.now interval t w.clock.settime w.timers ≡ some timers'
      → schedule_after interval t w ≡ some w'
      → timers' ≡ w'.timers
  unfolding schedule_after
  schedule_after-stored interval t w w' timers' added e = ground arith

  schedule_after-bound :
      (interval : ℕ) (t : T) (w w' : World T V)
      → schedule_after interval t w ≡ some w'
      → w.clock.now + interval ≤ max_time
  unfolding schedule_after add_timer
  schedule_after-bound interval t w w' e = ground arith

  schedule_after-enter :
      (ret interval : ℕ) (t : T) (w w' : World T V)
      → w.clock.settime ≡ pos ret
      → IsSorted w.timers.timers
      → schedule_after interval t w ≡ some w'
      → IsSorted w'.timers.timers
        × (agenda w'.timers.timers ≡ enter (w.clock.now + interval) t (agenda w.timers.timers))
  schedule_after-enter ret interval t w w' s a e =
      let (timers', added, sorted, entered) =
        add_timer-enter w.clock.now interval ret t w.timers a
          (schedule_after-bound interval t w w' e) in
      let same : timers' ≡ w'.timers =
        schedule_after-stored interval t w w' timers' (rw s added) e in
      subst
        (λ (z : TimerService T).
          IsSorted z.timers
          × (agenda z.timers ≡ enter (w.clock.now + interval) t (agenda w.timers.timers)))
        same (sorted, entered)

  module _ (func : Func T (World T V)) (idle : World T V → World T V)
      (others : List (Poller T (World T V))) where
    -- When schedule_after has put a task into a sorted map, and later, with that map still the CPU's,
    -- SIGALRM is pending after the deadline, its handler is the only one, timer_settime does not fail, and
    -- the tasks that were scheduled are those that were run and those in the queue, in this order: if
    -- `n + 1` rounds of the loop, whatever the other pollers, the tasks and the idle procedure do, do not
    -- end the program, and the queued tasks and the due ones make up at most eight for each round, then
    -- the task has been run.
    pub schedule_after-runs :
        (n interval ret ret' : ℕ) (t : T) (w w' : World T V) (c c' : Cpu T (World T V))
        → IsSorted w.timers.timers
        → w.clock.settime ≡ pos ret
        → schedule_after interval t w ≡ some w'
        → InOrder c
        → c.world.timers ≡ w'.timers
        → c.world.clock.settime ≡ pos ret'
        → c.world.signals.signal_handlers ≡ only_alarm
        → get_bit c.world.signals.pending_signals sigalrm ≡ true
        → w.clock.now + interval ≤ c.world.clock.now
        → run func idle (signal_poller ∷ others) (suc n) c ≡ some c'
        → length c.task_queue + length (due_tasks c.world.clock.now (agenda c.world.timers.timers))
          ≤ batch_size * suc n
        → (k : ℕ) × (get_elem? c'.executed k ≡ some t)
    schedule_after-runs n interval ret ret' t w w' c c' a s e h same s' hs b late r k =
        let (sorted, entered) = schedule_after-enter ret interval t w w' s a e in
        let sorted' : IsSorted c.world.timers.timers =
          subst (λ (z : TimerService T). IsSorted z.timers) (sym same) sorted in
        let agenda' : agenda c.world.timers.timers
            ≡ enter (w.clock.now + interval) t (agenda w.timers.timers) =
          rw same entered in
        let (i, g) =
          due_tasks-enter c.world.clock.now (w.clock.now + interval) t (agenda w.timers.timers)
            late in
        let g' : get_elem? (due_tasks c.world.clock.now (agenda c.world.timers.timers)) i ≡ some t =
          rw agenda' g in
        let lt = get_elem?-lt (due_tasks c.world.clock.now (agenda c.world.timers.timers)) i t g' in
        (
          length c.executed + (length c.task_queue + i),
          run-serves_due func idle others n i ret' t c c' h s' hs b sorted' r (omega (arith, k, lt))
              g',
        )
