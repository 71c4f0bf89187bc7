-- ===== src/Timer/Queue.antt =====
-- Timer_service as a queue of tasks by deadline (lib/io/timer.cpp).
use miniss.Base.{◌≤◌, pos, ℕ, ◌+◌, ◌≡◌, refl, some, List, [], ◌∷◌, ltb, if◌then◌else◌, arith}
use miniss.Timer.{
  to_timespec, rearm_unless_empty, Slot, TimerService, push_back, add_timer, from_upper_bound,
  complete_timers, rearm_timer, first_deadline, max_time,
}
use miniss.Timer.Agenda.{
  IsSorted, agenda, enter, due_tasks, not_due, due-agenda-IsSorted, agenda-push_back,
  push_back-IsSorted,
}

module _ {T : Type 0} where
  rearm_lem :
      (ret : ℕ) (ts : TimerService T) (rest : List (Slot T))
      → (ts' : TimerService T) × (rearm_unless_empty (pos ret) ts rest ≡ some ts')
        × (ts'.timers ≡ ts.timers)
  unfolding rearm_timer
  rearm_lem ret ts [] = (ts, refl, refl)
  rearm_lem ret ts (s ∷ ss) =
      (record ts { its_value = some (to_timespec (first_deadline ts.timers)) }, refl, refl)

  -- Where the map is sorted, the deadline is no later than the clock's last time point and setting the
  -- physical timer works, `add_timer` keeps the map sorted and puts the task behind all tasks that are
  -- due no later, before all others.
  pub add_timer-enter :
      (now interval ret : ℕ) (t : T) (ts : TimerService T)
      → IsSorted ts.timers
      → now + interval ≤ max_time
      → (ts' : TimerService T) × (add_timer now interval t (pos ret) ts ≡ some ts')
        × IsSorted ts'.timers
        × (agenda ts'.timers ≡ enter (now + interval) t (agenda ts.timers))
  unfolding add_timer
  add_timer-enter now interval ret t ts a b =
      let d = now + interval in
      let timers' = push_back d t ts.timers in
      (
        record {
          timers = timers';
          its_value =
              if ltb d (first_deadline ts.timers)
              then some (to_timespec (first_deadline timers'))
              else ts.its_value;
        },
        ground arith,
        push_back-IsSorted d t ts.timers a,
        agenda-push_back d t ts.timers a,
      )

  -- Where the map is sorted and setting the physical timer works, `complete_timers` gives the CPU
  -- exactly the tasks whose deadline is not after `now`, by deadline and in the order of entry, and
  -- keeps exactly the others, in a sorted map.
  pub complete_timers-due :
      (now ret : ℕ) (ts : TimerService T)
      → IsSorted ts.timers
      → let (r, tasks) = complete_timers now (pos ret) ts in
        (tasks ≡ due_tasks now (agenda ts.timers))
        × ((ts' : TimerService T) × (r ≡ some ts')
            × IsSorted ts'.timers
            × (agenda ts'.timers ≡ not_due now (agenda ts.timers)))
  unfolding complete_timers
  complete_timers-due now ret ts a =
      let sorted = due-agenda-IsSorted now ts.timers a in
      let rest = from_upper_bound now ts.timers in
      let (ts', done, same) = rearm_lem ret (record ts { timers = rest }) rest in
      (sorted.0, (ts', done, rw same sorted.2, rw same sorted.1))
