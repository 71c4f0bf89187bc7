-- ===== src/Timer/Armed.antt =====
-- When the physical timer of a Timer_service goes off (lib/io/timer.cpp).
use miniss.Base.{ℕ, ◌+◌, ◌*◌, ◌<◌, ◌≡◌, refl, pos, Option, some, List, [], ◌∷◌, arith}
use miniss.Timer.{
  Slot, Timespec, billion, TimerService, init, push_back, add_timer, from_upper_bound,
  complete_timers, rearm_timer, rearm_unless_empty, max_time, first_deadline, to_timespec,
}
use miniss.Timer.Agenda.{IsSorted}
use miniss.Timer.Queue.{add_timer-enter, complete_timers-due}

to_timespec_lem :
    (n : ℕ)
    → ((to_timespec n).tv_sec * billion + (to_timespec n).tv_nsec ≡ n)
      × ((to_timespec n).tv_nsec < billion)
unfolding to_timespec
to_timespec_lem n = omega arith

module _ {T : Type 0} where
  -- The physical timer is set to the deadline of the next task, if there is one.
  abbrev pub Armed : List (Slot T) → Option Timespec → Type 0
  Armed [] v = Unit {0}
  Armed (s ∷ ss) v = v ≡ some (to_timespec s.deadline)

  rearmed :
      (ret : ℕ) (ts : TimerService T) (ss : List (Slot T))
      → ss ≡ ts.timers
      → (v : Option Timespec) × (rearm_unless_empty (pos ret) ts ss
          ≡ some (record ts { its_value = v }))
        × Armed ts.timers v
  unfolding rearm_timer
  rearmed ret ts [] e = (ts.its_value, refl, rw (← e) tt)
  rearmed ret ts (s ∷ ss) e = (some (to_timespec (first_deadline ts.timers)), refl, rw (← e) refl)

  add_timer-Armed :
      (now interval ret : ℕ) (t : T) (ts ts' : TimerService T) (ss : List (Slot T))
      → ss ≡ ts.timers
      → now + interval < max_time
      → Armed ts.timers ts.its_value
      → add_timer now interval t (pos ret) ts ≡ some ts'
      → Armed ts'.timers ts'.its_value
  unfolding add_timer push_back
  add_timer-Armed now interval ret t ts ts' [] e h a r = ground arith
  add_timer-Armed now interval ret t ts ts' (s ∷ ss) e h a r = ground arith

  complete_timers-Armed :
      (now ret : ℕ) (ts ts' : TimerService T)
      → (complete_timers now (pos ret) ts).0 ≡ some ts'
      → Armed ts'.timers ts'.its_value
  unfolding complete_timers
  complete_timers-Armed now ret ts ts' r =
      let rest = from_upper_bound now ts.timers in
      let (v, done, armed) = rearmed ret (record ts { timers = rest }) rest refl in ground arith

  -- Any history of a service whose physical timer can be set, with deadlines before the clock's last
  -- time point.
  pub data Step : TimerService T → TimerService T → Type 0 where
    adds :
        (now interval ret : ℕ) (t : T) {ts ts' : TimerService T}
        → now + interval < max_time
        → add_timer now interval t (pos ret) ts ≡ some ts'
        → Step ts ts'
    completes :
        (now ret : ℕ) {ts ts' : TimerService T}
        → (complete_timers now (pos ret) ts).0 ≡ some ts'
        → Step ts ts'

  pub data Reach : TimerService T → Type 0 where
    here : Reach init
    next : {ts ts' : TimerService T} → Reach ts → Step ts ts' → Reach ts'

  pub record Inv (ts : TimerService T) : Type 0 where
    pub sorted : IsSorted ts.timers
    pub armed : Armed ts.timers ts.its_value

  Step-Inv : {ts ts' : TimerService T} → Step ts ts' → Inv ts → Inv ts'
  Step-Inv (adds now interval ret t {ts = ts} {ts' = ts'} h r) v = record {
    sorted =
        let (q, e, sorted, _) = add_timer-enter now interval ret t ts v.sorted (omega arith) in
        ground arith;
    armed = add_timer-Armed now interval ret t ts ts' ts.timers refl h v.armed r;
  }
  Step-Inv (completes now ret {ts = ts} {ts' = ts'} r) v = record {
    sorted = let (_, (q, e, sorted, _)) = complete_timers-due now ret ts v.sorted in ground arith;
    armed = complete_timers-Armed now ret ts ts' r;
  }

  Reach-Inv : {ts : TimerService T} → Reach ts → Inv ts
  unfolding init
  Reach-Inv here = record { sorted = tt; armed = tt }
  Reach-Inv (next r st) = Step-Inv st (Reach-Inv r)

  -- After any history of `add_timer` and `complete_timers` in which timer_settime never fails and
  -- every deadline is before the clock's last time point: the map is sorted, and while it is not
  -- empty the physical timer is set to go off at the first deadline, in seconds and in nanoseconds
  -- below one second.
  pub Reach-armed :
      {ts : TimerService T} (s : Slot T) (ss : List (Slot T))
      → Reach ts
      → ts.timers ≡ s ∷ ss
      → (v : Timespec) × (ts.its_value ≡ some v)
        × (v.tv_sec * billion + v.tv_nsec ≡ s.deadline)
        × (v.tv_nsec < billion)
        × IsSorted ts.timers
  Reach-armed {ts} s ss h e =
      let v = Reach-Inv h in
      let parts = to_timespec_lem s.deadline in
      (to_timespec s.deadline, ground arith, parts.0, parts.1, v.sorted)
