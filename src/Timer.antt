-- ===== src/Timer.antt =====
-- Timer_service of include/miniss/io/timer.h and lib/io/timer.cpp. Times are nanoseconds of the steady
-- clock, not negative; `now` and the result `ret` of timer_settime are arguments. `none` is
-- std::terminate.
pub mod Agenda
pub mod Queue
pub mod Armed
mod Tests
use miniss.Base.{
  ℕ, ◌+◌, ◌-◌, ◌/◌, ◌%◌, ◌^◌, ℤ, is_negative, Bool, true, false, Option, none, some, List, [], ◌∷◌,
  ◌++◌, ltb, leb, ◌==◌, if◌then◌else◌,
}

pub record Timespec : Type 0 where
  pub tv_sec : ℕ
  pub tv_nsec : ℕ

abbrev pub billion : ℕ
billion = 1_000_000_000

-- Clock_type::time_point::max()
abbrev pub max_time : ℕ
max_time = 2 ^ 63 - 1

unfoldable pub to_timespec : ℕ → Timespec
to_timespec n = record { tv_sec = n / billion; tv_nsec = n % billion }

-- An entry of the map `timers_`, which is the list of its entries by rising deadline.
pub record Slot (T : Type 0) : Type 0 where
  pub deadline : ℕ
  pub tasks : List T

-- `its_value` is what the physical timer was last set to.
pub record TimerService (T : Type 0) : Type 0 where
  pub timers : List (Slot T)
  pub its_value : Option Timespec

module _ {T : Type 0} where
  unfoldable pub init : TimerService T
  init = record { timers = []; its_value = none }

  -- `timers_[deadline].push_back(t)`
  unfoldable pub push_back : ℕ → T → List (Slot T) → List (Slot T)
  push_back d t [] = record { deadline = d; tasks = t ∷ [] } ∷ []
  push_back d t (s ∷ rest) =
      let later = s ∷ push_back d t rest in
      if ltb d s.deadline
      then record { deadline = d; tasks = t ∷ [] } ∷ s ∷ rest
      else if d == s.deadline
      then record s { tasks = s.tasks ++ t ∷ [] } ∷ rest
      else later

  abbrev pub first_deadline : List (Slot T) → ℕ
  first_deadline [] = max_time
  first_deadline (s ∷ rest) = s.deadline

  unfoldable pub rearm_timer : ℤ → TimerService T → Option (TimerService T)
  unfolding to_timespec
  rearm_timer ret ts =
      if is_negative ret
      then none
      else some (record ts { its_value = some (to_timespec (first_deadline ts.timers)) })

  unfoldable pub add_timer : ℕ → ℕ → T → ℤ → TimerService T → Option (TimerService T)
  unfolding push_back rearm_timer
  add_timer now interval t ret ts =
      let new_deadline = now + interval in
      let old_deadline = first_deadline ts.timers in
      let ts' : TimerService T = record ts { timers = push_back new_deadline t ts.timers } in
      if ltb max_time new_deadline
      then none
      else if ltb new_deadline old_deadline
      then rearm_timer ret ts'
      else some ts'

  -- The tasks of the entries before `upper_bound(now)`, in order, and the entries from it on.
  unfoldable pub due : ℕ → List (Slot T) → List T
  due now [] = []
  due now (s ∷ rest) = let more = s.tasks ++ due now rest in if ltb now s.deadline then [] else more

  unfoldable pub from_upper_bound : ℕ → List (Slot T) → List (Slot T)
  from_upper_bound now [] = []
  from_upper_bound now (s ∷ rest) =
      let more = from_upper_bound now rest in if ltb now s.deadline then s ∷ rest else more

  abbrev pub rearm_unless_empty : ℤ → TimerService T → List (Slot T) → Option (TimerService T)
  rearm_unless_empty ret ts [] = some ts
  rearm_unless_empty ret ts (s ∷ rest) = rearm_timer ret ts

  -- Also the tasks that the CPU is given, in order.
  unfoldable pub complete_timers : ℕ → ℤ → TimerService T → Option (TimerService T) × List T
  unfolding due from_upper_bound rearm_timer
  complete_timers now ret ts =
      let rest = from_upper_bound now ts.timers in
      (rearm_unless_empty ret (record ts { timers = rest }) rest, due now ts.timers)
