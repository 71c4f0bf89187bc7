-- ===== src/Timer/Tests.antt =====
-- Three tasks, two of them due together.
use miniss.Base.{ℕ, ◌+◌, ◌*◌, ◌<◌, ◌≡◌, refl, pos, some, [], ◌∷◌, arith}
use miniss.Timer.{TimerService, Timespec, billion, init, add_timer, complete_timers}
use miniss.Timer.Agenda.{IsSorted, agenda, enter, due_tasks, not_due}
use miniss.Timer.Queue.{add_timer-enter, complete_timers-due}
use miniss.Timer.Armed.{Reach, here, next, adds, Reach-armed}

abbrev three : TimerService ℕ
three = record {
  timers =
      record { deadline = 10; tasks = 1 ∷ 2 ∷ [] } ∷ record { deadline = 20; tasks = 3 ∷ [] } ∷ [];
  its_value = some (record { tv_sec = 0; tv_nsec = 10 });
}

add_timer-enter_example :
    (ts' : TimerService ℕ) × (add_timer 5 5 4 (pos 0) three ≡ some ts')
    × IsSorted ts'.timers
    × (agenda ts'.timers ≡ enter 10 4 (agenda three.timers))
add_timer-enter_example = add_timer-enter 5 5 0 4 three (omega arith) (omega arith)

entered : enter 10 4 (agenda three.timers) ≡ (10, 1) ∷ (10, 2) ∷ (10, 4) ∷ (20, 3) ∷ []
unfolding enter
entered = refl

complete_timers-due_example :
    let (r, tasks) = complete_timers 15 (pos 0) three in
    (tasks ≡ due_tasks 15 (agenda three.timers))
    × ((ts' : TimerService ℕ) × (r ≡ some ts')
        × IsSorted ts'.timers
        × (agenda ts'.timers ≡ not_due 15 (agenda three.timers)))
complete_timers-due_example = complete_timers-due 15 0 three (omega arith)

abbrev first : TimerService ℕ
first = record {
  timers = record { deadline = 2_000_000_005; tasks = 7 ∷ [] } ∷ [];
  its_value = some (record { tv_sec = 2; tv_nsec = 5 });
}

first-Reach : Reach first
unfolding add_timer init
first-Reach = next here (adds 5 2_000_000_000 0 7 (omega arith) refl)

Reach-armed_example :
    (v : Timespec) × (first.its_value ≡ some v)
    × (v.tv_sec * billion + v.tv_nsec ≡ 2_000_000_005)
    × (v.tv_nsec < billion)
    × IsSorted first.timers
Reach-armed_example =
    Reach-armed (record { deadline = 2_000_000_005; tasks = 7 ∷ [] }) [] first-Reach refl
