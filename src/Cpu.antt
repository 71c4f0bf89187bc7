-- ===== src/Cpu.antt =====
-- The loop of CPU::run in lib/cpu.cpp, with the tasks of include/miniss/task.h.
-- `T` is the type of the tasks and `W` everything else that they and the pollers read and write. What
-- a task's function does is a parameter: it may throw, and it may schedule tasks.
pub mod Fifo
pub mod Fairness
pub mod Polled
pub mod Keeps
mod Tests
use miniss.Base.{
  ℕ, zero, suc, Bool, true, false, not, ◌&&◌, ◌||◌, Option, none, some, List, [], ◌∷◌, ◌++◌,
  is_empty, if◌then◌else◌,
}
use miniss.Exceptions.{Exception, Outcome, ok, throws}

abbrev pub batch_size : ℕ
batch_size = 8

-- `task_queue`, and a log: the tasks that were scheduled and those that were run, in order.
pub record Cpu (T W : Type 0) : Type 0 where
  pub task_queue : List T
  pub world : W
  pub scheduled : List T
  pub executed : List T

-- A poller's `poll`, or a task's function: it leaves the world and the tasks that it schedules. `none` is
-- a poll that ends CPU::run: by an exception, std::terminate or a failed assertion.
abbrev pub Poller : Type 0 → Type 0 → Type 0
Poller T W = W → Option (W × List T × Bool)

abbrev pub Func : Type 0 → Type 0 → Type 0
Func T W = T → W → Outcome (W × List T)

module _ {T W : Type 0} where
  -- CPU::schedule for each of the tasks in turn.
  unfoldable pub schedule_all : List T → Cpu T W → Cpu T W
  schedule_all ts c = record c { task_queue = c.task_queue ++ ts; scheduled = c.scheduled ++ ts }

  abbrev pub with_active : Bool → Option (Cpu T W × Bool) → Option (Cpu T W × Bool)
  with_active r none = none
  with_active r (some (c, active)) = some (c, r || active)

  -- `cpu_active |= poller->poll()` over the pollers.
  unfoldable pub poll_all : List (Poller T W) → Cpu T W → Option (Cpu T W × Bool)
  unfolding schedule_all
  poll_all [] c = some (c, false)
  poll_all (poll ∷ pollers) c = elim (poll c.world) [
    | none ↦ none
    | some (w, ts, r) ↦ with_active r (poll_all pollers (schedule_all ts (record c { world = w })))
  ]

  module _ (func : Func T W) where
    -- `lambda_task::run` is noexcept: where its function throws, the program ends (`none`).
    unfoldable pub run_task : T → Cpu T W → Option (Cpu T W)
    unfolding schedule_all
    run_task t c = elim (func t c.world) [
      | ok (w, ts) ↦
          some (schedule_all ts (record c { world = w; executed = c.executed ++ t ∷ [] }))
      | throws e ↦ none
    ]

    -- The inner loop, with the rounds that are left.
    unfoldable pub run_batch : ℕ → Cpu T W → Option (Cpu T W)
    run_batch zero c = some c
    run_batch (suc n) c = elim c.task_queue [
      | [] ↦ some c
      | t ∷ rest ↦ elim (run_task t (record c { task_queue = rest })) [
        | none ↦ none
        | some c' ↦ run_batch n c'
      ]
    ]

    -- `run_idle_proc_`, whose wait may change the world.
    module _ (idle : W → W) (pollers : List (Poller T W)) where
      -- One round of the outer loop. The flag says that the CPU went idle.
      unfoldable pub iterate : Cpu T W → Option (Cpu T W × Bool)
      iterate c = elim (poll_all pollers c) [
        | none ↦ none
        | some (c', active) ↦
            if is_empty c'.task_queue && not active
            then some (record c' { world = idle c'.world }, true)
            else elim (run_batch batch_size c') [ none ↦ none | some c'' ↦ some (c'', false) ]
      ]

      -- `n` rounds.
      unfoldable pub run : ℕ → Cpu T W → Option (Cpu T W)
      run zero c = some c
      run (suc n) c = elim (iterate c) [ none ↦ none | some (c', _) ↦ run n c' ]
