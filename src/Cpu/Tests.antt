-- ===== src/Cpu/Tests.antt =====
-- A CPU whose tasks are numbers: 0 throws, 1 schedules 5, any other adds itself to the world.
use miniss.Base.{ℕ, zero, suc, ◌+◌, ◌≡◌, refl, some, false, List, [], ◌∷◌, arith, get_elem?}
use miniss.Exceptions.{Outcome, ok, throws, other_exception}
use miniss.Cpu.{Cpu, Poller, poll_all, run_task, run_batch, iterate, run}
use miniss.Cpu.Fairness.{run-serves}

abbrev add : ℕ → ℕ → Outcome (ℕ × List ℕ)
add zero w = throws (other_exception 0)
add (suc zero) w = ok (w, 5 ∷ [])
add n w = ok (w + n, [])

abbrev quiet : Poller ℕ ℕ
quiet w = some (w, [], false)

abbrev nap : ℕ → ℕ
nap w = w

abbrev busy : Cpu ℕ ℕ
busy = record { task_queue = 1 ∷ 2 ∷ []; world = 0; scheduled = 1 ∷ 2 ∷ []; executed = [] }

abbrev done : Cpu ℕ ℕ
done = record { task_queue = []; world = 7; scheduled = 1 ∷ 2 ∷ 5 ∷ []; executed = 1 ∷ 2 ∷ 5 ∷ [] }

one_round : run add nap (quiet ∷ []) 1 busy ≡ some done
unfolding run iterate run_batch run_task poll_all
one_round = refl

run-serves_example : get_elem? done.executed 1 ≡ some 2
run-serves_example =
    run-serves add nap (quiet ∷ []) 1 1 2 busy done refl one_round (omega arith) refl
