-- ===== src/App/Tests.antt =====
-- A main function that awaits one future and returns what that gives, among six other tasks in each round.
use miniss.Base.{ℕ, ℤ, pos, ◌≡◌, refl, true, false, Option, some, none, List, [], ◌∷◌, ◌++◌, arith}
use miniss.Exceptions.{Outcome, ok, throws}
use miniss.Syscall.{set_value}
use miniss.Coroutine.{
  Body, Coroutine, returns, raises, awaits, enter, resume, return_value, await_suspend,
}
use miniss.Cpu.{Cpu, Poller, Func, run, iterate, poll_all, schedule_all, run_batch, run_task}
use miniss.Cpu.Keeps.{All}
use miniss.App.{AppTask, main, resumed, finished, other, AppWorld, func, runs, begin}
use miniss.App.Exit.{IsCode, run-exits}

abbrev awaited : Outcome ℤ → Body ℤ ℤ
awaited (ok n) = returns n
awaited (throws e) = raises e

abbrev task : Body ℤ ℤ
task = awaits false (ok (pos 3)) awaited

abbrev others : Func (Option ℕ) ℕ
others t w = ok (w, [])

abbrev idle : ℕ → ℕ
idle w = w

abbrev six : List (Option ℕ)
six = some 1 ∷ some 2 ∷ some 3 ∷ some 4 ∷ some 5 ∷ some 6 ∷ []

abbrev poll : Poller (Option ℕ) ℕ
poll w = some (w, none ∷ six, true)

abbrev six_others : List (AppTask ℕ)
six_others = other 1 ∷ other 2 ∷ other 3 ∷ other 4 ∷ other 5 ∷ other 6 ∷ []

abbrev frame : Coroutine ℤ ℤ
frame = record { suspended = none; pr = some (set_value (pos 3)) }

abbrev returned : Cpu (AppTask ℕ) (AppWorld ℕ ℤ)
returned = record {
  task_queue = finished (set_value (pos 3)) ∷ [];
  world = record { rest = 0; frame = some frame; exited = [] };
  scheduled = main ∷ resumed ∷ six_others ++ finished (set_value (pos 3)) ∷ [];
  executed = main ∷ resumed ∷ six_others;
}

abbrev exiting : Cpu (AppTask ℕ) (AppWorld ℕ ℤ)
exiting = record {
  task_queue = [];
  world = record { rest = 0; frame = some frame; exited = pos 3 ∷ [] };
  scheduled = main ∷ resumed ∷ six_others ++ finished (set_value (pos 3)) ∷ resumed ∷ six_others;
  executed = main ∷ resumed ∷ six_others ++ finished (set_value (pos 3)) ∷ resumed ∷ six_others;
}

returned-begin : runs task others idle (poll ∷ []) 1 (begin 0) ≡ some returned
unfolding begin func run iterate poll_all schedule_all run_batch run_task enter resume return_value
    await_suspend
returned-begin = refl

exiting-returned : runs task others idle (poll ∷ []) 1 returned ≡ some exiting
unfolding func run iterate poll_all schedule_all run_batch run_task resume
exiting-returned = refl

run-exits_example :
    (code : ℤ) × (later : List ℤ) × (exiting.world.exited ≡ code ∷ later)
    × All (IsCode task) (code ∷ later)
run-exits_example =
    run-exits task others idle (poll ∷ []) 1 1 0 returned exiting frame (set_value (pos 3))
      returned-begin refl refl exiting-returned (omega arith)
