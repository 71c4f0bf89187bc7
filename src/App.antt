-- ===== src/App.antt =====
-- App::run of lib/app.cpp behind OS::init: the program's main function as the first task of CPU 0, and
-- OS::exit of lib/os.cpp with its result. The main function is a coroutine, or a function that returns a
-- future, which is a coroutine's body without awaits.
pub mod Codes
pub mod Exit
mod Tests
use miniss.Base.{ℕ, ℤ, negsuc, Bool, Option, none, some, List, [], ◌∷◌, ◌++◌, map}
use miniss.Exceptions.{Outcome, ok, throws}
use miniss.Syscall.{Completion, set_value}
use miniss.Coroutine.{Body, Coroutine, enter, resume}
use miniss.Cpu.{run, Cpu, Poller, Func}

-- The tasks of CPU 0: that of App::run, the continuation of a future that the main function awaits, the
-- continuation of App::run on the main function's future, and all others.
pub data AppTask (U : Type 0) : Type 0 where
  main resumed : AppTask U
  finished : Completion ℤ → AppTask U
  other : U → AppTask U

-- `frame` is the main function once it was called, and `exited` a log of the calls of OS::exit. The first
-- one ends the program.
pub record AppWorld (W B : Type 0) : Type 0 where
  pub rest : W
  pub frame : Option (Coroutine ℤ B)
  pub exited : List ℤ

-- `f.failed()` leads to -1. No promise is set by `abort`.
abbrev pub exit_code : Completion ℤ → ℤ
exit_code (set_value code) = code
exit_code _ = negsuc 0

-- The future of the main function is ready.
module _ {U : Type 0} where
  abbrev pub then_exit : Option (Completion ℤ) → List (AppTask U)
  then_exit none = []
  then_exit (some k) = finished k ∷ []

  -- Other tasks and the pollers schedule others (`some`), and the continuation of what is awaited (`none`).
  abbrev pub scheduled : Option U → AppTask U
  scheduled none = resumed
  scheduled (some u) = other u

module _ {U W B : Type 0} where
  abbrev pub with_frame : AppWorld W B → Coroutine ℤ B → Outcome (AppWorld W B × List (AppTask U))
  with_frame w c = ok (record w { frame = some c }, then_exit c.pr)

  -- The handle is resumed only where the coroutine is suspended.
  abbrev pub resume_frame :
      AppWorld W B
      → Coroutine ℤ B
      → Option (Outcome B × (Outcome B → Body ℤ B))
      → Outcome (AppWorld W B × List (AppTask U))
  resume_frame w c none = ok (w, [])
  resume_frame w c (some s) = with_frame w (resume c)

  abbrev pub resume_main :
      AppWorld W B → Option (Coroutine ℤ B) → Outcome (AppWorld W B × List (AppTask U))
  resume_main w none = ok (w, [])
  resume_main w (some c) = resume_frame w c c.suspended

  abbrev pub with_rest :
      AppWorld W B → Outcome (W × List (Option U)) → Outcome (AppWorld W B × List (AppTask U))
  with_rest w (throws e) = throws e
  with_rest w (ok (r, us)) = ok (record w { rest = r }, map scheduled us)

  unfoldable pub func : Body ℤ B → Func (Option U) W → Func (AppTask U) (AppWorld W B)
  func task others main w = with_frame w (enter task)
  func task others resumed w = resume_main w w.frame
  func task others (finished k) w = ok (record w { exited = w.exited ++ exit_code k ∷ [] }, [])
  func task others (other u) w = with_rest w (others (some u) w.rest)

  abbrev pub with_poll :
      AppWorld W B
      → Option (W × List (Option U) × Bool)
      → Option (AppWorld W B × List (AppTask U) × Bool)
  with_poll w none = none
  with_poll w (some (r, us, found)) = some (record w { rest = r }, map scheduled us, found)

  abbrev pub poller : Poller (Option U) W → Poller (AppTask U) (AppWorld W B)
  poller poll w = with_poll w (poll w.rest)

  abbrev pub all_pollers : List (Poller (Option U) W) → List (Poller (AppTask U) (AppWorld W B))
  all_pollers [] = []
  all_pollers (p ∷ ps) = poller p ∷ all_pollers ps

  -- Behind `schedule` in App::run, before CPU::run.
  unfoldable pub begin : W → Cpu (AppTask U) (AppWorld W B)
  begin w = record {
    task_queue = main ∷ [];
    world = record { rest = w; frame = none; exited = [] };
    scheduled = main ∷ [];
    executed = [];
  }

module _ {W B : Type 0} where
  abbrev pub idle_rest : (W → W) → AppWorld W B → AppWorld W B
  idle_rest idle w = record w { rest = idle w.rest }

module _ {U W B : Type 0} (task : Body ℤ B) (others : Func (Option U) W) (idle : W → W)
    (pollers : List (Poller (Option U) W)) where
  -- `n` rounds of `this_cpu()->run()`.
  abbrev pub runs : ℕ → Cpu (AppTask U) (AppWorld W B) → Option (Cpu (AppTask U) (AppWorld W B))
  runs = run (func task others) (idle_rest idle) (all_pollers pollers)
