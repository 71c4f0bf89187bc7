-- ===== src/Alarm/Tests.antt =====
-- An alarm at time 12 with two tasks due at 10 behind one that is queued.
use miniss.Base.{
  replicate, ℕ, ◌+◌, ◌≡◌, refl, pos, true, false, some, none, List, [], ◌∷◌, ◌++◌, arith, get_elem?,
}
use miniss.Exceptions.{Outcome, ok}
use miniss.Timer.{Slot, complete_timers}
use miniss.Timer.Agenda.{due_tasks}
use miniss.Signal.{handle_from, is_zero, Word, zero_word, poll, clear_bits, dispatch_all}
use miniss.Cpu.{Cpu, schedule_all, poll_all, run, run_task, run_batch, iterate}
use miniss.Alarm.{World, signal_poller, call_handlers, schedule_after}
use miniss.Alarm.Serve.{only_alarm}
use miniss.Alarm.Scheduled.{schedule_after-runs}

abbrev rung : Word
rung = replicate 14 false ++ (true ∷ replicate 49 false)

abbrev at : ℕ → Word → List (Slot ℕ) → World ℕ ℕ
at now pending slots = record {
  timers = record { timers = slots; its_value = none };
  signals = record { pending_signals = pending; signal_handlers = only_alarm };
  clock = record { early = []; now = now; settime = pos 0 };
  rest = 0;
}

abbrev later : List (Slot ℕ)
later = record { deadline = 20; tasks = 3 ∷ [] } ∷ []

abbrev one : List (Slot ℕ)
one = record { deadline = 10; tasks = 1 ∷ [] } ∷ later

abbrev both : List (Slot ℕ)
both = record { deadline = 10; tasks = 1 ∷ 2 ∷ [] } ∷ later

abbrev count : ℕ → World ℕ ℕ → Outcome (World ℕ ℕ × List ℕ)
count t w = ok (record w { rest = w.rest + t }, [])

abbrev nap : World ℕ ℕ → World ℕ ℕ
nap w = w

abbrev ringing : Cpu ℕ (World ℕ ℕ)
ringing = record { task_queue = 9 ∷ []; world = at 12 rung both; scheduled = 9 ∷ []; executed = [] }

abbrev done : Cpu ℕ (World ℕ ℕ)
done = record {
  task_queue = [];
  world = record (at 12 zero_word later) {
    timers = record { timers = later; its_value = some (record { tv_sec = 0; tv_nsec = 20 }) };
    rest = 12;
  };
  scheduled = 9 ∷ 1 ∷ 2 ∷ [];
  executed = 9 ∷ 1 ∷ 2 ∷ [];
}

one_round : run count nap (signal_poller ∷ []) 1 ringing ≡ some done
unfolding run iterate run_batch run_task poll_all schedule_all signal_poller call_handlers poll
    is_zero handle_from complete_timers clear_bits dispatch_all
one_round = refl

set_up : schedule_after 5 2 (at 5 zero_word one) ≡ some (at 5 zero_word both)
unfolding schedule_after
set_up = refl

schedule_after-runs_example : (k : ℕ) × (get_elem? done.executed k ≡ some 2)
unfolding due_tasks
schedule_after-runs_example =
    schedule_after-runs count nap [] 0 5 0 0 2 (at 5 zero_word one) (at 5 zero_word both) ringing
      done (omega arith) refl set_up refl refl refl refl refl (omega arith) one_round (omega arith)
