-- ===== src/Pollers/Tests.antt =====
-- A CPU alone with a result of a system call, behind a task that is queued.
use miniss.Base.{false, ℕ, ◌≡◌, refl, pos, true, none, some, List, [], ◌∷◌, arith}
use miniss.Exceptions.{Outcome, ok}
use miniss.Spsc.{Spsc, list_spsc}
use miniss.Unbounded.{capacity}
use miniss.Semaphore
use miniss.Signal
use miniss.Signal.{zero_word, poll, is_zero}
use miniss.Os.{Queues, init_queues, poll_queues}
use miniss.Syscall.Runner
use miniss.Syscall.Runner.{Runner, queue_size}
use miniss.FileIo
use miniss.Cpu.{Cpu, schedule_all, poll_all, run, run_task, run_batch, iterate}
use miniss.Alarm.{signal_poller}
use miniss.Alarm.Serve.{only_alarm}
use miniss.Pollers.{Scheduled, CpuWorld, taken, ipc_poller, syscall_poller, file_io_poller, pollers}
use miniss.Pollers.Idle.{iterate-idle-pollers}
use miniss.Pollers.Results.{Stands, run-serves_result}

abbrev items : Spsc ℕ capacity
items = list_spsc ℕ capacity

abbrev calls : Spsc ℕ queue_size
calls = list_spsc ℕ queue_size

abbrev plain : Scheduled ℕ ℕ ℕ items
plain = record {
  by_queues = λ qs. [];
  by_result = λ w. w ∷ [];
  by_room = λ w. [];
  by_events = λ es. [];
}

abbrev full : Runner calls
full = record (Runner.start calls) {
  queue_has_room = record { tokens = 127; waiting_list = [] };
  result_queue = 7 ∷ [];
  submitted = 7 ∷ [];
  processed = 7 ∷ [];
}

abbrev empty : Runner calls
empty = record full {
  queue_has_room = record { tokens = 128; waiting_list = [] };
  result_queue = [];
  completed = 7 ∷ [];
}

abbrev with_runner : Runner calls → CpuWorld items calls plain
with_runner r = record {
  timers = record { timers = []; its_value = none };
  signals = record { pending_signals = zero_word; signal_handlers = only_alarm };
  clock = record { early = []; now = 5; settime = pos 0 };
  rest = record {
    cpu_count = 1;
    cpu = 0;
    queues = init_queues items;
    runner = r;
    file_io = FileIo.start (pos 3);
    io = record { result = pos 0; events = []; left = []; errno = pos 0 };
  };
}

abbrev ignore : ℕ → CpuWorld items calls plain → Outcome (CpuWorld items calls plain × List ℕ)
ignore t w = ok (w, [])

abbrev nap : CpuWorld items calls plain → CpuWorld items calls plain
nap w = w

abbrev begun : Cpu ℕ (CpuWorld items calls plain)
begun = record { task_queue = 9 ∷ []; world = with_runner full; scheduled = 9 ∷ []; executed = [] }

abbrev polled : Cpu ℕ (CpuWorld items calls plain)
polled = record {
  task_queue = 9 ∷ 7 ∷ [];
  world = with_runner empty;
  scheduled = 9 ∷ 7 ∷ [];
  executed = [];
}

abbrev done : Cpu ℕ (CpuWorld items calls plain)
done = record polled { task_queue = []; executed = 9 ∷ 7 ∷ [] }

polls : poll_all (pollers items calls plain) begun ≡ some (polled, true)
unfolding poll_all schedule_all signal_poller ipc_poller syscall_poller file_io_poller poll is_zero
    taken poll_queues Runner.poll_results Runner.start Semaphore.release FileIo.start FileIo.reap_io
    Signal.dispatch_all Semaphore.init
polls = refl

one_round : run ignore nap (pollers items calls plain) 1 begun ≡ some done
unfolding run iterate run_batch run_task poll_all schedule_all signal_poller ipc_poller
    syscall_poller file_io_poller poll is_zero taken poll_queues Runner.poll_results Runner.start
    Semaphore.release FileIo.start FileIo.reap_io Signal.dispatch_all Semaphore.init
one_round = refl

run-serves_result_example : Stands 7 done.executed
unfolding Runner.start
run-serves_result_example =
    run-serves_result items calls plain ignore nap 0 0 7 7 begun polled done true refl refl
      (omega arith) (0, refl) polls (omega arith) one_round

-- Nothing is left to do.
abbrev bored : Cpu ℕ (CpuWorld items calls plain)
bored = record { task_queue = []; world = with_runner empty; scheduled = []; executed = [] }

goes_idle : iterate ignore nap (pollers items calls plain) bored ≡ some (bored, true)
unfolding iterate poll_all schedule_all signal_poller ipc_poller syscall_poller file_io_poller poll
    is_zero taken poll_queues Runner.poll_results Runner.start Semaphore.release FileIo.start
    FileIo.reap_io Signal.dispatch_all Semaphore.init
goes_idle = refl

iterate-idle-pollers_example :
    let d = bored.world.rest in
    (is_zero bored.world.signals.pending_signals ≡ true)
    × ((qs : Queues items) × (poll_queues items d.cpu_count d.cpu d.queues ≡ some (qs, false)))
    × (calls.contents d.runner.result_queue ≡ [])
    × (d.io.events ≡ [])
    × (bored.task_queue ≡ [])
    × (bored.executed ≡ bored.scheduled)
iterate-idle-pollers_example =
    iterate-idle-pollers items calls plain ignore nap bored bored refl goes_idle
