-- ===== src/Lib.antt =====
-- miniss, a share-nothing framework of CPUs with futures (C++), and its correctness.
--
-- The parts and how they meet. Each CPU is one thread that runs `CPU::run`: it polls its pollers, then
-- runs at most eight tasks of its queue, and sleeps when there is nothing to do. The pollers are those
-- of the signals (the timers are completed from SIGALRM), of the queues between CPUs, of the worker
-- thread for blocking system calls, and of the kernel's asynchronous file io. A function for another
-- CPU goes through a Cross_cpu_queue, which is two Unbounded_spsc_queues; a blocking call goes through
-- Syscall_runner, two lock-free queues with a semaphore that keeps them from being full and an eventfd
-- that wakes the worker; a read or write goes through File_io, with a semaphore for its 128 slots. A
-- File submits to the last two.
--
-- Which file models what:
--   Base, with Lists, Count, Int and Tests: numbers, lists and Boolean tests.
--   Exceptions: include/miniss/util.h; code that may throw.
--   Spsc: the interface of boost::lockfree::spsc_queue, a bounded queue, with one implementation.
--   Semaphore: include/miniss/util/semaphore.h, lib/util/semaphore.cpp. The state is a record of the
--     tokens and the waiting list; `wait` and `release` return the new state and the future or the
--     promise that is set.
--   Eventfd: signal and wait of include/miniss/util/eventfd.h.
--   Unbounded: include/miniss/util/unbounded_spsc_queue.h, lib/util/unbounded_spsc_queue.cpp. WorkItem
--     is Work_item_impl of that header.
--   Syscall: Syscall_result, wrap_syscall and Syscall_work_item of include/miniss/io/syscall.h.
--     Syscall.Runner: Syscall_runner of that header and lib/io/syscall.cpp, both threads, as a relation
--     `Step` between states. Syscall.Loss is one run of them, in which a push finds no room.
--   Timer: include/miniss/io/timer.h, lib/io/timer.cpp. Timer.Agenda has the specification, an agenda of
--     tasks with their deadlines.
--   Signal: include/miniss/poller/signal_poller.h, lib/poller/signal_poller.cpp, and dispatch_signal of
--     lib/cpu.cpp.
--   Cpu: the loop of CPU::run in lib/cpu.cpp, schedule of include/miniss/cpu.h and lambda_task of
--     include/miniss/task.h, for any pollers and tasks.
--   Idle: run_idle_proc_ of lib/cpu.cpp, with the signals that arrive between its statements.
--   Loop: the loop of CPU::run beside the threads that wake it: its signal poller, the poller of one source
--     of work, and the idle procedure, statement by statement. Loop.Sources has the sources: requests,
--     answers and results of system calls.
--   CrossCpu: include/miniss/cross_cpu_queue.h, lib/cross_cpu_queue.cpp.
--   Remote: Cross_cpu_queue with the Work_item_impl's on their way, from submit to the settled promise.
--   Handover: one direction of a Cross_cpu_queue with push and flush statement by statement, as a source of
--     Loop.
--   Os: the matrix of queues, poll_queues and submit_to of include/miniss/os.h and lib/os.cpp.
--   Start: the threads and latches of OS::init and start_cpu_ of lib/os.cpp.
--     Start.Signals: SIGALRM meanwhile, with the mask of Timer_service and the registration of the handler.
--   FileIo: include/miniss/io/file_io.h, lib/io/file_io.cpp.
--   Epoll: the eventfd by which file io wakes a CPU, of lib/cpu.cpp and lib/io/file_io.cpp, as a source of
--     Loop.
--   File: include/miniss/io/file.h, lib/io/file.cpp, and open_file of lib/cpu.cpp.
--   Lifetime: the constructors and destructors of Eventfd, Timer_service, Syscall_runner, File_io and CPU
--     in include/miniss/util/eventfd.h, lib/io and lib/cpu.cpp.
--   Alarm: init_pollers_ and schedule_after of lib/cpu.cpp, with the handler of SIGALRM, as one poller of
--     Cpu's loop over Timer and Signal.
--   Pollers: the three other pollers in include/miniss/poller and lib/poller, with the Signal_poller as the
--     pollers of Cpu's loop.
--   WhenAll: include/miniss/future_util.h.
--   Coroutine: include/miniss/enable_coroutine.h.
--   App: App::run of lib/app.cpp and OS::exit of lib/os.cpp, with the main function as a Coroutine in Cpu's
--     loop. Cpu.Keeps has the rule by which invariants of that loop are proved.
--
-- How the code is represented. A class is a record of its members, and a method is a function from the
-- state to the new state; fields that the comments call a log are not in the code and record what
-- happened. What the kernel or the clock answers is an argument. A failed assertion and the end of the
-- program are `none`; an exception is `throws`. Promises are named by values of a type, and setting one
-- is a part of a method's result; a continuation of a future that is ready is put into the task queue,
-- since need_preempt is always true in this repository's copy of the futures of Seastar. A state that
-- several parties change comes with a relation `Step` of everything that one of them may do next, and
-- theorems hold in each state that a history of steps leads to (`Reach`).
--
-- Bounds. Tokens and counts of 64 bits wrap around; the theorems that need no wrap have it as a premise.
-- The words of signals have 64 bits. Queues hold 128 items in Syscall_runner and 1024 between CPUs.
-- `Cpu.run` takes the number of rounds of the infinite loop, and `work` in Syscall.Runner.Drain the
-- number of steps of the worker: its theorems say how many are enough.
--
-- Assumptions. A lock-free queue behaves as the bounded queue of Spsc: one push or pop is atomic, and
-- consume_all, which Syscall_runner's worker calls, hands out the items that it finds, one after the
-- other, and frees all their slots when it returns. Outside Handover, a call on one end of an
-- Unbounded_spsc_queue does not interleave with one on the other end. The steady clock and the intervals
-- of timers are not negative; a deadline beyond the clock's last time point is no result (`none`). Outside
-- Syscall.Runner.Failure each signal to the eventfd succeeds, and its count stays below 2^64. A signal
-- that the mask blocks is held back until the mask lets it through, and epoll_pwait changes the mask and
-- waits in one step. A constructor ends by an exception or a failed assertion only where the code checks
-- for it, and what the kernel answers is arbitrary; in Start every construction succeeds. A wakeup by
-- pthread_kill is a signal that arrives in Idle and Loop, and a counter in the other parts.
--
-- Not modelled: the futures themselves (include/miniss/seastar, a copy of another library), the events
-- that epoll_pwait stores, failures of the worker's reads of the eventfd, which end the program,
-- Configuration and the log. pure_poll, which nothing calls, is only in Signal.
pub mod Base
pub mod Exceptions
pub mod Spsc
pub mod Semaphore
pub mod Eventfd
pub mod Unbounded
pub mod WorkItem
pub mod Syscall
pub mod Timer
pub mod Signal
pub mod Cpu
pub mod Idle
pub mod CrossCpu
pub mod Loop
pub mod Handover
pub mod Os
pub mod Remote
pub mod Start
pub mod FileIo
pub mod Epoll
pub mod File
pub mod Lifetime
pub mod Alarm
pub mod Pollers
pub mod WhenAll
pub mod Coroutine
pub mod App
