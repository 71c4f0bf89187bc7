-- ===== src/Pollers.antt =====
-- Ipc_poller, Syscall_poller and File_io_poller of include/miniss/poller and lib/poller, as pollers of the
-- loop of CPU::run beside the Signal_poller.
pub mod Results
pub mod Idle
mod Tests
use miniss.Base.{ℕ, ℤ, Bool, true, false, Option, none, some, List, [], ◌∷◌, ◌++◌, length}
use miniss.Exceptions.{Outcome, ok, throws}
use miniss.Spsc.{Spsc}
use miniss.Unbounded
use miniss.Semaphore.{release}
use miniss.Os.{Queues, poll_queues}
use miniss.Syscall.Runner
use miniss.Syscall.Runner.{Runner, queue_size}
use miniss.FileIo.{FileIo, IoEvent, Request, reap_io}
use miniss.Cpu.{Poller}
use miniss.Alarm.{World, signal_poller}

-- What io_getevents answers: its result, the events, the requests that the kernel keeps, and errno.
pub record IoAnswer : Type 0 where
  pub result : ℤ
  pub events : List IoEvent
  pub left : List Request
  pub errno : ℤ

-- The results that a call of poll_results takes, in order.
unfoldable pub taken : {W : Type 0} (S : Spsc W queue_size) → Runner S → List W
taken S r = (S.pop queue_size r.result_queue).1

module _ {I W : Type 0} (SI : Spsc I Unbounded.capacity) (SW : Spsc W queue_size) where
  -- What the three pollers refer to. `cpu` is the number of the CPU.
  pub record Devices : Type 0 where
    pub cpu_count : ℕ
    pub cpu : ℕ
    pub queues : Queues SI
    pub runner : Runner SW
    pub file_io : FileIo
    pub io : IoAnswer

-- The tasks that are scheduled: by a round of the queues, by `complete()` of a system call's result, by the
-- semaphore for a call that it lets in, and by the events of the kernel.
pub record Scheduled (T I W : Type 0) (SI : Spsc I Unbounded.capacity) : Type 0 where
  pub by_queues : Queues SI → List T
  pub by_result : W → List T
  pub by_room : W → List T
  pub by_events : List IoEvent → List T

module _ {T I W : Type 0} (SI : Spsc I Unbounded.capacity) (SW : Spsc W queue_size)
    (sc : Scheduled T I W SI) where
  abbrev pub CpuWorld : Type 0
  CpuWorld = World T (Devices SI SW)

  abbrev pub by_results : List W → List T
  by_results [] = []
  by_results (w ∷ ws) = sc.by_result w ++ by_results ws

  abbrev pub by_waiter : Option W → List T
  by_waiter none = []
  by_waiter (some w) = sc.by_room w

  abbrev pub with_queues : CpuWorld → Option (Queues SI × Bool) → Option (CpuWorld × List T × Bool)
  with_queues w none = none
  with_queues w (some (qs, found)) =
      some (record w { rest = record w.rest { queues = qs } }, sc.by_queues w.rest.queues, found)

  unfoldable pub ipc_poller : Poller T CpuWorld
  ipc_poller w = with_queues w (poll_queues SI w.rest.cpu_count w.rest.cpu w.rest.queues)

  -- The continuations of the results first, then that of a call which the semaphore lets in.
  unfoldable pub syscall_poller : Poller T CpuWorld
  unfolding taken
  syscall_poller w =
      let (r, found) = Runner.poll_results SW w.rest.runner in
      let work = taken SW w.rest.runner in
      some (
        record w { rest = record w.rest { runner = r } },
        by_results work ++ by_waiter (release (length work) w.rest.runner.queue_has_room).1,
        found,
      )

  abbrev pub with_events : CpuWorld → Outcome (FileIo × Bool) → Option (CpuWorld × List T × Bool)
  with_events w (throws e) = none
  with_events w (ok (f, found)) =
      some (record w { rest = record w.rest { file_io = f } }, sc.by_events w.rest.io.events, found)

  unfoldable pub file_io_poller : Poller T CpuWorld
  file_io_poller w =
      let io = w.rest.io in
      with_events w (reap_io io.result io.events io.left io.errno w.rest.file_io)

  -- `pollers_` behind `init_pollers_`.
  abbrev pub pollers : List (Poller T CpuWorld)
  pollers = signal_poller ∷ ipc_poller ∷ syscall_poller ∷ file_io_poller ∷ []
