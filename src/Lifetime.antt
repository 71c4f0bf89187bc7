-- ===== src/Lifetime.antt =====
-- The constructors and destructors of Eventfd (include/miniss/util/eventfd.h), Timer_service
-- (lib/io/timer.cpp), Syscall_runner (lib/io/syscall.cpp), File_io (lib/io/file_io.cpp) and CPU
-- (lib/cpu.cpp), with the order in which C++ runs them. What the kernel answers is an argument.
pub mod Unwinding
mod Tests
use miniss.Base.{
  ℕ, ℤ, is_negative, is_minus_one, ◌≡◌, Bool, true, false, not, ◌||◌, List, [], ◌∷◌, ◌++◌, ◌==◌,
  if◌then◌else◌,
}
use miniss.Exceptions.{Exception, system_error, Outcome, ok, throws, throw_system_error_if}
use miniss.Signal.{is_not_zero}

-- What a CPU holds of the kernel: the physical timer, the eventfd and the thread of the Syscall_runner,
-- the eventfd and the context of the File_io, and its own epoll descriptor.
pub data Resource : Type 0 where
  physical_timer interrupter worker aio_eventfd aio_ctx epoll : Resource

pub data Event : Type 0 where
  acquired released : Resource → Event

-- How a constructor ends; `aborted` is a failed assertion.
pub data Ending : Type 0 where
  built aborted : Ending
  thrown : Exception → Ending

-- What a constructor does, and how it ends.
abbrev pub Construction : Type 0
Construction = List Event × Ending

-- A constructor goes on behind a check that may throw.
abbrev pub checked : Outcome (Unit {0}) → Construction → Construction
checked (ok _) rest = rest
checked (throws e) rest = ([], thrown e)

abbrev pub unwound : List Event → Construction → Construction
unwound destructor (trace, thrown e) = (trace ++ destructor, thrown e)
unwound destructor c = c

abbrev pub after : List Event → Construction → Construction
after events (trace, e) = (events ++ trace, e)

-- A member or a base is constructed before `rest`. If `rest` throws, its destructor runs.
abbrev pub with_member : Construction → List Event → Construction → Construction
with_member (trace, built) destructor rest = after trace (unwound destructor rest)
with_member c destructor rest = c

-- `fd` is what eventfd returns, for the resource `r`.
unfoldable pub construct_eventfd : Resource → ℤ → ℤ → Construction
unfolding throw_system_error_if
construct_eventfd r fd errno =
    checked (throw_system_error_if (is_negative fd) errno) (acquired r ∷ [], built)

unfoldable pub destroy_eventfd : Resource → ℤ → List Event
destroy_eventfd r fd = if is_negative fd then [] else released r ∷ []

-- `mask` and `created` are what pthread_sigmask and timer_create return.
unfoldable pub construct_timer_service : ℤ → ℤ → ℤ → Construction
unfolding throw_system_error_if
construct_timer_service mask created errno =
    checked (throw_system_error_if (is_negative mask) errno) (
      checked (throw_system_error_if (is_negative created) errno)
        (acquired physical_timer ∷ [], built))

abbrev pub destroy_timer_service : List Event
destroy_timer_service = released physical_timer ∷ []

-- `thread` is what the constructor of the std::jthread does.
unfoldable pub construct_syscall_runner : ℤ → Outcome (Unit {0}) → ℤ → Construction
unfolding construct_eventfd destroy_eventfd
construct_syscall_runner fd thread errno =
    with_member (construct_eventfd interrupter fd errno) (destroy_eventfd interrupter fd)
      (checked thread (acquired worker ∷ [], built))

-- The thread is joined by the destructor of `worker_`.
unfoldable pub destroy_syscall_runner : ℤ → List Event
unfolding destroy_eventfd
destroy_syscall_runner fd = released worker ∷ destroy_eventfd interrupter fd

-- `set_up` is what io_setup returns.
unfoldable pub construct_file_io : ℤ → ℤ → ℤ → Construction
unfolding construct_eventfd destroy_eventfd throw_system_error_if
construct_file_io fd set_up errno =
    with_member (construct_eventfd aio_eventfd fd errno) (destroy_eventfd aio_eventfd fd)
      (checked (throw_system_error_if (is_negative set_up) errno) (acquired aio_ctx ∷ [], built))

unfoldable pub destroy_file_io : ℤ → List Event
unfolding destroy_eventfd
destroy_file_io fd = released aio_ctx ∷ destroy_eventfd aio_eventfd fd

-- What the kernel answers to the constructor of a CPU. `io_setup` is given the context's old value.
pub record Answers : Type 0 where
  pub mask : ℤ
  pub timer : ℤ
  pub interrupter_fd : ℤ
  pub thread : Outcome (Unit {0})
  pub aio_fd : ℤ
  pub io_setup : ℕ → ℤ
  pub epoll_fd : ℤ
  pub epoll_ctl : ℤ
  pub errno : ℤ

-- `ctx` is the old value of `aio_ctx_`, which nothing initialises.
unfoldable pub construct_cpu : ℕ → Answers → Construction
unfolding construct_timer_service construct_syscall_runner destroy_syscall_runner construct_file_io
    destroy_file_io throw_system_error_if
construct_cpu ctx a =
    with_member (construct_timer_service a.mask a.timer a.errno) destroy_timer_service (
      with_member (construct_syscall_runner a.interrupter_fd a.thread a.errno)
        (destroy_syscall_runner a.interrupter_fd)
        (with_member (construct_file_io a.aio_fd (a.io_setup ctx) a.errno)
          (destroy_file_io a.aio_fd)
          (checked (throw_system_error_if (is_negative a.epoll_fd) a.errno)
            (acquired epoll ∷ [], if is_not_zero a.epoll_ctl then aborted else built))))

-- The destructor's body, and its members in the reverse order.
unfoldable pub destroy_cpu : Answers → List Event
unfolding destroy_syscall_runner destroy_file_io
destroy_cpu a =
    (if is_minus_one a.epoll_fd then [] else released epoll ∷ [])
    ++ (destroy_file_io a.aio_fd
        ++ (destroy_syscall_runner a.interrupter_fd ++ destroy_timer_service))
