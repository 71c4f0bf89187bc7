-- ===== src/FileIo.antt =====
-- File_io of include/miniss/io/file_io.h and lib/io/file_io.cpp: asynchronous reads and writes by the
-- kernel's aio. A request, its continuation, its promise and its completion event are all named by the
-- request, since `submit_io_` attaches one continuation to each `wait`, `submit_io_impl_` makes one
-- promise for each request, and `aio_data` points to that promise. The kernel's answers are arguments.
pub mod Tokens
pub mod Requests
pub mod Turns
pub mod Transfer
mod Tests
use miniss.Base.{
  ℕ, zero, suc, ◌+◌, ℤ, pos, negsuc, is_negative, Bool, true, false, ◌≡◌, Option, none, some, List,
  [], ◌∷◌, ◌++◌, length, map, ltb, if◌then◌else◌,
}
use mathlib.Core.List.{Perm}
use miniss.Exceptions.{
  Exception, system_error, Outcome, ok, throws, ◌>>=◌, ◌>>◌, throw_system_error_if,
  throw_kernel_error,
}
use miniss.Semaphore.{Semaphore, Future, ready, pending, wait, release}
use miniss.Semaphore

abbrev pub max_io : ℕ
max_io = 128

-- IOCB_CMD_PREAD and IOCB_CMD_PWRITE
pub data Opcode : Type 0 where
  pread pwrite : Opcode

-- The fields of `iocb` that the code sets; `flag_resfd` is IOCB_FLAG_RESFD in `aio_flags`.
pub record Iocb : Type 0 where
  pub aio_lio_opcode : Opcode
  pub aio_fildes : ℤ
  pub aio_buf : ℕ
  pub aio_nbytes : ℕ
  pub aio_offset : ℕ
  pub aio_resfd : ℤ
  pub flag_resfd : Bool

-- The iocb of `submit_write` and `submit_read` for a buffer of `size` bytes at `buf`,
unfoldable pub prepare : Opcode → ℤ → ℕ → ℕ → ℕ → Iocb
prepare op fd position buf size = record {
  aio_lio_opcode = op;
  aio_fildes = fd;
  aio_buf = buf;
  aio_nbytes = size;
  aio_offset = position;
  aio_resfd = pos 0;
  flag_resfd = false;
}

-- and what `submit_io_` adds to it.
unfoldable pub with_eventfd : ℤ → Iocb → Iocb
with_eventfd fd io = record io { aio_resfd = fd; flag_resfd = true }

-- A request: the iocb, and a number that tells it from the others.
abbrev pub Request : Type 0
Request = ℕ × Iocb

-- io_event: the request and its result.
pub record IoEvent : Type 0 where
  pub request : Request
  pub res : ℤ

-- What the continuation in `submit_write` and `submit_read` makes of the event. A result that is not
-- negative is a std::uint64_t as it is.
unfoldable pub to_result : IoEvent → Outcome ℕ
unfolding throw_kernel_error
to_result ev = do throw_kernel_error ev.res; ok (magnitude ev.res)
  where
    magnitude : ℤ → ℕ
    magnitude (pos n) = n
    magnitude (negsuc n) = 0

-- `scheduled` are the continuations of `submit_io_` that the task queue holds, `in_kernel` what the
-- kernel has accepted and not reported. The last three fields are a log.
pub record FileIo : Type 0 where
  pub aio_available : Semaphore Request
  pub aio_eventfd : ℤ
  pub scheduled : List Request
  pub in_kernel : List Request
  pub submitted : List Request
  pub failed : List Request
  pub resolved : List IoEvent

unfoldable pub start : ℤ → FileIo
start eventfd = record {
  aio_available = Semaphore.init max_io;
  aio_eventfd = eventfd;
  scheduled = [];
  in_kernel = [];
  submitted = [];
  failed = [];
  resolved = [];
}

-- A future that is ready schedules its continuation at once.
abbrev then_submit : Request → FileIo → Semaphore Request × Future Request → FileIo
then_submit r f (s, ready) = record f {
  aio_available = s;
  scheduled = f.scheduled ++ r ∷ [];
  submitted = f.submitted ++ r ∷ [];
}
then_submit r f (s, pending _) = record f { aio_available = s; submitted = f.submitted ++ r ∷ [] }

-- `submit_io_`, and `submit_write` and `submit_read` for request number `id`.
unfoldable pub submit_io : Request → FileIo → FileIo
submit_io r f = then_submit r f (wait r 1 f.aio_available)

unfoldable pub submit : Opcode → ℤ → ℕ → ℕ → ℕ → ℕ → FileIo → FileIo
unfolding submit_io with_eventfd prepare
submit op fd position buf size id f =
    submit_io (id, with_eventfd f.aio_eventfd (prepare op fd position buf size)) f

-- The continuation of `submit_io_`: `submit_io_impl_`, where io_submit returns `r`. A negative `r`
-- throws into the future of the request.
unfoldable pub submit_io_impl : ℤ → FileIo → List Request → FileIo
submit_io_impl r f [] = f
submit_io_impl r f (q ∷ rest) =
    if is_negative r
    then record f { scheduled = rest; failed = f.failed ++ q ∷ [] }
    else record f { scheduled = rest; in_kernel = f.in_kernel ++ q ∷ [] }

-- Setting a promise of the semaphore schedules its continuation.
abbrev then_schedule : FileIo → Semaphore Request × Option Request → FileIo
then_schedule f (s, none) = record f { aio_available = s }
then_schedule f (s, some r) = record f { aio_available = s; scheduled = f.scheduled ++ r ∷ [] }

-- `reap_io`, where io_getevents fails, or reports `events` and keeps `left`.
unfoldable pub reap_io : ℤ → List IoEvent → List Request → ℤ → FileIo → Outcome (FileIo × Bool)
unfolding throw_system_error_if
reap_io n events left errno f = do
  throw_system_error_if (is_negative n) errno
  let f' = record f { in_kernel = left; resolved = f.resolved ++ events }
  ok (then_schedule f' (release (length events) f.aio_available), ltb 0 (length events))

abbrev pub requests : List IoEvent → List Request
requests [] = []
requests (e ∷ es) = e.request ∷ requests es

-- Any history: requests come, continuations run, the kernel reports requests that it holds, at most
-- 128 at a time and in any order.
pub data Step (f f' : FileIo) : Type 0 where
  submits : (r : Request) → f' ≡ submit_io r f → Step f f'
  runs : (r : ℤ) → f' ≡ submit_io_impl r f f.scheduled → Step f f'
  reaps :
      (n : ℕ) (events : List IoEvent) (left : List Request) (errno : ℤ) (active : Bool)
      → n ≡ length events
      → Perm f.in_kernel (requests events ++ left)
      → reap_io (pos n) events left errno f ≡ ok (f', active)
      → Step f f'

pub data Reach : FileIo → Type 0 where
  here : (eventfd : ℤ) → Reach (start eventfd)
  next : {f f' : FileIo} → Reach f → Step f f' → Reach f'
