-- ===== src/Epoll.antt =====
-- How the kernel's file io wakes a CPU: the eventfd that File_io::submit_io_ names in each request
-- (lib/io/file_io.cpp), which CPU::CPU adds to the CPU's epoll (lib/cpu.cpp), and the reap_io of the
-- File_io_poller, as a source of work of Loop.
pub mod Events
mod Tests
use miniss.Base.{
  ℕ, zero, suc, ◌+◌, ◌<◌, ◌≡◌, pos, Bool, true, false, ltb, List, [], ◌∷◌, ◌++◌, length, take, drop,
  is_empty, ℤ,
}
use miniss.Exceptions.{ok}
use miniss.FileIo.{FileIo, Request, IoEvent, max_io, reap_io}

-- `completed` are the events that the kernel has and has not reported, and `count` is the count of
-- `aio_eventfd_`, which nothing reads.
pub record IoState : Type 0 where
  pub file_io : FileIo
  pub completed : List IoEvent
  pub count : ℕ

-- epoll_pwait is level-triggered for EPOLLIN: it reports the eventfd, and so does not block, while the
-- count is positive.
abbrev pub is_ready : IoState → Bool
is_ready s = ltb 0 s.count

-- `after_event` is what the completion of a request makes of the count.
module _ (after_event : ℕ → ℕ) where
  unfoldable pub complete : IoEvent → IoState → IoState
  complete e s = record s { completed = s.completed ++ e ∷ []; count = after_event s.count }

  -- The kernel completes a request, or the CPU submits requests, which changes only `file_io`.
  pub data Change (s s' : IoState) : Type 0 where
    completes : (e : IoEvent) → s' ≡ complete e s → Change s s'
    submits : (f : FileIo) → s' ≡ record s { file_io = f } → Change s s'

-- File_io_poller::poll: io_getevents reports the oldest events, at most 128. `left` are the requests that
-- the kernel keeps.
pub data Look (s s' : IoState) (found : Bool) : Type 0 where
  reaps :
      (left : List Request) (errno : ℤ) (f : FileIo)
      → reap_io
          (pos (length (take max_io s.completed)))
          (take max_io s.completed)
          left
          errno
          s.file_io
        ≡ ok (f, found)
      → s' ≡ record s { file_io = f; completed = drop max_io s.completed }
      → Look s s' found
