-- ===== src/Syscall/Runner.antt =====
-- Syscall_runner of include/miniss/io/syscall.h and lib/io/syscall.cpp: the CPU's thread and the
-- worker thread, which share two lock-free queues and an eventfd.
-- `W` is the type of the pointers to work items. A promise of the semaphore is named by the item
-- that its continuation pushes, since `submit_` attaches one continuation to each `wait`.
pub mod Invariant
pub mod Order
pub mod Drain
pub mod Completion
pub mod Wakeup
pub mod Turns
pub mod Failure
use miniss.Base.{
  ltb, ℕ, zero, suc, ◌+◌, ◌^◌, ◌<◌, ◌≡◌, Bool, true, false, Option, none, some, List, [], ◌∷◌, ◌++◌,
  length, add_u64, ◌==◌, if◌then◌else◌,
}
use miniss.Semaphore.{Semaphore, Future, ready, pending, init, wait, release}
use miniss.Spsc.{Spsc}

abbrev pub queue_size : ℕ
queue_size = 128

-- Where the worker stands in `worker_run_`: at the head of the outer loop, in interrupter_.wait(), at the
-- call of consume_all, behind the loops, or in consume_all, with the number of items that it has handled
-- and of those left among the ones that it found when it was called.
pub data WorkerPoint : Type 0 where
  head blocked looking exited : WorkerPoint
  consuming : ℕ → ℕ → WorkerPoint

-- consume_all reads the items one after the other and frees all their slots when it returns: these are
-- the slots that it has read and not freed.
abbrev pub held : WorkerPoint → ℕ
held (consuming nr left) = nr
held _ = 0

module _ {W : Type 0} (S : Spsc W queue_size) where
  -- `scheduled` are the continuations of `submit_` that the CPU's task queue holds; `signalling` says
  -- that the CPU's thread stands between the two statements of one. `wakeups` counts the calls of
  -- maybe_wakeup. `call_queue` has the calls that consume_all has not read. The last four fields are a
  -- log of the items; `lost` are those for which the push found no room.
  pub record Runner : Type 0 where
    pub queue_has_room : Semaphore W
    pub scheduled : List W
    pub call_queue : S.Queue
    pub result_queue : S.Queue
    pub interrupter : ℕ
    pub stop_requested : Bool
    pub worker : WorkerPoint
    pub signalling : Bool
    pub wakeups : ℕ
    pub submitted : List W
    pub processed : List W
    pub completed : List W
    pub lost : List W

  unfoldable pub start : Runner
  start = record {
    queue_has_room = init queue_size;
    scheduled = [];
    call_queue = S.empty;
    result_queue = S.empty;
    interrupter = 0;
    stop_requested = false;
    worker = head;
    signalling = false;
    wakeups = 0;
    submitted = [];
    processed = [];
    completed = [];
    lost = [];
  }

  -- A future that is ready schedules its continuation at once.
  abbrev then_push : W → Runner → Semaphore W × Future W → Runner
  then_push w r (s, ready) = record r {
    queue_has_room = s;
    scheduled = r.scheduled ++ w ∷ [];
    submitted = r.submitted ++ w ∷ [];
  }
  then_push w r (s, pending _) = record r { queue_has_room = s; submitted = r.submitted ++ w ∷ [] }

  unfoldable pub submit : W → Runner → Runner
  submit w r = then_push w r (wait w 1 r.queue_has_room)

  -- The continuation of `submit_`: `call_queue_.push(work)`, whose result is dropped,
  abbrev push_front : Runner → List W → Runner
  push_front r [] = r
  push_front r (w ∷ rest) =
      if ltb (held r.worker) (S.write_available r.call_queue)
      then record r { scheduled = rest; call_queue = (S.push w r.call_queue).0; signalling = true }
      else record r { scheduled = rest; lost = r.lost ++ w ∷ []; signalling = true }

  unfoldable pub push_call : Runner → Runner
  push_call r = push_front r r.scheduled

  -- and `interrupter_.signal()`.
  unfoldable pub signal : Runner → Runner
  signal r = record r { interrupter = add_u64 r.interrupter 1; signalling = false }

  -- Setting a promise of the semaphore schedules its continuation.
  abbrev then_schedule : Runner → Semaphore W × Option W → Runner
  then_schedule r (s, none) = record r { queue_has_room = s }
  then_schedule r (s, some w) = record r { queue_has_room = s; scheduled = r.scheduled ++ w ∷ [] }

  unfoldable pub poll_results : Runner → Runner × Bool
  poll_results r =
      let (q, work) = S.pop queue_size r.result_queue in
      let nr = length work in
      let r' : Runner = record r { result_queue = q; completed = r.completed ++ work } in
      (then_schedule r' (release nr r'.queue_has_room), if nr == 0 then false else true)

  -- consume_all finds the calls that are there; with none it returns 0, and the inner loop ends.
  abbrev look : Runner → ℕ → Runner
  look r zero = record r { worker = head }
  look r (suc n) = record r { worker = consuming 0 (suc n) }

  -- It hands the oldest of them to `process` and `respond_`.
  abbrev pub consume : ℕ → ℕ → Runner → S.Queue × List W → Runner
  consume nr left r (q, []) = r
  consume nr left r (q, w ∷ _) = record r {
    call_queue = q;
    result_queue = (S.push w r.result_queue).0;
    worker = consuming (suc nr) left;
    processed = r.processed ++ w ∷ [];
  }

  abbrev wake : Runner → ℕ → Runner
  wake r zero = r
  wake r (suc n) = record r {
    interrupter = 0;
    worker = if r.stop_requested then exited else looking;
  }

  -- A step of the worker; in interrupter_.wait() it stays where it is until the count is positive.
  abbrev work_at : Runner → WorkerPoint → Runner
  work_at r head = record r { worker = if r.stop_requested then exited else blocked }
  work_at r blocked = wake r r.interrupter
  work_at r looking = look r (length (S.contents r.call_queue))
  work_at r (consuming nr (suc left)) = consume nr left r (S.pop 1 r.call_queue)
  work_at r (consuming nr zero) = record r { worker = looking; wakeups = r.wakeups + 1 }
  work_at r exited = r

  unfoldable pub worker_step : Runner → Runner
  worker_step r = work_at r r.worker

  -- The first two statements of the destructor.
  unfoldable pub request_stop : Runner → Runner
  request_stop r = record r { stop_requested = true; interrupter = add_u64 r.interrupter 1 }

  -- Every interleaving of the two threads. The statements of a continuation are not interrupted by
  -- other work of the CPU's thread. The eventfd's count stays below 2^64 as long as fewer signals are
  -- pending.
  pub data Step : Runner → Runner → Type 0 where
    submits : (w : W) (r : Runner) → r.signalling ≡ false → Step r (submit w r)
    pushes : (r : Runner) → r.signalling ≡ false → Step r (push_call r)
    signals : (r : Runner) → r.signalling ≡ true → r.interrupter + 1 < 2 ^ 64 → Step r (signal r)
    polls : (r : Runner) → r.signalling ≡ false → Step r (poll_results r).0
    stops :
        (r : Runner) → r.signalling ≡ false → r.interrupter + 1 < 2 ^ 64 → Step r (request_stop r)
    works : (r : Runner) → Step r (worker_step r)

  pub data Reach : Runner → Type 0 where
    here : Reach start
    next : {r r' : Runner} → Reach r → Step r r' → Reach r'
