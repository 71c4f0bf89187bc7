-- ===== src/Loop/Wakeups.antt =====
-- That a CPU sleeps over no message of another thread (lib/cpu.cpp, lib/cross_cpu_queue.cpp,
-- lib/io/syscall.cpp).
use miniss.Base.{true, ◌≡◌, refl, false, List, [], ◌∷◌, is_empty}
use miniss.Spsc.{Spsc}
use miniss.Unbounded.{capacity}
use miniss.Syscall.Runner.{queue_size}
use miniss.Idle.{waiting}
use miniss.Loop.{LoopState, Reach}
use miniss.Loop.Sources.{requests, answers, results, owes_wakeup}
use miniss.Loop.Sleep.{Reach-sleeps_idle_source}

pub nil_of_is_empty : {A : Type 0} (xs : List A) → is_empty xs ≡ true → xs ≡ []
nil_of_is_empty [] h = refl
nil_of_is_empty (x ∷ xs) h = cc

module _ {I : Type 0} (S : Spsc I capacity) where
  -- However the calls of the two CPUs of a Cross_cpu_queue, the signals and the statements of the
  -- receiver's loop interleave: while the receiver waits in epoll_pwait and every wakeup has arrived, no
  -- request is visible to it. So a request that becomes visible is not slept over.
  pub Reach-no_request_slept_over :
      {s : LoopState (requests S)}
      → Reach (requests S) s
      → s.thread.at ≡ waiting
      → s.woken ≡ s.source.to_wakeups
      → S.contents s.source.tx.queue ≡ []
  Reach-no_request_slept_over {s} h a k =
      nil_of_is_empty (S.contents s.source.tx.queue)
        (Reach-sleeps_idle_source (requests S) h a k refl)

  -- The same for the answers, and the sender of the requests.
  pub Reach-no_answer_slept_over :
      {s : LoopState (answers S)}
      → Reach (answers S) s
      → s.thread.at ≡ waiting
      → s.woken ≡ s.source.from_wakeups
      → S.contents s.source.rx.queue ≡ []
  Reach-no_answer_slept_over {s} h a k =
      nil_of_is_empty (S.contents s.source.rx.queue)
        (Reach-sleeps_idle_source (answers S) h a k refl)

module _ {W : Type 0} (S : Spsc W queue_size) where
  -- However the worker of a Syscall_runner, the signals and the statements of its CPU's loop interleave:
  -- while the CPU waits in epoll_pwait, every wakeup has arrived and the worker is not between the push
  -- of a result and its call of maybe_wakeup, no result is waiting for the CPU.
  pub Reach-no_result_slept_over :
      {s : LoopState (results S)}
      → Reach (results S) s
      → s.thread.at ≡ waiting
      → s.woken ≡ s.source.wakeups
      → owes_wakeup s.source.worker ≡ false
      → S.contents s.source.result_queue ≡ []
  Reach-no_result_slept_over {s} h a k o =
      nil_of_is_empty (S.contents s.source.result_queue)
        (Reach-sleeps_idle_source (results S) h a k o)
