-- ===== src/Syscall/Tests.antt =====
-- Runs of the two threads.
use miniss.Base.{
  List, length, ◌<◌, ◌≤◌, some, get_elem?, ℕ, pos, negsuc, ◌+◌, ◌≡◌, ◌⊎◌, refl, ◌++◌, true, false,
  [], ◌∷◌, arith,
}
use miniss.Exceptions.{throws, system_error}
use miniss.Semaphore
use miniss.Semaphore.Usage.{prs}
use miniss.Spsc.{Spsc, list_spsc}
use miniss.Syscall.Runner.{
  Runner, queue_size, blocked, exited, start, submit, push_call, held, worker_step, request_stop,
  Reach, here, next, submits, pushes, works,
}
use miniss.Syscall.Runner.Invariant.{Reach-room}
use miniss.Syscall.Runner.Order.{Merge, Reach-Ordered}
use miniss.Syscall.Runner.Wakeup.{Reach-no_lost_wakeup}
use miniss.Syscall.Runner.Failure.{continuation, continuation-delays}
use miniss.Syscall.Runner.Turns.{turns, turns-completed}
use miniss.Syscall.Runner.Drain.{work, work-request_stop}

abbrev calls : Spsc ℕ queue_size
calls = list_spsc ℕ queue_size

abbrev two_submitted : Runner calls
two_submitted = submit calls 8 (submit calls 7 (start calls))

two_submitted-Reach : Reach calls two_submitted
unfolding start submit Semaphore.wait Semaphore.init
two_submitted-Reach =
    next (next here (submits 7 (start calls) refl)) (submits 8 (submit calls 7 (start calls)) refl)

abbrev one_pushed : Runner calls
one_pushed = push_call calls two_submitted

one_pushed-Reach : Reach calls one_pushed
unfolding start submit Semaphore.wait Semaphore.init
one_pushed-Reach = next two_submitted-Reach (pushes two_submitted refl)

one_pushed-scheduled : one_pushed.scheduled ≡ 8 ∷ []
unfolding push_call start submit Semaphore.wait Semaphore.init
one_pushed-scheduled = refl

Reach-Ordered_example :
    ((pushed : List ℕ) × Merge
        (one_pushed.completed ++ (one_pushed.result_queue ++ one_pushed.call_queue))
        one_pushed.lost
        pushed
      × (pushed ++ (one_pushed.scheduled ++ prs one_pushed.queue_has_room.waiting_list)
          ≡ one_pushed.submitted))
    × (one_pushed.completed ++ one_pushed.result_queue ≡ one_pushed.processed)
Reach-Ordered_example = Reach-Ordered calls one_pushed-Reach

Reach-room_example :
    let others =
      one_pushed.queue_has_room.tokens
      + (length one_pushed.scheduled + (length one_pushed.result_queue + length one_pushed.lost)) in
    (others + length one_pushed.call_queue ≡ 128)
    × ((one_pushed.call_queue ≡ []) ⊎ ((calls.push 9 one_pushed.result_queue).1 ≡ true))
    × ((held one_pushed.worker < others)
          × ((push_call calls one_pushed).lost ≡ one_pushed.lost)
          × ((push_call calls one_pushed).call_queue ≡ one_pushed.call_queue ++ 8 ∷ [])
        ⊎ (others ≤ held one_pushed.worker)
          × ((push_call calls one_pushed).lost ≡ one_pushed.lost ++ 8 ∷ [])
          × ((push_call calls one_pushed).call_queue ≡ one_pushed.call_queue))
Reach-room_example = Reach-room calls 9 8 [] one_pushed-Reach one_pushed-scheduled

-- The worker goes to sleep before the first call comes.
abbrev asleep : Runner calls
asleep = submit calls 7 (worker_step calls (start calls))

asleep-Reach : Reach calls asleep
unfolding start worker_step
asleep-Reach =
    next (next here (works (start calls))) (submits 7 (worker_step calls (start calls)) refl)

Reach-no_lost_wakeup_example : asleep.call_queue ≡ []
unfolding start worker_step submit Semaphore.wait Semaphore.init
Reach-no_lost_wakeup_example = Reach-no_lost_wakeup calls asleep-Reach refl refl refl

abbrev signalled : Runner calls
signalled = record {
  queue_has_room = record { tokens = 126; waiting_list = [] };
  scheduled = [];
  call_queue = 7 ∷ 8 ∷ [];
  result_queue = [];
  interrupter = 2;
  stop_requested = false;
  worker = blocked;
  signalling = false;
  wakeups = 0;
  submitted = 7 ∷ 8 ∷ [];
  processed = [];
  completed = [];
  lost = [];
}

work-request_stop_example : (work calls 7 (request_stop calls signalled)).worker ≡ exited
work-request_stop_example =
    work-request_stop calls (7 ∷ 8 ∷ []) signalled refl (omega arith) (omega arith) (omega arith)

-- Both continuations stand in the task queue while the worker sleeps.
abbrev both_wait : Runner calls
both_wait = submit calls 8 asleep

both_wait-Reach : Reach calls both_wait
unfolding start worker_step submit Semaphore.wait Semaphore.init
both_wait-Reach = next asleep-Reach (submits 8 asleep refl)

turns-completed_example :
    (get_elem? (turns calls 3 both_wait).completed 1 ≡ some 8)
    × ((turns calls 3 both_wait).lost ≡ [])
unfolding start worker_step submit Semaphore.wait Semaphore.init
turns-completed_example =
    turns-completed calls 2 1 8 both_wait both_wait-Reach refl refl refl refl (omega arith)
      (omega arith) refl

continuation-delays_example :
    let (d, o) = continuation calls (negsuc 0) (pos 4) both_wait in
    let e = (continuation calls (pos 8) (pos 0) d).0 in
    (o ≡ throws (system_error (pos 4)))
    × (d.call_queue ≡ 7 ∷ [])
    × (work calls 9 d ≡ d)
    × ((work calls 7 e).processed ≡ 7 ∷ (8 ∷ []))
unfolding start worker_step submit Semaphore.wait Semaphore.init
continuation-delays_example =
    continuation-delays calls 0 8 9 (pos 4) (pos 0) both_wait 7 8 [] both_wait-Reach refl refl refl
      refl refl
