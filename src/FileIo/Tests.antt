-- ===== src/FileIo/Tests.antt =====
-- Two writes, of which one is in the kernel and one fails or is resolved, and a read behind them.
use miniss.Base.{
  ℕ, some, get_elem?, List, inl, inr, arith, false, pos, negsuc, ◌+◌, ◌≤◌, ◌≡◌, refl, Bool, true,
  [], ◌∷◌, length,
}
use miniss.Semaphore
use miniss.Semaphore.Usage.{prs}
use miniss.Base.{count}
use miniss.FileIo.{
  pread, with_eventfd, submit, IoEvent, reap_io, FileIo, Request, requests, pwrite, start, prepare,
  submit_io, submit_io_impl, max_io, Reach, here, next, submits, runs,
}
use miniss.FileIo.Tokens.{Reach-exhausted}
use mathlib.Core.List.{Permᴰ}
use miniss.FileIo.Transfer.{Wanted, Answered, submit-Answered}
use miniss.FileIo.Turns.{Turn, Turns, turn, done, and, turns-resolved}
use miniss.FileIo.Requests.{Reach-Accounted}

abbrev first : Request
first = (1, prepare pwrite (pos 5) 0 4096 512)

abbrev second : Request
second = (2, prepare pwrite (pos 5) 512 4096 512)

abbrev two_submitted : FileIo
two_submitted = submit_io second (submit_io first (start (pos 3)))

abbrev one_written : FileIo
one_written = submit_io_impl (pos 1) two_submitted two_submitted.scheduled

abbrev one_failed : FileIo
one_failed = submit_io_impl (negsuc 10) one_written one_written.scheduled

one_written-Reach : Reach one_written
one_written-Reach =
    next (next (next (here (pos 3)) (submits first refl)) (submits second refl)) (runs (pos 1) refl)

one_failed-Reach : Reach one_failed
one_failed-Reach = next one_written-Reach (runs (negsuc 10) refl)

one_failed-failed : one_failed.failed ≡ second ∷ []
unfolding submit_io_impl submit_io start Semaphore.init Semaphore.wait
one_failed-failed = refl

Reach-exhausted_example :
    length one_failed.scheduled + (length one_failed.in_kernel + length one_written.failed) ≤ max_io
Reach-exhausted_example = Reach-exhausted one_written-Reach (runs (negsuc 10) refl)

abbrev any : Request → Bool
any r = true

Reach-Accounted_example :
    count any one_failed.submitted
    ≡ count any (prs one_failed.aio_available.waiting_list)
      + (count any one_failed.scheduled
          + (count any one_failed.in_kernel
              + (count any one_failed.failed + count any (requests one_failed.resolved))))
Reach-Accounted_example = Reach-Accounted any one_failed-Reach

-- Both writes are resolved, the second one first.
abbrev two_written : FileIo
two_written = submit_io_impl (pos 1) one_written one_written.scheduled

abbrev two_events : List IoEvent
two_events =
    record { request = second; res = pos 512 } ∷ record { request = first; res = pos 512 } ∷ []

abbrev all_resolved : FileIo
all_resolved = record {
  aio_available = record { tokens = 128; waiting_list = [] };
  aio_eventfd = pos 3;
  scheduled = [];
  in_kernel = [];
  submitted = first ∷ second ∷ [];
  failed = [];
  resolved = two_events;
}

one_written-Turns : Turns 3 one_written all_resolved
unfolding submit_io_impl submit_io start Semaphore.init Semaphore.wait Semaphore.release
    Semaphore.wake_front reap_io
one_written-Turns =
    and
      (turn 1 two_written two_events [] (pos 0) true refl (inl (omega arith))
        ∣ Permᴰ.swap refl refl ∣₁ refl)
      (and idle (and idle (done all_resolved)))
  where
    idle : Turn all_resolved all_resolved
    idle = turn 1 all_resolved [] [] (pos 0) false refl (inr refl) ∣ Permᴰ.nil ∣₁ refl

turns-resolved_example :
    count any (requests all_resolved.resolved) ≡ count any one_written.submitted
unfolding submit_io_impl submit_io start Semaphore.init Semaphore.wait
turns-resolved_example = turns-resolved any 2 one_written-Reach refl (omega arith) one_written-Turns

-- A read is submitted behind them.
abbrev third : Request
third = (3, with_eventfd (pos 3) (prepare pread (pos 5) 0 8192 512))

abbrev read_submitted : FileIo
read_submitted = submit pread (pos 5) 0 8192 512 3 one_written

abbrev first_event : IoEvent
first_event = record { request = first; res = pos 512 }

abbrev last_events : List IoEvent
last_events =
    record { request = third; res = negsuc 4 } ∷ record { request = second; res = pos 512 } ∷ []

abbrev one_resolved : FileIo
one_resolved = record {
  aio_available = record { tokens = 126; waiting_list = [] };
  aio_eventfd = pos 3;
  scheduled = third ∷ [];
  in_kernel = second ∷ [];
  submitted = first ∷ second ∷ third ∷ [];
  failed = [];
  resolved = first_event ∷ [];
}

abbrev three_resolved : FileIo
three_resolved = record one_resolved {
  aio_available = record { tokens = 128; waiting_list = [] };
  scheduled = [];
  in_kernel = [];
  resolved = first_event ∷ last_events;
}

read_submitted-Turns : Turns 4 read_submitted three_resolved
unfolding submit with_eventfd prepare submit_io_impl submit_io start Semaphore.init Semaphore.wait
    Semaphore.release Semaphore.wake_front reap_io
read_submitted-Turns =
    and
      (turn 1 (submit_io_impl (pos 1) read_submitted read_submitted.scheduled) (first_event ∷ [])
        (second ∷ []) (pos 0) true refl (inl (omega arith))
        ∣ Permᴰ.cons refl (Permᴰ.cons refl Permᴰ.nil) ∣₁ refl)
      (and
        (turn 1 (submit_io_impl (pos 1) one_resolved one_resolved.scheduled) last_events [] (pos 0)
          true refl (inl (omega arith)) ∣ Permᴰ.swap refl refl ∣₁ refl)
        (and idle (and idle (done three_resolved))))
  where
    idle : Turn three_resolved three_resolved
    idle = turn 1 three_resolved [] [] (pos 0) false refl (inr refl) ∣ Permᴰ.nil ∣₁ refl

submit-Answered_example :
    (i : ℕ) × (e : IoEvent) × (get_elem? three_resolved.resolved i ≡ some e)
    × (e.request.0 ≡ 3)
    × Wanted pread (pos 5) 0 8192 512 (pos 3) e.request.1
    × Answered e e.res
unfolding submit_io_impl submit_io start Semaphore.init Semaphore.wait
submit-Answered_example =
    submit-Answered pread (pos 5) 0 8192 512 3 2 one_written-Reach refl (omega arith)
      read_submitted-Turns
