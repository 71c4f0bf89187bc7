-- ===== src/Remote/Tests.antt =====
-- Calls from CPU 0 to CPU 1, one of which throws.
use miniss.Base.{ℕ, zero, ◌+◌, ◌≡◌, refl, some, [], ◌∷◌, ◌++◌, arith}
use mathlib.Core.List.{Perm}
use miniss.Exceptions.{Outcome, ok, throws, other_exception}
use miniss.Syscall.{Completion}
use miniss.Spsc.{Spsc, list_spsc}
use miniss.Unbounded
use miniss.Unbounded.{capacity, batch}
use miniss.Unbounded.Fifo.{items}
use miniss.CrossCpu
use miniss.Os.{init_queues, submit_to}
use miniss.Remote.{Remote, construct, submit, Reach, here, next, submits}
use miniss.Remote.Outcomes.{outcomes, Reach-settles_outcomes}
use miniss.Remote.Trip.{Sent, Returned, settled_at_once, round_trip}

abbrev slots : Spsc ℕ capacity
slots = list_spsc ℕ capacity

abbrev double : ℕ → Outcome ℕ
double zero = throws (other_exception 1)
double n = ok (n + n)

-- Request 0 has been submitted.
abbrev one_sent : Remote ℕ slots
one_sent = record (construct ℕ slots 0 1) {
  queue = record (CrossCpu.init slots 0 1) {
    tx = record { queue_buffer = 0 ∷ []; queue = [] };
    submitted = 0 ∷ [];
  };
}

one_sent-Reach : Reach ℕ slots double one_sent
unfolding construct submit CrossCpu.init CrossCpu.submit Unbounded.push Unbounded.init
one_sent-Reach = next (here 0 1) (submits 0 refl)

Reach-settles_outcomes_example :
    (one_sent.settled ≡ outcomes slots double one_sent.queue.completed)
    × Perm one_sent.queue.submitted (
        (one_sent.queue.completed ++ items slots one_sent.queue.rx)
        ++ (one_sent.queue.running ++ items slots one_sent.queue.tx))
Reach-settles_outcomes_example = Reach-settles_outcomes slots double one_sent-Reach

round_trip_example :
    (c : Remote ℕ slots) × (f : Remote ℕ slots) × (k : Completion ℕ) × Sent slots double 21 one_sent
      c
    × Returned slots double 21 (one_sent.queue.running ++ items slots one_sent.queue.tx) c f
    × (f.settled
        ≡ one_sent.settled
          ++ (outcomes slots double (items slots one_sent.queue.rx) ++ (21, k) ∷ []))
    × (settled_at_once slots (submit_to slots 4 3 3 21 (double 21) (init_queues slots)) ≡ some k)
unfolding CrossCpu.init Unbounded.init
round_trip_example =
    round_trip slots double 21 4 3 (init_queues slots) one_sent one_sent-Reach (omega arith)
      (omega arith)
