-- ===== src/Os/Tests.antt =====
-- Two CPUs.
use miniss.CrossCpu.{CrossCpuQueue}
use miniss.Base.{take, ◌*◌, ◌++◌, arith, [], ◌∷◌, ℕ, ◌≡◌, refl, some, Bool}
use miniss.Spsc.{Spsc, list_spsc}
use miniss.Exceptions.{ok}
use miniss.Unbounded
use miniss.Unbounded.{capacity, batch}
use miniss.Unbounded.Fifo.{items}
use miniss.CrossCpu
use miniss.Os.{requested, submit_to, put, Queues, init_queues, poll_queues}
use miniss.Os.Assertions.{Reach, here, next, submits, Reach-no_assertion_fails}
use miniss.Os.Delivery.{turns, turns-deliver}
use miniss.Os.Polling.{WellFormed, round, poll_queues-round}

abbrev requests : Spsc ℕ capacity
requests = list_spsc ℕ capacity

init_queues-WellFormed : WellFormed requests (init_queues requests)
unfolding init_queues CrossCpu.init
init_queues-WellFormed i j = (refl, refl)

poll_queues-round_example :
    (s : Queues requests × Bool) × (poll_queues requests 2 0 (init_queues requests) ≡ some s)
    × ((a b : ℕ) → s.0 a b ≡ round requests 2 0 (init_queues requests) a b)
poll_queues-round_example =
    poll_queues-round requests 2 0 (init_queues requests) init_queues-WellFormed

abbrev one_sent : Queues requests
one_sent =
    put requests 0 1
      (record (init_queues requests 0 1) {
        tx = record { queue_buffer = 7 ∷ []; queue = [] };
        submitted = 7 ∷ [];
      })
      (init_queues requests)

one_sent-Reach : Reach requests ℕ 2 one_sent
unfolding submit_to init_queues CrossCpu.init CrossCpu.submit Unbounded.init Unbounded.push
one_sent-Reach = next here (submits 0 1 7 (ok 3) refl)

Reach-no_assertion_fails_example :
    ((s : Queues requests × Bool) × (poll_queues requests 2 1 one_sent ≡ some s))
    × ((c : CrossCpuQueue requests) × (submit_to requests {A = ℕ} 2 1 0 8 (ok 3) one_sent
          ≡ requested (some (put requests 1 0 c one_sent))))
    × ((c : CrossCpuQueue requests) × (CrossCpu.respond requests 1 9 [] (one_sent 0 1) ≡ some c))
Reach-no_assertion_fails_example =
    Reach-no_assertion_fails requests ℕ 2 1 0 8 9 [] (ok 3) one_sent-Reach
      (λ e. absurd (omega arith)) (omega arith)

one_sent-WellFormed : WellFormed requests one_sent
unfolding init_queues CrossCpu.init
one_sent-WellFormed i j = ground arith

turns-deliver_example :
    (qs : Queues requests) × (turns requests 2 0 1 3 one_sent ≡ some qs)
    × ((qs 0 1).started
        ≡ (one_sent 0 1).started ++ take (batch * 3) (items requests (one_sent 0 1).tx))
    × ((qs 1 0).completed
        ≡ (one_sent 1 0).completed ++ take (batch * 3) (items requests (one_sent 1 0).rx))
turns-deliver_example =
    turns-deliver requests 2 0 1 (λ e. absurd (omega arith)) (omega arith) (omega arith) 3 one_sent
      one_sent-WellFormed
