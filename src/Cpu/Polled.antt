-- ===== src/Cpu/Polled.antt =====
-- That CPU::run starves no task that a poll schedules (lib/cpu.cpp).
use miniss.Base.{
  append_assoc, append-nil, ℕ, suc, ◌+◌, ◌*◌, ◌<◌, ◌≡◌, refl, Bool, some, List, [], ◌∷◌, ◌++◌,
  length, arith, get_elem?, Option-cases, inl, inr,
}
use miniss.Cpu.{schedule_all, Cpu, Poller, Func, batch_size, poll_all, run_batch, iterate, run}
use miniss.Cpu.Fifo.{InOrder, poll_all-grows, iterate_cases, run_batch-runs}
use miniss.Cpu.Fairness.{Progress, Progress-serves, run-Progress, run_batch-Extends}

module _ {T W : Type 0} where
  -- A round of polls appends to the queue.
  pub poll_all-appends :
      (ps : List (Poller T W)) (c p : Cpu T W) (active : Bool)
      → poll_all ps c ≡ some (p, active)
      → (more : List T) × (p.task_queue ≡ c.task_queue ++ more)
  unfolding poll_all schedule_all
  poll_all-appends [] c p active e = ([], ground (arith, append-nil c.task_queue))
  poll_all-appends (q ∷ ps) c p active e = elim (Option-cases (q c.world)) [
    | inl f ↦ ground arith
    | inr ((w, ts, r), f) ↦
        let polled = schedule_all ts (record c { world = w }) in
        elim (Option-cases (poll_all ps polled)) [
          | inl g ↦ ground arith
          | inr ((d, b), g) ↦
              let (more, k) = poll_all-appends ps polled d b g in
              (ts ++ more, ground (arith, k, append_assoc c.task_queue ts more))
        ]
  ]

module _ {T W : Type 0} (func : Func T W) (idle : W → W) (pollers : List (Poller T W)) where
  -- The batch of the first round and the rounds behind it.
  polled-Progress :
      (n : ℕ) (p d c' : Cpu T W)
      → InOrder p
      → run_batch func batch_size p ≡ some d
      → run func idle pollers n d ≡ some c'
      → Progress (suc n) p c'
  polled-Progress n p d c' h e r =
      let ran = run_batch-runs func batch_size p d p.task_queue refl h e in
      let more = run-Progress func idle pollers n d c' ran.0 r in
      record {
        in_order = more.in_order;
        extends = λ i t k.
            more.extends i t (run_batch-Extends func batch_size p d p.task_queue refl e i t k);
        count = omega (arith, ran.1, ran.2, more.count);
      }

  -- A task that stands in the queue at a position below 8 * n behind the polls of the first of `n`
  -- rounds has been run behind the last of them, in its turn.
  pub run-serves_polled :
      (n j : ℕ) (t : T) (c p c' : Cpu T W) (active : Bool)
      → InOrder c
      → poll_all pollers c ≡ some (p, active)
      → run func idle pollers (suc n) c ≡ some c'
      → j < batch_size * suc n
      → get_elem? p.task_queue j ≡ some t
      → get_elem? c'.executed (length c.executed + j) ≡ some t
  unfolding run
  run-serves_polled n j t c p c' active h e r b k =
      elim (Option-cases (iterate func idle pollers c)) [
        | inl f ↦ ground arith
        | inr ((d, idled), f) ↦
            let rest : run func idle pollers n d ≡ some c' = ground arith in
            let grown = poll_all-grows pollers c p active h e in
            let (p', active', e', which) = iterate_cases func idle pollers c d idled f in
            let same : p' ≡ p = ground arith in
            elim which [
              | inl (q, a, u, s) ↦ ground arith
              | inr (f', u) ↦
                  let batch : run_batch func batch_size p ≡ some d = rw (← same) f' in
                  rw (← grown.1) (
                    Progress-serves (suc n) j t p c' grown.0
                      (polled-Progress n p d c' grown.0 batch rest) b k)
            ]
      ]
