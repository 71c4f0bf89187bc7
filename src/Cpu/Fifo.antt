-- ===== src/Cpu/Fifo.antt =====
-- The task queue of a CPU is a queue (lib/cpu.cpp, CPU::run).
use miniss.Base.{
  ◌⊎◌, true, false, inr, inl, Option-cases, ℕ, zero, suc, ◌+◌, ◌≤◌, ◌≡◌, refl, sym, Bool, some,
  List, [], ◌∷◌, ◌++◌, append_assoc, length, length-append, min, arith,
}
use miniss.Exceptions.{Outcome, ok, throws}
use miniss.Cpu.{Cpu, Poller, Func, batch_size, schedule_all, poll_all, run_task, run_batch, iterate}

module _ {T W : Type 0} where
  -- What was scheduled has been run or is queued, in the order of scheduling.
  abbrev pub InOrder : Cpu T W → Type 0
  InOrder c = c.executed ++ c.task_queue ≡ c.scheduled

  schedule_all-InOrder : (ts : List T) (c : Cpu T W) → InOrder c → InOrder (schedule_all ts c)
  unfolding schedule_all
  schedule_all-InOrder ts c h = ground (arith, append_assoc c.executed c.task_queue ts)

  -- The polls of a round append to the queue and run nothing.
  pub poll_all-grows :
      (ps : List (Poller T W)) (c c' : Cpu T W) (active : Bool)
      → InOrder c
      → poll_all ps c ≡ some (c', active)
      → InOrder c' × (c'.executed ≡ c.executed) × (length c.task_queue ≤ length c'.task_queue)
  unfolding poll_all schedule_all
  poll_all-grows [] c c' active h e = ground arith
  poll_all-grows (p ∷ ps) c c' active h e = elim (Option-cases (p c.world)) [
    | inl f ↦ ground arith
    | inr ((w, ts, r), f) ↦
        let polled = schedule_all ts (record c { world = w }) in
        elim (Option-cases (poll_all ps polled)) [
          | inl g ↦ ground arith
          | inr ((d, b), g) ↦ ground (
            arith,
            append_assoc c.executed c.task_queue ts,
            length-append c.task_queue ts,
            poll_all-grows ps polled d b,
          )
        ]
  ]

  module _ (func : Func T W) where
    record Ran (c d : Cpu T W) : Type 0 where
      in_order : InOrder d
      count : length d.executed ≡ length c.executed + 1
      left : length c.task_queue ≤ length d.task_queue + 1

    run_task-Ran :
        (t : T) (q : List T) (c d : Cpu T W) (o : Outcome (W × List T))
        → o ≡ func t c.world
        → c.task_queue ≡ t ∷ q
        → InOrder c
        → run_task func t (record c { task_queue = q }) ≡ some d
        → Ran c d
    unfolding run_task schedule_all
    run_task-Ran t q c d (ok (w, ts)) e k h r = ground (
      arith,
      append_assoc c.executed (t ∷ q) ts,
      append_assoc c.executed (t ∷ []) (q ++ ts),
      length-append c.executed (t ∷ []),
      length-append q ts,
    )
    run_task-Ran t q c d (throws x) e k h r = ground arith

    -- A batch of `n` that ends normally runs `n` tasks at least, or all.
    pub run_batch-runs :
        (n : ℕ) (c c' : Cpu T W) (q : List T)
        → q ≡ c.task_queue
        → InOrder c
        → run_batch func n c ≡ some c'
        → InOrder c'
          × (length c.executed + min n (length c.task_queue) ≤ length c'.executed)
          × (length c.executed + length c.task_queue ≤ length c'.executed + length c'.task_queue)
    unfolding run_batch
    run_batch-runs zero c c' q e h r = ground arith
    run_batch-runs (suc n) c c' [] e h r = ground arith
    run_batch-runs (suc n) c c' (t ∷ q) e h r =
        elim (Option-cases (run_task func t (record c { task_queue = q }))) [
          | inl f ↦ ground arith
          | inr (d, f) ↦
              let ran = run_task-Ran t q c d (func t c.world) refl (sym e) h f in
              ground (arith, ran, run_batch-runs n d c' d.task_queue)
        ]

    module _ (idle : W → W) (pollers : List (Poller T W)) where
      -- A round that does not end the program: it polls, and goes idle or runs a batch.
      pub iterate_cases :
          (c c' : Cpu T W) (b : Bool)
          → iterate func idle pollers c ≡ some (c', b)
          → (p : Cpu T W) × (active : Bool) × (poll_all pollers c ≡ some (p, active))
            × (((p.task_queue ≡ [])
                  × (active ≡ false)
                  × (b ≡ true)
                  × (c' ≡ record p { world = idle p.world }))
                ⊎ ((run_batch func batch_size p ≡ some c') × (b ≡ false)))
      unfolding iterate
      iterate_cases c c' b r = elim (Option-cases (poll_all pollers c)) [
        | inl e ↦ ground arith
        | inr ((p, active), e) ↦ elim (Option-cases (run_batch func batch_size p)) [
          | inl f ↦ (p, active, e, ground arith)
          | inr (d, f) ↦ (p, active, e, ground arith)
        ]
      ]

      pub iterate-runs :
          (c c' : Cpu T W) (b : Bool)
          → InOrder c
          → iterate func idle pollers c ≡ some (c', b)
          → InOrder c'
            × (length c.executed + min batch_size (length c.task_queue) ≤ length c'.executed)
            × (length c.executed + length c.task_queue ≤ length c'.executed + length c'.task_queue)
      iterate-runs c c' b h r =
          let (p, active, e, rest) = iterate_cases c c' b r in
          let grown = poll_all-grows pollers c p active h e in
          elim rest [
            | inl (q, a, t, k) ↦ ground (arith, grown)
            | inr (f, t) ↦ ground (arith, grown, run_batch-runs batch_size p c' p.task_queue refl)
          ]
