-- ===== src/Cpu/Fairness.antt =====
-- That CPU::run starves no task and idles only without work (lib/cpu.cpp).
use miniss.Base.{
  get_elem?-append, get_elem?-skip, get_elem?-front, get_elem?-lt, length-append, ap, append-nil,
  inr, inl, ℕ, zero, suc, ◌+◌, ◌*◌, ◌≤◌, ◌<◌, ◌≡◌, refl, sym, ◌∙◌, Bool, true, false, none, some,
  List, [], ◌∷◌, ◌++◌, length, min, arith, get_elem?, Option-cases,
}
use miniss.Exceptions.{Exception, Outcome, ok, throws}
use miniss.Cpu.{
  Cpu, Poller, Func, batch_size, schedule_all, poll_all, run_task, run_batch, iterate, run,
}
use miniss.Cpu.Fifo.{iterate_cases, InOrder, poll_all-grows, iterate-runs}

module _ {T : Type 0} where
  -- What `a` has at a position, `b` has there.
  abbrev pub Extends : List T → List T → Type 0
  Extends a b = (i : ℕ) (t : T) → get_elem? a i ≡ some t → get_elem? b i ≡ some t

module _ {T W : Type 0} where
  -- What `n` batches from `c` on lead to.
  pub record Progress (n : ℕ) (c c' : Cpu T W) : Type 0 where
    pub in_order : InOrder c'
    pub extends : Extends c.scheduled c'.scheduled
    pub count : length c.executed + min (batch_size * n) (length c.task_queue) ≤ length c'.executed

  -- A task near enough to the front has been run in its turn.
  -- What was scheduled has been run once all tasks of the queue had their turn.
  pub Progress-executed :
      (n i : ℕ) (t : T) (c c' : Cpu T W)
      → InOrder c
      → Progress n c c'
      → length c.task_queue ≤ batch_size * n
      → get_elem? c.scheduled i ≡ some t
      → get_elem? c'.executed i ≡ some t
  Progress-executed n i t c c' o p le at =
      let bound = get_elem?-lt c.scheduled i t at in
      let split = ap length o in
      let run_on : i < length c'.executed =
        omega (arith, length-append c.executed c.task_queue, p.count) in
      sym (get_elem?-front c'.executed c'.task_queue i run_on)
      ∙ (ap (λ z. get_elem? z i) p.in_order ∙ p.extends i t at)

  pub Progress-serves :
      (n j : ℕ) (t : T) (c c' : Cpu T W)
      → InOrder c
      → Progress n c c'
      → j < batch_size * n
      → get_elem? c.task_queue j ≡ some t
      → get_elem? c'.executed (length c.executed + j) ≡ some t
  Progress-serves n j t c c' h p b k =
      let at = length c.executed + j in
      let before : get_elem? c.scheduled at ≡ some t =
        rw (← h, get_elem?-skip c.executed c.task_queue j) k in
      let after : get_elem? (c'.executed ++ c'.task_queue) at ≡ some t =
        rw p.in_order (p.extends at t before) in
      sym (
        get_elem?-front c'.executed c'.task_queue at
          (omega (arith, p.count, get_elem?-lt c.task_queue j t k)))
      ∙ after

module _ {T W : Type 0} where
  poll_all-Extends :
      (ps : List (Poller T W)) (c c' : Cpu T W) (active : Bool)
      → poll_all ps c ≡ some (c', active)
      → Extends c.scheduled c'.scheduled
  unfolding poll_all schedule_all
  poll_all-Extends [] c c' active e i t h = ground arith
  poll_all-Extends (p ∷ ps) c c' active e i t h = elim (Option-cases (p c.world)) [
    | inl f ↦ ground arith
    | inr ((w, ts, r), f) ↦
        let polled = schedule_all ts (record c { world = w }) in
        elim (Option-cases (poll_all ps polled)) [
          | inl g ↦ ground arith
          | inr ((d, b), g) ↦
              let same : d.scheduled ≡ c'.scheduled = ground arith in
              rw (← same)
                (poll_all-Extends ps polled d b g i t (get_elem?-append c.scheduled ts i t h))
        ]
  ]

  module _ (func : Func T W) where
    run_task-Extends :
        (t : T) (c d : Cpu T W) (o : Outcome (W × List T))
        → o ≡ func t c.world
        → run_task func t c ≡ some d
        → Extends c.scheduled d.scheduled
    unfolding run_task schedule_all
    run_task-Extends t c d (ok (w, ts)) e r i u h =
        ground (arith, get_elem?-append c.scheduled ts i u)
    run_task-Extends t c d (throws x) e r i u h = ground arith

    pub run_batch-Extends :
        (n : ℕ) (c c' : Cpu T W) (q : List T)
        → q ≡ c.task_queue
        → run_batch func n c ≡ some c'
        → Extends c.scheduled c'.scheduled
    unfolding run_batch
    run_batch-Extends zero c c' q e r i u h = ground arith
    run_batch-Extends (suc n) c c' [] e r i u h = ground arith
    run_batch-Extends (suc n) c c' (t ∷ q) e r i u h =
        elim (Option-cases (run_task func t (record c { task_queue = q }))) [
          | inl f ↦ ground arith
          | inr (d, f) ↦
              let rest : run_batch func n d ≡ some c' = ground arith in
              run_batch-Extends n d c' d.task_queue refl rest i u
                (run_task-Extends t (record c { task_queue = q }) d (func t c.world) refl f i u h)
        ]

    module _ (idle : W → W) (pollers : List (Poller T W)) where
      iterate-Extends :
          (c c' : Cpu T W) (b : Bool)
          → iterate func idle pollers c ≡ some (c', b)
          → Extends c.scheduled c'.scheduled
      iterate-Extends c c' b r i u h =
          let (p, active, e, rest) = iterate_cases func idle pollers c c' b r in
          let polled = poll_all-Extends pollers c p active e i u h in
          elim rest [
            | inl (q, a, t, k) ↦ ground arith
            | inr (f, t) ↦ run_batch-Extends batch_size p c' p.task_queue refl f i u polled
          ]

      pub run-Progress :
          (n : ℕ) (c c' : Cpu T W)
          → InOrder c
          → run func idle pollers n c ≡ some c'
          → Progress n c c'
      unfolding run
      run-Progress zero c c' h r =
          let e : c ≡ c' = cc in
          rw (← e) (record { in_order = h; extends = λ i t k. k; count = omega arith })
      run-Progress (suc n) c c' h r = elim (Option-cases (iterate func idle pollers c)) [
        | inl f ↦ ground arith
        | inr ((d, b), f) ↦
            let rest : run func idle pollers n d ≡ some c' = ground arith in
            let ran = iterate-runs func idle pollers c d b h f in
            let more = run-Progress n d c' ran.0 rest in
            record {
              in_order = more.in_order;
              extends = λ i t k. more.extends i t (iterate-Extends c d b f i t k);
              count = omega (arith, ran.1, ran.2, more.count);
            }
      ]

      -- No task starves. From a state where the tasks that were scheduled are those that were run and
      -- those in the queue, in this order, and where the program does not end within `n` rounds of
      -- the loop, every task that stands in the queue before them at a position below 8 * n has been
      -- run after them, in its turn: behind what was run before and the tasks in front of it.
      pub run-serves :
          (n j : ℕ) (t : T) (c c' : Cpu T W)
          → InOrder c
          → run func idle pollers n c ≡ some c'
          → j < batch_size * n
          → get_elem? c.task_queue j ≡ some t
          → get_elem? c'.executed (length c.executed + j) ≡ some t
      run-serves n j t c c' h r b k = Progress-serves n j t c c' h (run-Progress n c c' h r) b k

      -- When the CPU goes idle in a round that begins in such a state (the tasks that were scheduled
      -- are those that were run and those in the queue, in this order), no poller of that round was
      -- active, and every task that was ever scheduled has been run.
      pub iterate-idle :
          (c c' : Cpu T W)
          → InOrder c
          → iterate func idle pollers c ≡ some (c', true)
          → ((p : Cpu T W) × (poll_all pollers c ≡ some (p, false)))
            × (c'.executed ≡ c'.scheduled)
            × (c'.task_queue ≡ [])
      iterate-idle c c' h r =
          let (p, active, e, rest) = iterate_cases func idle pollers c c' true r in
          let grown = poll_all-grows pollers c p active h e in
          elim rest [
            | inl (q, a, t, k) ↦
                ((p, rw (← a) e), ground (arith, grown, append-nil p.executed), ground arith)
            | inr (f, t) ↦ cc
          ]

      -- A task that throws ends the program if its turn comes in the batch: the handler in CPU::run
      -- that logs the exception is never reached, since `task::run` is noexcept.
      pub iterate-throws :
          (c p : Cpu T W) (t : T) (q : List T) (e : Exception) (active : Bool)
          → poll_all pollers c ≡ some (p, active)
          → p.task_queue ≡ t ∷ q
          → func t p.world ≡ throws e
          → iterate func idle pollers c ≡ none
      unfolding iterate run_batch run_task
      iterate-throws c p t q e active polled h k = ground arith
