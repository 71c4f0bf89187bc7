-- ===== src/Pollers/Results.antt =====
-- That the continuation of a system call's future is run (lib/cpu.cpp, lib/io/syscall.cpp).
use miniss.Base.{
  get_elem?-skip, get_elem?-front, get_elem?-lt, take, ◌<◌, subst, ℕ, zero, suc, ◌+◌, ◌*◌, ◌≤◌, ◌≡◌,
  refl, sym, ap, ◌∙◌, Bool, Option, none, some, List, [], ◌∷◌, ◌++◌, length, arith, get_elem?,
  Option-cases, inl, inr,
}
use miniss.Spsc.{Spsc}
use miniss.Unbounded
use miniss.Syscall.Runner.{queue_size}
use miniss.Cpu.{Cpu, Poller, Func, batch_size, schedule_all, poll_all, run}
use miniss.Cpu.Fifo.{InOrder}
use miniss.Cpu.Polled.{poll_all-appends, run-serves_polled}
use miniss.Signal.{poll}
use miniss.Alarm.{completed, Handler, on_alarm, World, signal_poller, call_handlers}
use miniss.Timer.{TimerService, complete_timers}
use miniss.Pollers.{
  release, poll_queues, Devices, Scheduled, CpuWorld, taken, by_results, by_waiter, ipc_poller,
  syscall_poller, file_io_poller, pollers,
}

module _ {T : Type 0} where
  -- The task stands in the list.
  abbrev pub Stands : T → List T → Type 0
  Stands t ts = (k : ℕ) × (get_elem? ts k ≡ some t)

  Stands-right : (t : T) (a b : List T) → Stands t b → Stands t (a ++ b)
  Stands-right t a b (k, e) = (length a + k, get_elem?-skip a b k ∙ e)

  Stands-left : (t : T) (a b : List T) → Stands t a → Stands t (a ++ b)
  Stands-left t a b (k, e) = (k, get_elem?-front a b k (get_elem?-lt a k t e) ∙ e)

get_elem?-take :
    {A : Type 0} (n i : ℕ) (xs : List A) → i < n → get_elem? (take n xs) i ≡ get_elem? xs i
get_elem?-take zero i xs h = absurd (omega arith)
get_elem?-take (suc n) i [] h = refl
get_elem?-take (suc n) zero (x ∷ xs) h = refl
get_elem?-take (suc n) (suc i) (x ∷ xs) h = get_elem?-take n i xs (omega arith)

module _ {T V : Type 0} where
  completed-rest :
      (w w' : World T V) (r : Option (TimerService T) × List T) (ts : List T)
      → completed w r ≡ some (w', ts)
      → w'.rest ≡ w.rest
  completed-rest w w' (none, us) ts e = cc
  completed-rest w w' (some timers', us) ts e = ground arith

  call_handlers-rest :
      (calls : List (ℕ × Handler)) (w w' : World T V) (ts : List T)
      → call_handlers calls w ≡ some (w', ts)
      → w'.rest ≡ w.rest
  unfolding call_handlers
  call_handlers-rest [] w w' ts e = ground arith
  call_handlers-rest ((signo, on_alarm) ∷ calls) w w' ts e =
      let r = complete_timers w.clock.now w.clock.settime w.timers in
      elim (Option-cases (completed w r)) [
        | inl f ↦ ground arith
        | inr ((d, us), f) ↦ elim (Option-cases (call_handlers calls d)) [
          | inl g ↦ ground arith
          | inr ((x, vs), g) ↦
              let before = completed-rest w d r us f in
              let after = call_handlers-rest calls d x vs g in ground arith
        ]
      ]

  pub signal_poller-rest :
      (w w' : World T V) (ts : List T) (found : Bool)
      → signal_poller w ≡ some (w', ts, found)
      → w'.rest ≡ w.rest
  unfolding signal_poller
  signal_poller-rest w w' ts found e =
      let (p, b, calls) = poll w.clock.early w.signals in
      let w0 : World T V = record w { signals = p } in
      elim (Option-cases (call_handlers calls w0)) [
        | inl g ↦ ground arith
        | inr ((x, vs), g) ↦ let after = call_handlers-rest calls w0 x vs g in ground arith
      ]

module _ {T V : Type 0} where
  -- The first poller, and the others behind it.
  poll_all-peel :
      (q : Poller T V) (ps : List (Poller T V)) (c p : Cpu T V) (active : Bool)
      → poll_all (q ∷ ps) c ≡ some (p, active)
      → (w : V) × (ts : List T) × (found : Bool) × (active' : Bool) × (q c.world
          ≡ some (w, ts, found))
        × (poll_all ps (schedule_all ts (record c { world = w })) ≡ some (p, active'))
  unfolding poll_all
  poll_all-peel q ps c p active e = elim (Option-cases (q c.world)) [
    | inl f ↦ ground arith
    | inr ((w, ts, r), f) ↦
        elim (Option-cases (poll_all ps (schedule_all ts (record c { world = w })))) [
          | inl g ↦ ground arith
          | inr ((d, b), g) ↦ (w, ts, r, b, f, ground arith)
        ]
  ]

module _ {T I W : Type 0} (SI : Spsc I Unbounded.capacity) (SW : Spsc W queue_size)
    (sc : Scheduled T I W SI) where
  abbrev pub On : Type 0
  On = CpuWorld SI SW sc

  pub ipc_poller-runner :
      (w w' : On) (ts : List T) (found : Bool)
      → ipc_poller SI SW sc w ≡ some (w', ts, found)
      → w'.rest.runner ≡ w.rest.runner
  unfolding ipc_poller
  ipc_poller-runner w w' ts found e =
      elim (Option-cases (poll_queues SI w.rest.cpu_count w.rest.cpu w.rest.queues)) [
        | inl f ↦ ground arith
        | inr ((qs, b), f) ↦ ground arith
      ]

  by_results-Stands :
      (t : T) (w : W) (ws : List W) (i : ℕ)
      → get_elem? ws i ≡ some w
      → Stands t (sc.by_result w)
      → Stands t (by_results SI SW sc ws)
  by_results-Stands t w [] i e h = cc
  by_results-Stands t w (x ∷ ws) zero e h =
      Stands-left t (sc.by_result x) (by_results SI SW sc ws)
        (subst (λ o. Stands t (sc.by_result o)) (cc) h)
  by_results-Stands t w (x ∷ ws) (suc i) e h =
      Stands-right t (sc.by_result x) (by_results SI SW sc ws) (by_results-Stands t w ws i e h)

  syscall_poller-tasks :
      (w w' : On) (ts : List T) (found : Bool)
      → syscall_poller SI SW sc w ≡ some (w', ts, found)
      → (more : List T) × (by_results SI SW sc (taken SW w.rest.runner) ++ more ≡ ts)
  unfolding syscall_poller
  syscall_poller-tasks w w' ts found e =
      let work = taken SW w.rest.runner in
      (by_waiter SI SW sc (release (length work) w.rest.runner.queue_has_room).1, ground arith)

  poll_all-results :
      (t : T) (w : W) (i : ℕ) (c p : Cpu T On) (active : Bool)
      → poll_all (pollers SI SW sc) c ≡ some (p, active)
      → get_elem? (taken SW c.world.rest.runner) i ≡ some w
      → Stands t (sc.by_result w)
      → Stands t p.task_queue
  unfolding schedule_all
  poll_all-results t w i c p active e g h =
      let (w1, t1, f1, a1, e1, r1) =
        poll_all-peel signal_poller
          (ipc_poller SI SW sc ∷ syscall_poller SI SW sc ∷ file_io_poller SI SW sc ∷ []) c p active
          e in
      let c1 = schedule_all t1 (record c { world = w1 }) in
      let (w2, t2, f2, a2, e2, r2) =
        poll_all-peel (ipc_poller SI SW sc) (syscall_poller SI SW sc ∷ file_io_poller SI SW sc ∷ [])
          c1 p a1 r1 in
      let c2 = schedule_all t2 (record c1 { world = w2 }) in
      let (w3, t3, f3, a3, e3, r3) =
        poll_all-peel (syscall_poller SI SW sc) (file_io_poller SI SW sc ∷ []) c2 p a2 r2 in
      let c3 = schedule_all t3 (record c2 { world = w3 }) in
      let (more, k) = poll_all-appends (file_io_poller SI SW sc ∷ []) c3 p a3 r3 in
      let same : w2.rest.runner ≡ c.world.rest.runner =
        ipc_poller-runner w1 w2 t2 f2 e2
        ∙ ap (λ (x : Devices SI SW). x.runner) (signal_poller-rest c.world w1 t1 f1 e1) in
      let stands = by_results-Stands t w (taken SW w2.rest.runner) i (rw same g) h in
      let (others, tasks) = syscall_poller-tasks w2 w3 t3 f3 e3 in
      let here : Stands t t3 =
        subst (Stands t) tasks
          (Stands-left t (by_results SI SW sc (taken SW w2.rest.runner)) others stands) in
      subst (Stands t) (sym k)
        (Stands-left t c3.task_queue more (Stands-right t c2.task_queue t3 here))

  module _ (func : Func T On) (idle : On → On) where
    -- A CPU's loop with its four pollers, whatever the tasks and the idle procedure do, from a state in
    -- which the tasks that were scheduled are those that were run and those in the queue, in this order:
    -- when a result of a system call is among the first 128 of the result queue, `n + 1` rounds do not end
    -- the program, and the tasks that stand in the queue behind the polls of the first round are at most
    -- eight for each round, then every task that `complete()` of that result schedules has been run.
    pub run-serves_result :
        (n i : ℕ) (t : T) (w : W) (c p c' : Cpu T On) (active : Bool)
        → InOrder c
        → get_elem? (SW.contents c.world.rest.runner.result_queue) i ≡ some w
        → i < queue_size
        → Stands t (sc.by_result w)
        → poll_all (pollers SI SW sc) c ≡ some (p, active)
        → length p.task_queue ≤ batch_size * suc n
        → run func idle (pollers SI SW sc) (suc n) c ≡ some c'
        → Stands t c'.executed
    unfolding taken
    run-serves_result n i t w c p c' active o g b h e k r =
        let popped : get_elem? (taken SW c.world.rest.runner) i ≡ some w =
          let q = c.world.rest.runner.result_queue in
          ap (λ (xs : List W). get_elem? xs i) ((SW.pop_lem queue_size q).0)
          ∙ (get_elem?-take queue_size i (SW.contents q) b ∙ g) in
        let (j, at) = poll_all-results t w i c p active e popped h in
        let lt = get_elem?-lt p.task_queue j t at in
        (
          length c.executed + j,
          run-serves_polled func idle (pollers SI SW sc) n j t c p c' active o e r
              (omega (arith, lt, k)) at,
        )
