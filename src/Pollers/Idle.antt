-- ===== src/Pollers/Idle.antt =====
-- When the loop of CPU::run goes to run_idle_proc_ (lib/cpu.cpp, lib/poller).
use miniss.Base.{
  subst, ◌≡◌, ap, ◌∙◌, false, true, some, List, [], ◌∷◌, length, arith, is_negative, Bool-cases,
  Option-cases, inl, inr,
}
use miniss.Spsc.{Spsc, pop-nil}
use miniss.Unbounded
use miniss.Syscall.Runner
use miniss.Syscall.Runner.{Runner, queue_size}
use miniss.Cpu.{Cpu, Poller, Func, schedule_all, poll_all, iterate}
use miniss.Cpu.Fifo.{InOrder}
use miniss.Cpu.Fairness.{iterate-idle}
use miniss.Signal.{is_zero, poll}
use miniss.Loop.Sources.{length-zero}
use miniss.FileIo.{reap_io}
use miniss.Os.{Queues, poll_queues}
use miniss.Alarm.{World, signal_poller, call_handlers}
use miniss.Pollers.{
  IoAnswer, Devices, Scheduled, CpuWorld, ipc_poller, syscall_poller, file_io_poller, pollers,
}
use miniss.Pollers.Results.{signal_poller-rest}

module _ {T V : Type 0} where
  -- No poller of an inactive round has found anything.
  poll_all-quiet :
      (q : Poller T V) (ps : List (Poller T V)) (c p : Cpu T V)
      → poll_all (q ∷ ps) c ≡ some (p, false)
      → (w : V) × (ts : List T) × (q c.world ≡ some (w, ts, false))
        × (poll_all ps (schedule_all ts (record c { world = w })) ≡ some (p, false))
  unfolding poll_all
  poll_all-quiet q ps c p e = elim (Option-cases (q c.world)) [
    | inl f ↦ ground arith
    | inr ((w, ts, r), f) ↦
        elim (Option-cases (poll_all ps (schedule_all ts (record c { world = w })))) [
          | inl g ↦ ground arith
          | inr ((d, b), g) ↦ (w, ts, ground arith, ground arith)
        ]
  ]

  signal_poller-quiet :
      (w w' : World T V) (ts : List T)
      → signal_poller w ≡ some (w', ts, false)
      → is_zero w.signals.pending_signals ≡ true
  unfolding signal_poller poll
  signal_poller-quiet w w' ts e =
      let (p, b, calls) = poll w.clock.early w.signals in
      elim (Option-cases (call_handlers calls (record w { signals = p }))) [
        | inl g ↦ ground arith
        | inr ((x, vs), g) ↦ ground arith
      ]

module _ {T I W : Type 0} (SI : Spsc I Unbounded.capacity) (SW : Spsc W queue_size)
    (sc : Scheduled T I W SI) where
  abbrev pub Here : Type 0
  Here = CpuWorld SI SW sc

  ipc_poller-quiet :
      (w w' : Here) (ts : List T)
      → ipc_poller SI SW sc w ≡ some (w', ts, false)
      → (qs : Queues SI) × (poll_queues SI w.rest.cpu_count w.rest.cpu w.rest.queues
          ≡ some (qs, false))
        × (w'.rest.runner ≡ w.rest.runner)
        × (w'.rest.io ≡ w.rest.io)
  unfolding ipc_poller
  ipc_poller-quiet w w' ts e =
      elim (Option-cases (poll_queues SI w.rest.cpu_count w.rest.cpu w.rest.queues)) [
        | inl f ↦ ground arith
        | inr ((qs, b), f) ↦ (qs, ground arith, ground arith, ground arith)
      ]

  syscall_poller-quiet :
      (w w' : Here) (ts : List T)
      → syscall_poller SI SW sc w ≡ some (w', ts, false)
      → (SW.contents w.rest.runner.result_queue ≡ []) × (w'.rest.io ≡ w.rest.io)
  unfolding syscall_poller Runner.poll_results
  syscall_poller-quiet w w' ts e =
      let q = w.rest.runner.result_queue in
      let none_taken : length (SW.pop queue_size q).1 ≡ 0 = ground arith in
      (
        pop-nil SW queue_size q (omega arith) (length-zero (SW.pop queue_size q).1 none_taken),
        ground arith,
      )

  file_io_poller-quiet :
      (w w' : Here) (ts : List T)
      → file_io_poller SI SW sc w ≡ some (w', ts, false)
      → w.rest.io.events ≡ []
  unfolding file_io_poller reap_io
  file_io_poller-quiet w w' ts e =
      let none_reported : length w.rest.io.events ≡ 0 =
        ground (arith, Bool-cases (is_negative w.rest.io.result)) in
      length-zero w.rest.io.events none_reported

  module _ (func : Func T Here) (idle : Here → Here) where
    -- The loop of a CPU with its four pollers, from a state in which the tasks that were scheduled are those
    -- that were run and those in the queue, in this order: when it goes to the idle procedure, then in that
    -- round no signal was pending at the signal poller's load, poll_queues returned false, no result of a
    -- system call was in the result queue, the kernel reported no event of file io, and every task that was
    -- ever scheduled has been run.
    pub iterate-idle-pollers :
        (c c' : Cpu T Here)
        → InOrder c
        → iterate func idle (pollers SI SW sc) c ≡ some (c', true)
        → let d = c.world.rest in
          (is_zero c.world.signals.pending_signals ≡ true)
          × ((qs : Queues SI) × (poll_queues SI d.cpu_count d.cpu d.queues ≡ some (qs, false)))
          × (SW.contents d.runner.result_queue ≡ [])
          × (d.io.events ≡ [])
          × (c'.task_queue ≡ [])
          × (c'.executed ≡ c'.scheduled)
    unfolding schedule_all
    iterate-idle-pollers c c' o r =
        let ((p, e), ran, empty) = iterate-idle func idle (pollers SI SW sc) c c' o r in
        let (w1, t1, e1, r1) =
          poll_all-quiet signal_poller
            (ipc_poller SI SW sc ∷ syscall_poller SI SW sc ∷ file_io_poller SI SW sc ∷ []) c p e in
        let c1 = schedule_all t1 (record c { world = w1 }) in
        let (w2, t2, e2, r2) =
          poll_all-quiet (ipc_poller SI SW sc)
            (syscall_poller SI SW sc ∷ file_io_poller SI SW sc ∷ []) c1 p r1 in
        let c2 = schedule_all t2 (record c1 { world = w2 }) in
        let (w3, t3, e3, r3) =
          poll_all-quiet (syscall_poller SI SW sc) (file_io_poller SI SW sc ∷ []) c2 p r2 in
        let (w4, t4, e4, r4) =
          poll_all-quiet (file_io_poller SI SW sc) [] (schedule_all t3 (record c2 { world = w3 })) p
            r3 in
        let same : w1.rest ≡ c.world.rest = signal_poller-rest c.world w1 t1 false e1 in
        let (qs, quiet, runner, io) = ipc_poller-quiet w1 w2 t2 e2 in
        let (results, io') = syscall_poller-quiet w2 w3 t3 e3 in
        let events = file_io_poller-quiet w3 w4 t4 e4 in
        (
          signal_poller-quiet c.world w1 t1 e1,
          subst
              (λ (d : Devices SI SW).
                (q : Queues SI) × (poll_queues SI d.cpu_count d.cpu d.queues ≡ some (q, false)))
              same (qs, quiet),
          subst (λ (r : Runner SW). SW.contents r.result_queue ≡ [])
              (runner ∙ ap (λ (d : Devices SI SW). d.runner) same) results,
          subst (λ (a : IoAnswer). a.events ≡ [])
              (io' ∙ (io ∙ ap (λ (d : Devices SI SW). d.io) same)) events,
          empty,
          ran,
        )
