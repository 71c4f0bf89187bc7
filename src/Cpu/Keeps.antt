-- ===== src/Cpu/Keeps.antt =====
-- Invariants of a CPU's loop (lib/cpu.cpp, CPU::run): what every poll, every task and the idle procedure
-- keep, a number of rounds keeps.
use miniss.Base.{
  subst, ℕ, zero, suc, ◌≡◌, refl, sym, Bool, some, List, [], ◌∷◌, ◌++◌, Option-cases, inl, inr,
  arith,
}
use miniss.Exceptions.{Outcome, ok, throws}
use miniss.Cpu.{
  Cpu, Poller, Func, batch_size, schedule_all, poll_all, run_task, run_batch, iterate, run,
}
use miniss.Cpu.Fifo.{iterate_cases}

module _ {T : Type 0} (Q : T → Type 0) where
  abbrev pub All : List T → Type 0
  All [] = Unit {0}
  All (t ∷ ts) = Q t × All ts

  pub All-append : (ts us : List T) → All ts → All us → All (ts ++ us)
  All-append [] us h k = k
  All-append (t ∷ ts) us h k = (h.0, All-append ts us h.1 k)

-- `R` relates the tasks that were run, in order, those that were scheduled and the world, and `Q` holds of
-- every task in the queue.
module _ {T W : Type 0} (R : List T → List T → W → Type 0) (Q : T → Type 0) where
  abbrev pub Kept : Cpu T W → Type 0
  Kept c = R c.executed c.scheduled c.world × All Q c.task_queue

  abbrev pub KeptByPoller : Poller T W → Type 0
  KeptByPoller poll =
      (ts ss us : List T) (w w' : W) (found : Bool)
      → R ts ss w
      → poll w ≡ some (w', us, found)
      → R ts (ss ++ us) w' × All Q us

  abbrev pub KeptByAll : List (Poller T W) → Type 0
  KeptByAll [] = Unit {0}
  KeptByAll (p ∷ ps) = KeptByPoller p × KeptByAll ps

  poll_all-Kept :
      (ps : List (Poller T W)) (c c' : Cpu T W) (active : Bool)
      → KeptByAll ps
      → Kept c
      → poll_all ps c ≡ some (c', active)
      → Kept c'
  unfolding poll_all schedule_all
  poll_all-Kept [] c c' active k h e = let same : c ≡ c' = ground arith in subst Kept same h
  poll_all-Kept (p ∷ ps) c c' active k h e = elim (Option-cases (p c.world)) [
    | inl f ↦ ground arith
    | inr ((w, ts, r), f) ↦
        let polled = schedule_all ts (record c { world = w }) in
        let (kept, tasks) = k.0 c.executed c.scheduled ts c.world w r h.0 f in
        elim (Option-cases (poll_all ps polled)) [
          | inl g ↦ ground arith
          | inr ((d, b), g) ↦
              let same : d ≡ c' = ground arith in
              subst Kept same
                (poll_all-Kept ps polled d b k.1 (kept, All-append Q c.task_queue ts h.1 tasks) g)
        ]
  ]

  module _ (func : Func T W)
      (func-keeps : (ts ss us : List T) (t : T) (w w' : W)
        → R ts ss w
        → Q t
        → func t w ≡ ok (w', us)
        → R (ts ++ t ∷ []) (ss ++ us) w' × All Q us) where
    run_task-Kept :
        (t : T) (q : List T) (c d : Cpu T W) (o : Outcome (W × List T))
        → o ≡ func t c.world
        → R c.executed c.scheduled c.world
        → All Q (t ∷ q)
        → run_task func t (record c { task_queue = q }) ≡ some d
        → Kept d
    unfolding run_task schedule_all
    run_task-Kept t q c d (ok (w, ts)) e r a h =
        let (kept, tasks) = func-keeps c.executed c.scheduled ts t c.world w r a.0 (sym e) in
        let same : record c {
          world = w;
          executed = c.executed ++ t ∷ [];
          task_queue = q ++ ts;
          scheduled = c.scheduled ++ ts;
        }
            ≡ d =
          ground arith in
        subst Kept same (kept, All-append Q q ts a.1 tasks)
    run_task-Kept t q c d (throws x) e r a h = ground arith

    run_batch-Kept :
        (n : ℕ) (c c' : Cpu T W) (q : List T)
        → q ≡ c.task_queue
        → Kept c
        → run_batch func n c ≡ some c'
        → Kept c'
    unfolding run_batch
    run_batch-Kept zero c c' q e k h = let same : c ≡ c' = ground arith in subst Kept same k
    run_batch-Kept (suc n) c c' [] e k h = let same : c ≡ c' = ground arith in subst Kept same k
    run_batch-Kept (suc n) c c' (t ∷ q) e k h =
        elim (Option-cases (run_task func t (record c { task_queue = q }))) [
          | inl f ↦ ground arith
          | inr (d, f) ↦
              let rest : run_batch func n d ≡ some c' = ground arith in
              let all : All Q (t ∷ q) = subst (All Q) (sym e) k.1 in
              run_batch-Kept n d c' d.task_queue refl
                (run_task-Kept t q c d (func t c.world) refl k.0 all f) rest
        ]

    module _ (idle : W → W) (pollers : List (Poller T W)) (polls-keep : KeptByAll pollers)
        (idle-keeps : (ts ss : List T) (w : W) → R ts ss w → R ts ss (idle w)) where
      iterate-Kept :
          (c c' : Cpu T W) (b : Bool)
          → Kept c
          → iterate func idle pollers c ≡ some (c', b)
          → Kept c'
      iterate-Kept c c' b k h =
          let (p, active, e, rest) = iterate_cases func idle pollers c c' b h in
          let polled = poll_all-Kept pollers c p active polls-keep k e in
          elim rest [
            | inl (q, a, t, s) ↦
                subst Kept (sym s) (idle-keeps p.executed p.scheduled p.world polled.0, polled.1)
            | inr (f, t) ↦ run_batch-Kept batch_size p c' p.task_queue refl polled f
          ]

      pub run-Kept :
          (n : ℕ) (c c' : Cpu T W) → Kept c → run func idle pollers n c ≡ some c' → Kept c'
      unfolding run
      run-Kept zero c c' k h = let same : c ≡ c' = ground arith in subst Kept same k
      run-Kept (suc n) c c' k h = elim (Option-cases (iterate func idle pollers c)) [
        | inl f ↦ ground arith
        | inr ((d, b), f) ↦
            let rest : run func idle pollers n d ≡ some c' = ground arith in
            run-Kept n d c' (iterate-Kept c d b k f) rest
      ]
