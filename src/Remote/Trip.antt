-- ===== src/Remote/Trip.antt =====
-- A call of a function on another CPU and back (lib/cross_cpu_queue.cpp, include/miniss/os.h).
use miniss.Base.{
  none, append-nil, ℕ, ◌<◌, ◌≡◌, refl, sym, ap, ◌∙◌, Bool, Option, some, List, [], ◌∷◌, ◌++◌,
  append_assoc, append-nil, length, length-append, take_all, arith, ltb,
}
use miniss.Exceptions.{Outcome}
use miniss.Syscall.{Completion}
use miniss.Spsc.{Spsc}
use miniss.Unbounded
use miniss.Unbounded.{capacity, batch}
use miniss.Unbounded.Fifo.{items, push_lem, process-flush}
use miniss.CrossCpu
use miniss.CrossCpu.{CrossCpuQueue, bump}
use miniss.WorkItem.{process, passed_on}
use miniss.Remote.{
  Remote, emplace, settle, submit, flush_tx, flush_rx, poll_tx, poll_rx, come_true, submits,
  comes_true, polls_tx, polls_rx, flushes_tx, flushes_rx, Reach, next,
}
use miniss.Os.{Queues, Submission, applied, requested, submit_to}
use miniss.Remote.Outcomes.{outcomes, outcomes-append, Reach-settles_outcomes}

module _ {A : Type 0} (S : Spsc ℕ capacity) where
  -- How the future is settled that submit_to returns on the spot.
  abbrev pub settled_at_once : Submission S A → Option (Completion A)
  settled_at_once (applied o) = some (passed_on o)
  settled_at_once (requested qs) = none

module _ {A : Type 0} (S : Spsc ℕ capacity) (fn : ℕ → Outcome A) where
  -- A push, a flush and a call of `process` take everything, where less than eight items were there.
  pushed-process :
      (item : ℕ) (u : Unbounded.Unbounded S)
      → length (items S u) < batch
      → (Unbounded.process S (Unbounded.flush S (Unbounded.push S item u).0).0).1
        ≡ items S u ++ item ∷ []
  pushed-process item u h =
      let v = (Unbounded.push S item u).0 in
      let pushed = (push_lem S item u).0 in
      (process-flush S v).0
      ∙ take_all batch (items S v)
          (rw pushed (omega (arith, length-append (items S u) (item ∷ []), h)))
      ∙ pushed

  -- The way there.
  pub Sent : ℕ → Remote A S → Remote A S → Type 0
  Sent item r c =
      (a : Remote A S) × (b : Remote A S) × (moved : Bool) × (found : Bool) × (submit A S
          r.queue.from item r
        ≡ some a)
      × (flush_tx A S a.queue.from a ≡ some (b, moved))
      × (poll_tx A S b.queue.to b ≡ some (c, found))

  sends :
      (item : ℕ) (r : Remote A S)
      → length (items S r.queue.tx) < batch
      → (c : Remote A S) × Sent item r c
        × (c.queue.running ≡ r.queue.running ++ (items S r.queue.tx ++ item ∷ []))
        × (c.queue.rx ≡ r.queue.rx)
        × (c.settled ≡ r.settled)
        × (c.ret ≡ r.ret)
  unfolding submit flush_tx poll_tx CrossCpu.submit CrossCpu.flush_tx CrossCpu.poll_tx Sent
  sends item r h =
      let q = r.queue in
      let p = Unbounded.push S item q.tx in
      let f = Unbounded.flush S p.0 in
      let o = Unbounded.process S f.0 in
      let a : CrossCpuQueue S = record q {
        tx = p.0;
        to_wakeups = bump p.1 q.to_wakeups;
        submitted = q.submitted ++ item ∷ [];
      } in
      let b : CrossCpuQueue S = record a { tx = f.0; to_wakeups = bump f.1 a.to_wakeups } in
      let c : CrossCpuQueue S = record b {
        tx = o.0;
        running = b.running ++ o.1;
        started = b.started ++ o.1;
      } in
      let all = pushed-process item q.tx h in
      (
        record r { queue = c },
        (
          record r { queue = a },
          record r { queue = b },
          f.1,
          ltb 0 (length o.1),
          ground arith,
          ground arith,
          ground arith,
        ),
        ap (◌++◌ q.running) all,
        refl,
        refl,
        refl,
      )

  -- The way back, with the items of `left` still running.
  pub Returned : ℕ → List ℕ → Remote A S → Remote A S → Type 0
  Returned item left c f =
      (d : Remote A S) × (e : Remote A S) × (moved : Bool) × (found : Bool) × (c.queue.running
        ≡ left ++ item ∷ [])
      × (come_true A S fn c.queue.to item left c ≡ some d)
      × (flush_rx A S d.queue.to d ≡ some (e, moved))
      × (poll_rx A S e.queue.from e ≡ some (f, found))

  returns :
      (item : ℕ) (left : List ℕ) (c : Remote A S)
      → length (items S c.queue.rx) < batch
      → c.queue.running ≡ left ++ item ∷ []
      → (f : Remote A S) × Returned item left c f
        × (f.queue.completed ≡ c.queue.completed ++ (items S c.queue.rx ++ item ∷ []))
  unfolding come_true flush_rx poll_rx CrossCpu.respond CrossCpu.flush_rx CrossCpu.poll_rx Returned
  returns item left c h k =
      let q = c.queue in
      let p = Unbounded.push S item q.rx in
      let f = Unbounded.flush S p.0 in
      let o = Unbounded.process S f.0 in
      let ret' = emplace item (process (fn item)) c.ret in
      let d : CrossCpuQueue S = record q {
        rx = p.0;
        running = left;
        from_wakeups = bump p.1 q.from_wakeups;
        responded = q.responded ++ item ∷ [];
      } in
      let e : CrossCpuQueue S = record d { rx = f.0; from_wakeups = bump f.1 d.from_wakeups } in
      let g : CrossCpuQueue S = record e { rx = o.0; completed = e.completed ++ o.1 } in
      let all = pushed-process item q.rx h in
      (
        record { queue = g; ret = ret'; settled = c.settled ++ settle ret' o.1 },
        (
          record { queue = d; ret = ret'; settled = c.settled },
          record { queue = e; ret = ret'; settled = c.settled },
          f.1,
          ltb 0 (length o.1),
          k,
          ground arith,
          ground arith,
          ground arith,
        ),
        ap (◌++◌ q.completed) all,
      )

  Sent-Reach : (item : ℕ) (r c : Remote A S) → Reach A S fn r → Sent item r c → Reach A S fn c
  unfolding Sent
  Sent-Reach item r c h (a, b, moved, found, x, y, z) =
      next (next (next h (submits item x)) (flushes_tx moved y)) (polls_tx found z)

  Returned-Reach :
      (item : ℕ) (left : List ℕ) (c f : Remote A S)
      → Reach A S fn c
      → Returned item left c f
      → Reach A S fn f
  unfolding Returned
  Returned-Reach item left c f h (d, e, moved, found, w, x, y, z) =
      next (next (next h (comes_true left item [] w (rw (append-nil left) x))) (flushes_rx moved y))
        (polls_rx found z)

  -- In any state of a Cross_cpu_queue that the two CPUs' calls lead to, with less than eight requests and
  -- less than eight answers under way: when a new request is submitted, six calls bring its answer back,
  -- namely submit, flush_tx and poll_tx and, when the function's future has come true, the continuation of
  -- `process`, flush_rx and poll_rx. The promises of the answers that were under way are settled, and then
  -- its own, with exactly that with which submit_to settles the future where the function is for the own
  -- CPU.
  pub round_trip :
      (item cpu_count cpu : ℕ) (qs : Queues S) (r : Remote A S)
      → Reach A S fn r
      → length (items S r.queue.tx) < batch
      → length (items S r.queue.rx) < batch
      → (c : Remote A S) × (f : Remote A S) × (k : Completion A) × Sent item r c
        × Returned item (r.queue.running ++ items S r.queue.tx) c f
        × (f.settled ≡ r.settled ++ (outcomes S fn (items S r.queue.rx) ++ (item, k) ∷ []))
        × (settled_at_once S (submit_to S cpu_count cpu cpu item (fn item) qs) ≡ some k)
  unfolding submit_to
  round_trip item cpu_count cpu qs r h tx rx =
      let (c, there, running, same, settled, ret) = sends item r tx in
      let left = r.queue.running ++ items S r.queue.tx in
      let (f, back, completed) =
        returns item left c (rw same rx)
          (running ∙ sym (append_assoc r.queue.running (items S r.queue.tx) (item ∷ []))) in
      let reached = Sent-Reach item r c h there in
      let before = (Reach-settles_outcomes S fn reached).0 in
      let last = (Reach-settles_outcomes S fn (Returned-Reach item left c f reached back)).0 in
      (
        c,
        f,
        passed_on (fn item),
        there,
        back,
        last
            ∙ (ap (outcomes S fn) completed
                ∙ (outcomes-append S fn c.queue.completed (items S c.queue.rx ++ item ∷ [])
                    ∙ ground (
                      arith,
                      before,
                      settled,
                      same,
                      outcomes-append S fn (items S r.queue.rx) (item ∷ []),
                    ))),
        ground arith,
      )
