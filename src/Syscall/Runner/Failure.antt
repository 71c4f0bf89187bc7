-- ===== src/Syscall/Runner/Failure.antt =====
-- The continuation of `submit_` (lib/io/syscall.cpp) where the write to the eventfd may fail.
use miniss.Base.{
  ℕ, ℤ, pos, negsuc, ◌+◌, ◌≤◌, ◌<◌, ◌≡◌, ap, ◌∙◌, false, List, [], ◌∷◌, ◌++◌, length, arith,
}
use miniss.Exceptions.{Outcome, ok, throws, system_error}
use miniss.Eventfd
use miniss.Spsc.{Spsc}
use miniss.Syscall.Runner.{Runner, queue_size, blocked, push_call, worker_step, Reach}
use miniss.Syscall.Runner.Invariant.{Reach-Inv}
use miniss.Syscall.Runner.Wakeup.{Reach-no_lost_wakeup}
use miniss.Syscall.Runner.Drain.{work, work-drains}
use miniss.Syscall.Runner.Turns.{work-asleep}

module _ {W : Type 0} (S : Spsc W queue_size) where
  -- An exception goes to the future of the continuation, which `submit_` drops.
  abbrev pub signalled : Runner S → Outcome ℕ → Runner S × Outcome (Unit {0})
  signalled r (ok value) = (record r { interrupter = value; signalling = false }, ok tt)
  signalled r (throws e) = (record r { signalling = false }, throws e)

  unfoldable pub continuation : ℤ → ℤ → Runner S → Runner S × Outcome (Unit {0})
  continuation n errno r = signalled (push_call S r) (Eventfd.signal 1 n errno r.interrupter)

  -- What `interrupter_.wait()` leaves of the count is what the worker's step leaves.
  worker_step-wait :
      (k : ℕ) (errno : ℤ) (r : Runner S)
      → r.worker ≡ blocked
      → 0 < r.interrupter
      → Eventfd.wait (pos k) errno r.interrupter ≡ ok (r.interrupter, (worker_step S r).interrupter)
  unfolding worker_step Eventfd.wait
  worker_step-wait k errno r b i = ground arith

  record Pushed (r d : Runner S) (w : W) (ws : List W) : Type 0 where
    scheduled : d.scheduled ≡ ws
    calls : S.contents d.call_queue ≡ S.contents r.call_queue ++ w ∷ []
    results : d.result_queue ≡ r.result_queue
    log : d.processed ≡ r.processed
    worker : d.worker ≡ r.worker
    stop : d.stop_requested ≡ r.stop_requested

  continuation-fails :
      (k : ℕ) (errno : ℤ) (r : Runner S) (w : W) (ws : List W)
      → r.scheduled ≡ w ∷ ws
      → r.worker ≡ blocked
      → length (S.contents r.call_queue) < queue_size
      → let (d, o) = continuation (negsuc k) errno r in
        Pushed r d w ws × (d.interrupter ≡ r.interrupter) × (o ≡ throws (system_error errno))
  unfolding continuation push_call Eventfd.signal
  continuation-fails k errno r w ws e b h =
      ground (arith, S.push-room w r.call_queue, S.write_available_lem r.call_queue)

  continuation-succeeds :
      (k : ℕ) (errno : ℤ) (r : Runner S) (w : W) (ws : List W)
      → r.scheduled ≡ w ∷ ws
      → r.worker ≡ blocked
      → r.interrupter ≡ 0
      → length (S.contents r.call_queue) < queue_size
      → let (d, o) = continuation (pos k) errno r in Pushed r d w ws × (d.interrupter ≡ 1)
  unfolding continuation push_call Eventfd.signal
  continuation-succeeds k errno r w ws e b i h =
      ground (arith, S.push-room w r.call_queue, S.write_available_lem r.call_queue)

  -- In any state that an interleaving leads to where two continuations of `submit_` are scheduled, the worker
  -- sleeps with a count of zero, and no stop is requested: if the write of the first continuation fails, its
  -- exception has the error number and goes to a future that nobody waits for, the call stands in the call
  -- queue, and the worker sleeps on, whatever number of steps it is given. If the write of the second one then
  -- succeeds, seven steps of the worker process both calls, in order.
  pub continuation-delays :
      (k l n : ℕ) (errno errno' : ℤ) (r : Runner S) (v w : W) (ws : List W)
      → Reach S r
      → r.scheduled ≡ v ∷ (w ∷ ws)
      → r.worker ≡ blocked
      → r.interrupter ≡ 0
      → r.stop_requested ≡ false
      → r.signalling ≡ false
      → let (d, o) = continuation (negsuc k) errno r in
        let e = (continuation (pos l) errno' d).0 in
        (o ≡ throws (system_error errno))
        × (S.contents d.call_queue ≡ v ∷ [])
        × (work S n d ≡ d)
        × ((work S 7 e).processed ≡ r.processed ++ v ∷ (w ∷ []))
  continuation-delays k l n errno errno' r v w ws h e b i s g =
      let inv = Reach-Inv S h in
      let none_left = Reach-no_lost_wakeup S h b i g in
      let count = ap length e in
      let (p, asleep, failed) =
        continuation-fails k errno r v (w ∷ ws) e b (omega (arith, ap length none_left)) in
      let d = (continuation (negsuc k) errno r).0 in
      let one : S.contents d.call_queue ≡ v ∷ [] = p.calls ∙ ap (λ z. z ++ v ∷ []) none_left in
      let (q, signals) =
        continuation-succeeds l errno' d w ws p.scheduled (p.worker ∙ b) (asleep ∙ i)
          (omega (arith, ap length one)) in
      let both = q.calls ∙ ap (λ z. z ++ w ∷ []) one in
      let f = (continuation (pos l) errno' d).0 in
      let room : length (S.contents f.result_queue) + 2 ≤ queue_size =
        omega (arith, inv.counted, ap (λ z. length (S.contents z)) (q.results ∙ p.results)) in
      let drained =
        work-drains S (v ∷ (w ∷ [])) f (q.worker ∙ (p.worker ∙ b)) (omega arith)
          (q.stop ∙ (p.stop ∙ s)) both room in
      (
        failed,
        one,
        work-asleep S n d (p.worker ∙ b) (asleep ∙ i),
        drained.2 ∙ ap (λ z. z ++ v ∷ (w ∷ [])) (q.log ∙ p.log),
      )
