-- ===== src/Syscall/Runner/Completion.antt =====
-- That a call gets done (lib/io/syscall.cpp): from the call queue to the poller.
use miniss.Base.{
  ℕ, zero, suc, ◌+◌, ◌^◌, ◌<◌, ◌≡◌, refl, ◌∙◌, true, false, List, [], ◌∷◌, ◌++◌, append-nil, length,
  drop_all, arith,
}
use miniss.Spsc.{Spsc, append-pop}
use miniss.Syscall.Runner.{
  Runner, queue_size, blocked, push_call, signal, poll_results, worker_step, Reach, next, works,
}
use miniss.Syscall.Runner.Invariant.{Inv, Reach-Inv}
use miniss.Syscall.Runner.Order.{Reach-Ordered}
use miniss.Syscall.Runner.Drain.{work}

module _ {W : Type 0} (S : Spsc W queue_size) where
  pub work-Reach : (n : ℕ) {r : Runner S} → Reach S r → Reach S (work S n r)
  unfolding work
  work-Reach zero h = h
  work-Reach (suc n) {r} h = work-Reach n (next h (works r))

  pub pop-none_left : (r : Runner S) → Inv S r → S.contents (S.pop queue_size r.result_queue).0 ≡ []
  pop-none_left r v =
      (S.pop_lem queue_size r.result_queue).1
      ∙ drop_all queue_size (S.contents r.result_queue) (omega (arith, v.counted))

  -- A poll that finds all results leaves none, and completes everything that was processed.
  pub poll_results-all :
      (r : Runner S)
      → Reach S r
      → r.signalling ≡ false
      → (poll_results S r).0.completed ≡ r.processed
  unfolding poll_results
  poll_results-all r h k = ground (
    arith,
    Reach-Ordered S h,
    append-pop S queue_size r.result_queue,
    pop-none_left r (Reach-Inv S h),
    append-nil (S.pop queue_size r.result_queue).1,
  )

  -- What a continuation does to the state.
  pub pushed :
      (r : Runner S) (w : W) (ws : List W)
      → r.scheduled ≡ w ∷ ws
      → r.worker ≡ blocked
      → length (S.contents r.call_queue) < queue_size
      → r.interrupter + 1 < 2 ^ 64
      → let r' = signal S (push_call S r) in
        (S.contents r'.call_queue ≡ S.contents r.call_queue ++ w ∷ [])
        × (r'.result_queue ≡ r.result_queue)
        × (r'.processed ≡ r.processed)
        × (r'.worker ≡ r.worker)
        × (r'.stop_requested ≡ r.stop_requested)
        × (0 < r'.interrupter)
        × ((push_call S r).signalling ≡ true)
        × ((push_call S r).interrupter ≡ r.interrupter)
        × (r'.signalling ≡ false)
        × (r'.lost ≡ r.lost)
  unfolding signal push_call
  pushed r w ws e b h k =
      ground (arith, S.push-room w r.call_queue, S.write_available_lem r.call_queue)

  pub work-signalling : (n : ℕ) (r : Runner S) → (work S n r).signalling ≡ r.signalling
  unfolding work worker_step
  work-signalling zero r = refl
  work-signalling (suc n) r = work-signalling n (worker_step S r) ∙ ground arith
