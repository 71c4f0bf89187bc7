-- ===== src/Syscall/Runner/Wakeup.antt =====
-- That the worker of Syscall_runner never sleeps over a call (lib/io/syscall.cpp).
use miniss.Base.{
  zero, suc, length, inl, inr, ℕ, ◌<◌, ◌≡◌, refl, ◌⊎◌, Bool, true, false, List, [], ◌∷◌, arith,
}
use miniss.Semaphore.{wait}
use miniss.Spsc.{Spsc}
use miniss.Syscall.Runner.{
  Runner, WorkerPoint, head, blocked, exited, looking, consuming, queue_size, start, submit,
  push_call, signal, poll_results, worker_step, request_stop, consume, Step, submits, pushes,
  signals, polls, stops, works, Reach, here, next,
}

-- The worker is about to look at the call queue, or has left for good.
abbrev pub looks : WorkerPoint → Bool
looks (consuming nr left) = true
looks looking = true
looks exited = true
looks _ = false

module _ {W : Type 0} (S : Spsc W queue_size) where
  abbrev pub Awake : Runner S → Type 0
  Awake r =
      (S.contents r.call_queue ≡ [])
      ⊎ (looks r.worker ≡ true)
      ⊎ (0 < r.interrupter)
      ⊎ (r.signalling ≡ true)

  submit-Awake : (w : W) (r : Runner S) → Awake r → Awake (submit S w r)
  unfolding submit wait
  submit-Awake w r v = ground arith

  poll_results-Awake : (r : Runner S) → Awake r → Awake (poll_results S r).0
  unfolding poll_results
  poll_results-Awake r v = ground arith

  push_call-Awake :
      (r : Runner S) (ws : List W) → ws ≡ r.scheduled → Awake r → Awake (push_call S r)
  unfolding push_call
  push_call-Awake r [] e v = ground arith
  push_call-Awake r (w ∷ ws) e v = ground arith

  consume-Awake :
      (r : Runner S) (nr left : ℕ) (p : S.Queue × List W)
      → looks r.worker ≡ true
      → Awake (consume S nr left r p)
  consume-Awake r nr left (q, []) l = inr (inl l)
  consume-Awake r nr left (q, w ∷ ws) l = inr (inl refl)

  length-nil : (xs : List W) → length xs ≡ 0 → xs ≡ []
  length-nil [] h = refl
  length-nil (x ∷ xs) h = absurd (omega arith)

  worker_step-Awake :
      (r : Runner S) (p : WorkerPoint) → p ≡ r.worker → Awake r → Awake (worker_step S r)
  unfolding worker_step
  worker_step-Awake r head e v = ground arith
  worker_step-Awake r blocked e v = ground arith
  worker_step-Awake r looking e v = ground (arith, length-nil (S.contents r.call_queue))
  worker_step-Awake r exited e v = ground arith
  worker_step-Awake r (consuming nr zero) e v = ground arith
  worker_step-Awake r (consuming nr (suc left)) e v =
      ground (arith, consume-Awake r nr left (S.pop 1 r.call_queue))

  Step-Awake : {r r' : Runner S} → Step S r r' → Awake r → Awake r'
  unfolding signal request_stop
  Step-Awake (submits w r h) v = submit-Awake w r v
  Step-Awake (pushes r h) v = push_call-Awake r r.scheduled refl v
  Step-Awake (signals r h k) v = ground arith
  Step-Awake (polls r h) v = poll_results-Awake r v
  Step-Awake (stops r h k) v = ground arith
  Step-Awake (works r) v = worker_step-Awake r r.worker refl v

  start-Awake : Awake (start S)
  unfolding start
  start-Awake = ground (arith, S.contents-empty)

  Reach-Awake : {r : Runner S} → Reach S r → Awake r
  Reach-Awake here = start-Awake
  Reach-Awake (next r st) = Step-Awake st (Reach-Awake r)

  -- No wakeup is lost: in every state that an interleaving leads to, if the worker waits for the
  -- eventfd with a count of zero, and the CPU's thread is not between a push and its signal, then
  -- no call is waiting for the worker.
  pub Reach-no_lost_wakeup :
      {r : Runner S}
      → Reach S r
      → r.worker ≡ blocked
      → r.interrupter ≡ 0
      → r.signalling ≡ false
      → S.contents r.call_queue ≡ []
  Reach-no_lost_wakeup h b i s = ground (arith, Reach-Awake h)
