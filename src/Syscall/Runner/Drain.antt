-- ===== src/Syscall/Runner/Drain.antt =====
-- What the worker of Syscall_runner gets done when it is woken (lib/io/syscall.cpp, worker_run_).
use miniss.Base.{
  take, drop, take-append-drop, length-take, ap, ◌∙◌, subst, length-append, ℕ, zero, suc, ◌+◌, ◌^◌,
  ◌≤◌, ◌<◌, ◌≡◌, refl, sym, ◌⊎◌, inl, inr, true, false, if◌then◌else◌, List, [], ◌∷◌, ◌++◌,
  append-nil, append_assoc, arith, length,
}
use native.Mathlib.Nat.{zero-add, suc-add}
use miniss.Spsc.{Spsc}
use miniss.Syscall.Runner.{
  Runner, WorkerPoint, head, blocked, exited, looking, consuming, queue_size, worker_step,
  request_stop,
}
use miniss.Syscall.Runner.Invariant.{remaining}

module _ {W : Type 0} (S : Spsc W queue_size) where
  unfoldable pub work : ℕ → Runner S → Runner S
  work zero r = r
  work (suc n) r = work n (worker_step S r)

  work-add : (m n : ℕ) (r : Runner S) → work (m + n) r ≡ work n (work m r)
  unfolding work
  work-add zero n r = rw zero-add
  work-add (suc m) n r = rw suc-add (work-add m n (worker_step S r))

  -- From `r` on, the items `xs` were consumed.
  record Consumed (xs : List W) (r r' : Runner S) : Type 0 where
    results : S.contents r'.result_queue ≡ S.contents r.result_queue ++ xs
    log : r'.processed ≡ r.processed ++ xs
    count : r'.interrupter ≡ r.interrupter
    stop : r'.stop_requested ≡ r.stop_requested

  consume_one :
      (x : W) (xs : List W) (nr left : ℕ) (r : Runner S)
      → r.worker ≡ consuming nr (suc left)
      → S.contents r.call_queue ≡ x ∷ xs
      → length (S.contents r.result_queue) < queue_size
      → Consumed (x ∷ []) r (worker_step S r)
        × ((worker_step S r).worker ≡ consuming (suc nr) left)
        × (S.contents (worker_step S r).call_queue ≡ xs)
  unfolding worker_step
  consume_one x xs nr left r w c h =
      ground (arith, S.pop_lem 1 r.call_queue, S.push-room x r.result_queue)

  -- consume_all handles the calls that it found.
  consume_all :
      (xs ys : List W) (nr : ℕ) (r : Runner S)
      → r.worker ≡ consuming nr (length xs)
      → S.contents r.call_queue ≡ xs ++ ys
      → length (S.contents r.result_queue) + length xs ≤ queue_size
      → Consumed xs r (work (length xs) r)
        × ((work (length xs) r).worker ≡ consuming (nr + length xs) 0)
        × (S.contents (work (length xs) r).call_queue ≡ ys)
  unfolding work
  consume_all [] ys nr r w c h =
      ground (arith, append-nil (S.contents r.result_queue), append-nil r.processed)
  consume_all (x ∷ xs) ys nr r w c h =
      let one = consume_one x (xs ++ ys) nr (length xs) r w c (omega arith) in
      ground (
        arith,
        one,
        length-append (S.contents r.result_queue) (x ∷ []),
        consume_all xs ys (suc nr) (worker_step S r),
        append_assoc (S.contents r.result_queue) (x ∷ []) xs,
        append_assoc r.processed (x ∷ []) xs,
      )

  abbrev Rested : Runner S → Runner S → Type 0
  Rested r r' = Consumed [] r r' × (S.contents r'.call_queue ≡ S.contents r.call_queue)

  -- consume_all returns,
  returns :
      (nr : ℕ) (r : Runner S)
      → r.worker ≡ consuming nr 0
      → Rested r (worker_step S r) × ((worker_step S r).worker ≡ looking)
  unfolding worker_step
  returns nr r w = ground (arith, append-nil (S.contents r.result_queue), append-nil r.processed)

  -- is called again, and finds the calls that came,
  finds :
      (x : W) (xs : List W) (r : Runner S)
      → r.worker ≡ looking
      → S.contents r.call_queue ≡ x ∷ xs
      → Rested r (worker_step S r) × ((worker_step S r).worker ≡ consuming 0 (suc (length xs)))
  unfolding worker_step
  finds x xs r w c = ground (arith, append-nil (S.contents r.result_queue), append-nil r.processed)

  -- or none, and the worker leaves the inner loop,
  finds_none :
      (r : Runner S)
      → r.worker ≡ looking
      → S.contents r.call_queue ≡ []
      → Rested r (worker_step S r) × ((worker_step S r).worker ≡ head)
  unfolding worker_step
  finds_none r w c = ground (arith, append-nil (S.contents r.result_queue), append-nil r.processed)

  -- and at the head of the outer one it leaves, or goes to sleep.
  from_head :
      (r : Runner S)
      → r.worker ≡ head
      → Rested r (worker_step S r)
        × ((worker_step S r).worker ≡ (if r.stop_requested then exited else blocked))
  unfolding worker_step
  from_head r w = ground (arith, append-nil (S.contents r.result_queue), append-nil r.processed)

  pub stays :
      (r : Runner S)
      → (r.worker ≡ exited) ⊎ ((r.worker ≡ blocked) × (r.interrupter ≡ 0))
      → worker_step S r ≡ r
  unfolding worker_step
  stays r h = ground arith

  Rested-trans : {q r s : Runner S} → Rested q r → Rested r s → Rested q s
  Rested-trans {q} {r} {s} a b = ground (
    arith,
    append-nil (S.contents q.result_queue),
    append-nil q.processed,
    append-nil (S.contents r.result_queue),
    append-nil r.processed,
  )

  Consumed-Rested :
      {xs : List W} {q r s : Runner S} → Consumed xs q r → Rested r s → Consumed xs q s
  Consumed-Rested {xs} {q} {r} {s} a b =
      ground (arith, append-nil (S.contents r.result_queue), append-nil r.processed)

  Rested-Consumed :
      {xs : List W} {q r s : Runner S} → Rested q r → Consumed xs r s → Consumed xs q s
  Rested-Consumed {xs} {q} {r} {s} a b =
      ground (arith, append-nil (S.contents q.result_queue), append-nil q.processed)

  -- The end of a round takes two steps.
  finish :
      (r : Runner S)
      → r.worker ≡ looking
      → S.contents r.call_queue ≡ []
      → Rested r (work 2 r) × ((work 2 r).worker ≡ (if r.stop_requested then exited else blocked))
  unfolding work
  finish r w c =
      let a = finds_none r w c in
      let b = from_head (worker_step S r) a.1 in
      (Rested-trans a.0 b.0, b.1 ∙ ap (λ z. if z then exited else blocked) a.0.0.stop)

  -- From a call of consume_all in which `xs` are left to the next one.
  batch :
      (xs ys : List W) (nr : ℕ) (r : Runner S)
      → r.worker ≡ consuming nr (length xs)
      → S.contents r.call_queue ≡ xs ++ ys
      → length (S.contents r.result_queue) + length xs ≤ queue_size
      → Consumed xs r (work (length xs + 1) r)
        × ((work (length xs + 1) r).worker ≡ looking)
        × (S.contents (work (length xs + 1) r).call_queue ≡ ys)
  unfolding work
  batch xs ys nr r w c h =
      let (a, b, d) = consume_all xs ys nr r w c h in
      let e = returns (nr + length xs) (work (length xs) r) b in
      rw (work-add (length xs) 1 r) (Consumed-Rested a e.0, e.1, e.0.1 ∙ d)

  abbrev Rests : Runner S → Runner S → Type 0
  Rests r r' =
      (S.contents r'.call_queue ≡ []) × (r'.worker ≡ (if r.stop_requested then exited else blocked))

  stays_for :
      (n : ℕ) (r : Runner S)
      → (r.worker ≡ exited) ⊎ ((r.worker ≡ blocked) × (r.interrupter ≡ 0))
      → work n r ≡ r
  unfolding work
  stays_for zero r h = refl
  stays_for (suc n) r h = ap (work n) (stays r h) ∙ stays_for n r h

  Rests-rest :
      {xs : List W} (r r' : Runner S)
      → Consumed xs r r'
      → Rests r r'
      → (r.stop_requested ≡ true) ⊎ (r.interrupter ≡ 0)
      → (r'.worker ≡ exited) ⊎ ((r'.worker ≡ blocked) × (r'.interrupter ≡ 0))
  Rests-rest {xs} r r' c h i = ground arith

  -- A whole round: every call that waits, and the end.
  round :
      (xs : List W) (r : Runner S)
      → r.worker ≡ looking
      → S.contents r.call_queue ≡ xs
      → length (S.contents r.result_queue) + length xs ≤ queue_size
      → (r.stop_requested ≡ true) ⊎ (r.interrupter ≡ 0)
      → let r' = work (length xs + 4) r in Consumed xs r r' × Rests r r'
  unfolding work
  round [] r w c h i =
      let (a, b) = finish r w c in
      let rests : Rests r (work 2 r) = (a.1 ∙ c, b) in
      rw (stays_for 2 (work 2 r) (Rests-rest r (work 2 r) a.0 rests i)) (a.0, rests)
  round (x ∷ xs) r w c h i =
      let a = finds x xs r w c in
      let q = worker_step S r in
      let (b, d, e) =
        batch (x ∷ xs) [] 0 q a.1 (a.0.1 ∙ (c ∙ sym (append-nil (x ∷ xs))))
          (omega (arith, ap length a.0.0.results, length-append (S.contents r.result_queue) [])) in
      let m = suc (length xs) + 1 in
      let (f, g) = finish (work m q) d e in
      let steps : suc (m + 2) ≡ suc (length xs) + 4 = omega arith in
      let consumed = Rested-Consumed a.0 b in
      rw (← steps, work-add m 2 q)
        (
          Consumed-Rested consumed f,
          (f.1 ∙ e, g ∙ ap (λ z. if z then exited else blocked) consumed.stop),
        )

  woken :
      (r : Runner S)
      → r.worker ≡ blocked
      → 0 < r.interrupter
      → worker_step S r
        ≡ record r { worker = if r.stop_requested then exited else looking; interrupter = 0 }
  unfolding worker_step
  woken r w i = ground arith

  -- A sleeping worker that was signalled processes every call that waits, in order, puts the results
  -- behind those that are there, and sleeps again with the count cleared: in as many steps as there
  -- are calls, and five more. There must be room for the results.
  pub work-drains :
      (xs : List W) (r : Runner S)
      → r.worker ≡ blocked
      → 0 < r.interrupter
      → r.stop_requested ≡ false
      → S.contents r.call_queue ≡ xs
      → length (S.contents r.result_queue) + length xs ≤ queue_size
      → let r' = work (suc (length xs + 4)) r in
        (S.contents r'.call_queue ≡ [])
        × (S.contents r'.result_queue ≡ S.contents r.result_queue ++ xs)
        × (r'.processed ≡ r.processed ++ xs)
        × (r'.worker ≡ blocked)
        × (r'.interrupter ≡ 0)
  unfolding work
  work-drains xs r w i s c h = ground (arith, woken r w i, round xs (worker_step S r))

  work_exited : (n : ℕ) (r : Runner S) → r.worker ≡ exited → (work n r).worker ≡ exited
  unfolding work
  work_exited zero r e = e
  work_exited (suc n) r e =
      subst (λ q. (work n q).worker ≡ exited) (sym (stays r (inl e))) (work_exited n r e)

  leaves :
      (n : ℕ) (r : Runner S)
      → 0 < n
      → r.stop_requested ≡ true
      → (r.worker ≡ head) ⊎ ((r.worker ≡ blocked) × (0 < r.interrupter))
      → (work n r).worker ≡ exited
  unfolding work worker_step
  leaves zero r h s w = absurd (omega arith)
  leaves (suc n) r h s w = work_exited n (worker_step S r) (ground arith)

  stop_at :
      (xs : List W) (r : Runner S) (p : WorkerPoint)
      → p ≡ r.worker
      → S.contents r.call_queue ≡ xs
      → remaining p ≤ length xs
      → length (S.contents r.result_queue) + length xs ≤ queue_size
      → r.interrupter + 1 < 2 ^ 64
      → (work (length xs + 5) (request_stop S r)).worker ≡ exited
  unfolding request_stop
  stop_at xs r head e c f h k =
      leaves (length xs + 5) (request_stop S r) (omega arith) refl (inl (sym e))
  stop_at xs r blocked e c f h k =
      leaves (length xs + 5) (request_stop S r) (omega arith) refl (inr (sym e, omega arith))
  stop_at xs r exited e c f h k = work_exited (length xs + 5) (request_stop S r) (sym e)
  stop_at xs r looking e c f h k =
      let a = round xs (request_stop S r) (sym e) c h (inl refl) in
      let more : (length xs + 4) + 1 ≡ length xs + 5 = omega arith in
      rw (← more, work-add (length xs + 4) 1 (request_stop S r))
        (work_exited 1 (work (length xs + 4) (request_stop S r)) a.1.1)
  stop_at xs r (consuming nr left) e c f h k =
      let first = take left xs in
      let later = drop left xs in
      let parts : first ++ later ≡ xs = take-append-drop left xs in
      let found : length first ≡ left = omega (arith, length-take left xs) in
      let sizes : length first + length later ≡ length xs =
        sym (length-append first later) ∙ ap length parts in
      let q = request_stop S r in
      let (a, b, d) =
        batch first later nr q (sym e ∙ ap (consuming nr) (sym found)) (c ∙ sym parts)
          (omega arith) in
      let results_so_far = ap length a.results in
      let m = length first + 1 in
      let g =
        round later (work m q) b d (omega (arith, length-append (S.contents q.result_queue) first))
          (inl (a.stop ∙ refl)) in
      let steps : m + (length later + 4) ≡ length xs + 5 = omega arith in
      rw (← steps, work-add m (length later + 4) q)
        (g.1.1 ∙ ap (λ z. if z then exited else blocked) a.stop)

  -- The destructor ends the worker: wherever it stands, it has left `worker_run_` after as many steps
  -- as there are calls that it has not read, and five more. There must be at least as many of them as a
  -- call of consume_all has still to hand out, room for the results, and the eventfd's count must stay
  -- below 2^64.
  pub work-request_stop :
      (xs : List W) (r : Runner S)
      → S.contents r.call_queue ≡ xs
      → remaining r.worker ≤ length xs
      → length (S.contents r.result_queue) + length xs ≤ queue_size
      → r.interrupter + 1 < 2 ^ 64
      → (work (length xs + 5) (request_stop S r)).worker ≡ exited
  work-request_stop xs r c f h k = stop_at xs r r.worker refl c f h k
