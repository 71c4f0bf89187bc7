-- ===== src/Handover/Atomic.antt =====
-- That push and flush are done as one step where nobody comes in between (lib/util/unbounded_spsc_queue.cpp).
use miniss.Base.{
  ◌-◌, take, drop, min, subst, sym, if◌then◌else◌, length-append, ℕ, zero, suc, ◌+◌, ◌≤◌, ◌≡◌, refl,
  ap, ◌∙◌, Bool, true, false, List, [], ◌∷◌, ◌++◌, length, ltb, ◌==◌, arith, Bool-cases, inl, inr,
}
use miniss.Spsc.{Spsc}
use miniss.Unbounded
use miniss.Unbounded.{Unbounded, capacity, batch, flush_loop}
use miniss.Unbounded.Fifo.{room, push_room, flush_lem, push_lem, contents-flush, contents-push}
use miniss.CrossCpu.{bump}
use miniss.Handover.{
  SenderPoint, outside, flushing, Handover, push, flush, behind_loop, sender_step, sender_steps,
}

module _ {I : Type 0} (S : Spsc I capacity) where
  abbrev pub at : Unbounded S → SenderPoint → ℕ → Handover S
  at u p w = record { queue_buffer = u.queue_buffer; queue = u.queue; sender = p; wakeups = w }

  -- Behind the loop.
  ends :
      (n w : ℕ) (u : Unbounded S)
      → (k : ℕ) × (k ≤ 1)
        × (sender_steps S k (at u (behind_loop n) w) ≡ at u outside (bump (ltb 0 n) w))
  unfolding sender_step sender_steps
  ends zero w u = (0, omega arith, refl)
  ends (suc n) w u = (1, omega arith, ground arith)

  abbrev after_loop : ℕ → Unbounded S × ℕ → Handover S
  after_loop w o = at o.0 outside (bump (ltb 0 o.1) w)

  -- The loop stops at a full queue.
  full_round :
      (x : I) (xs : List I) (q : S.Queue) (n w : ℕ)
      → (S.write_available q == 0) ≡ true
      → (sender_step S (at (record { queue_buffer = x ∷ xs; queue = q }) (flushing n) w)
          ≡ at (record { queue_buffer = x ∷ xs; queue = q }) (behind_loop n) w)
        × ((record { queue_buffer = x ∷ xs; queue = q }, n) ≡ flush_loop S (x ∷ xs) q n)
  unfolding sender_step flush_loop
  full_round x xs q n w h = ground arith

  push_round :
      (x : I) (xs : List I) (q : S.Queue) (n w : ℕ)
      → (S.write_available q == 0) ≡ false
      → (sender_step S (at (record { queue_buffer = x ∷ xs; queue = q }) (flushing n) w)
          ≡ at (record { queue_buffer = xs; queue = (S.push x q).0 }) (flushing (n + 1)) w)
        × (flush_loop S xs (S.push x q).0 (n + 1) ≡ flush_loop S (x ∷ xs) q n)
  unfolding sender_step flush_loop
  push_round x xs q n w h = ground arith

  loops :
      (xs : List I) (q : S.Queue) (n w : ℕ)
      → (k : ℕ) × (k ≤ length xs + 2)
        × (sender_steps S k (at (record { queue_buffer = xs; queue = q }) (flushing n) w)
            ≡ at (flush_loop S xs q n).0 outside (bump (ltb 0 (flush_loop S xs q n).1) w))
  unfolding sender_step sender_steps flush_loop
  loops [] q n w =
      let (k, le, e) = ends n w (record { queue_buffer = []; queue = q }) in
      (suc k, omega (arith, le), e)
  loops (x ∷ xs) q n w = elim (Bool-cases (S.write_available q == 0)) [
    | inl h ↦
        let (k, le, e) = ends n w (record { queue_buffer = x ∷ xs; queue = q }) in
        let (moves, same) = full_round x xs q n w h in
        (suc k, omega (arith, le), ap (sender_steps S k) moves ∙ (e ∙ ap (after_loop w) same))
    | inr h ↦
        let (k, le, e) = loops xs (S.push x q).0 (n + 1) w in
        let (moves, same) = push_round x xs q n w h in
        (suc k, omega (arith, le), ap (sender_steps S k) moves ∙ (e ∙ ap (after_loop w) same))
  ]

  abbrev pub buffers : Handover S → Unbounded S
  buffers h = record { queue_buffer = h.queue_buffer; queue = h.queue }

  abbrev after_call : ℕ → Unbounded S × Bool → Handover S
  after_call w o = at o.0 outside (bump o.1 w)

  -- When the receiver does not come in between, at most two more statements of the sender than it has
  -- items in its buffer bring a call of flush to its end, with exactly the result of the flush that is
  -- one step, and one wakeup if it moves anything; and the same holds for a push, with one item more.
  push_flush-atomic :
      (item : I) (h : Handover S)
      → h.sender ≡ outside
      → let (f, moved) = Unbounded.flush S (buffers h) in
        let (p, moved_on) = Unbounded.push S item (buffers h) in
        ((k : ℕ) × (k ≤ length h.queue_buffer + 2)
          × (sender_steps S k (flush S h) ≡ at f outside (bump moved h.wakeups)))
        × ((k : ℕ) × (k ≤ length h.queue_buffer + 3)
            × (sender_steps S k (push S item h) ≡ at p outside (bump moved_on h.wakeups)))
  unfolding Unbounded.flush Unbounded.push push flush sender_steps
  push_flush-atomic item h o =
      let b = h.queue_buffer ++ item ∷ [] in
      (
        loops h.queue_buffer h.queue 0 h.wakeups,
        elim (Bool-cases (ltb (length b) batch)) [
          | inl short ↦ (0, omega arith, ground arith)
          | inr long ↦
              let (k, le, e) = loops b h.queue 0 h.wakeups in
              let started : push S item h
                  ≡ at (record { queue_buffer = b; queue = h.queue }) (flushing 0) h.wakeups =
                ground arith in
              let o = flush_loop S b h.queue 0 in
              let same : (o.0, ltb 0 o.1) ≡ Unbounded.push S item (buffers h) = ground arith in
              (
                k,
                omega (arith, le, length-append h.queue_buffer (item ∷ [])),
                ap (sender_steps S k) started ∙ (e ∙ ap (after_call h.wakeups) same),
              )
        ],
      )

  -- The first `n` of the items `xs` are visible, the others are buffered, and there was one wakeup if any is.
  abbrev pub Moved : ℕ → List I → Handover S → Handover S → Type 0
  Moved n xs h g =
      (g.sender ≡ outside)
      × (S.contents g.queue ≡ S.contents h.queue ++ take n xs)
      × (g.queue_buffer ≡ drop n xs)
      × (g.wakeups ≡ h.wakeups + (if ltb 0 (min n (length xs)) then 1 else 0))

  flush-Moved :
      (h : Handover S)
      → let (f, moved) = Unbounded.flush S (buffers h) in
        Moved (room S h.queue) h.queue_buffer h (at f outside (bump moved h.wakeups))
  flush-Moved h =
      let (same, left, moved) = flush_lem S (buffers h) in
      (refl, contents-flush S (buffers h), left, ground arith)

  push-Moved :
      (item : I) (h : Handover S)
      → let (p, moved) = Unbounded.push S item (buffers h) in
        Moved
          (push_room S (length h.queue_buffer) h.queue)
          (h.queue_buffer ++ item ∷ [])
          h
          (at p outside (bump moved h.wakeups))
  push-Moved item h =
      let (same, left, moved) = push_lem S item (buffers h) in
      (
        refl,
        contents-push S item (buffers h),
        left,
        ground (arith, length-append h.queue_buffer (item ∷ [])),
      )

  -- When the receiver does not come in between, at most two more statements of the sender than it has
  -- items in its buffer bring a call of flush to its end: as many of the oldest items as the lock-free
  -- queue has room for stand in it, behind what it held, the others are buffered, and maybe_wakeup was
  -- called once if there was any. A push needs one statement more; while it makes fewer than eight
  -- buffered items, it moves none, and from eight on it moves as a flush does.
  pub push_flush-Moved :
      (item : I) (h : Handover S)
      → h.sender ≡ outside
      → let free = capacity - length (S.contents h.queue) in
        let some_free = if ltb (length h.queue_buffer + 1) batch then 0 else free in
        ((k : ℕ) × (k ≤ length h.queue_buffer + 2)
          × Moved free h.queue_buffer h (sender_steps S k (flush S h)))
        × ((k : ℕ) × (k ≤ length h.queue_buffer + 3)
            × Moved some_free (h.queue_buffer ++ item ∷ []) h (sender_steps S k (push S item h)))
  push_flush-Moved item h o =
      let ((k, k_few, flushed), (l, l_few, pushed)) = push_flush-atomic item h o in
      (
        (k, k_few, subst (Moved (room S h.queue) h.queue_buffer h) (sym flushed) (flush-Moved h)),
        (
          l,
          l_few,
          subst
              (Moved (push_room S (length h.queue_buffer) h.queue) (h.queue_buffer ++ item ∷ []) h)
              (sym pushed) (push-Moved item h),
        ),
      )
