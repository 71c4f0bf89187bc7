-- ===== src/Unbounded/Fifo.antt =====
-- The two stages of an Unbounded_spsc_queue (lib/util/unbounded_spsc_queue.cpp) as one queue.
use miniss.Base.{
  zero, suc, suc, ℕ, ◌+◌, ◌-◌, ◌≤◌, ◌≡◌, refl, ap, ◌∙◌, ◌≢◌, ◌⊎◌, inl, inr, Bool, true, List, [],
  ◌∷◌, ◌++◌, append-nil, append_assoc, length, length-append, take, drop, take-nil, drop-nil,
  take-cons, drop-cons, take-append-drop, min, length-take, arith, ltb, if◌then◌else◌,
}
use miniss.Spsc.{Spsc}
use miniss.Unbounded.{init, Unbounded, capacity, batch, flush, push, process, flush_loop}

module _ {T : Type 0} (S : Spsc T capacity) where
  -- Everything that was pushed and not yet processed, oldest first.
  abbrev pub items : Unbounded S → List T
  items u = S.contents u.queue ++ u.queue_buffer

  -- The room that is left in the lock-free queue.
  abbrev pub room : S.Queue → ℕ
  room q = capacity - length (S.contents q)

  -- What the loop has done to `q` and the buffer `xs`.
  record Flushed (xs : List T) (q : S.Queue) (n : ℕ) (out : Unbounded S × ℕ) : Type 0 where
    moved : S.contents out.0.queue ≡ S.contents q ++ take (room q) xs
    left : out.0.queue_buffer ≡ drop (room q) xs
    count : out.1 ≡ n + min (room q) (length xs)

  room-push :
      (x : T) (q : S.Queue)
      → room q ≢ 0
      → (room (S.push x q).0 ≡ room q - 1) × (S.contents (S.push x q).0 ≡ S.contents q ++ x ∷ [])
  room-push x q h =
      let pushed = (S.push-room x q (omega arith)).1 in
      (omega (arith, ap length pushed, length-append (S.contents q) (x ∷ [])), pushed)

  flush_loop-Flushed : (xs : List T) (q : S.Queue) (n : ℕ) → Flushed xs q n (flush_loop S xs q n)
  unfolding flush_loop
  flush_loop-Flushed [] q n =
      ground
        (arith, take-nil {A = T} (room q), drop-nil {A = T} (room q), append-nil (S.contents q))
  flush_loop-Flushed (x ∷ xs) q n = ground (
    arith,
    S.write_available_lem q,
    room-push x q,
    take-cons (room q) x xs,
    drop-cons (room q) x xs,
    flush_loop-Flushed xs (S.push x q).0 (n + 1),
    append_assoc (S.contents q) (x ∷ []) (take (room q - 1) xs),
    append-nil (S.contents q),
  )

  -- How many items a call of `push` that finds `n` in the buffer moves at most.
  abbrev pub push_room : ℕ → S.Queue → ℕ
  push_room n q = if ltb (n + 1) batch then 0 else room q

  regroup :
      (u : Unbounded S) (xs : List T)
      → (S.contents u.queue ++ take (room u.queue) xs) ++ drop (room u.queue) xs
        ≡ S.contents u.queue ++ xs
  regroup u xs =
      append_assoc (S.contents u.queue) (take (room u.queue) xs) (drop (room u.queue) xs)
      ∙ ap (◌++◌ (S.contents u.queue)) (take-append-drop (room u.queue) xs)

  -- `flush` moves as many items as there is room for from the front of the buffer to the end of the
  -- lock-free queue, keeps all items in order, and returns whether it moved any.
  pub flush_lem :
      (u : Unbounded S)
      → let (u', moved) = flush S u in
        (items u' ≡ items u)
        × (u'.queue_buffer ≡ drop (room u.queue) u.queue_buffer)
        × (moved ≡ ltb 0 (min (room u.queue) (length u.queue_buffer)))
  unfolding flush
  flush_lem u =
      ground (arith, flush_loop-Flushed u.queue_buffer u.queue 0, regroup u u.queue_buffer)

  -- `push` adds the item behind all others. While fewer than eight items are buffered it makes
  -- nothing visible to the consumer and returns false; from eight on it moves what there is room for,
  -- and returns whether there was any.
  pub push_lem :
      (x : T) (u : Unbounded S)
      → let (u', moved) = push S x u in
        let k = push_room (length u.queue_buffer) u.queue in
        (items u' ≡ items u ++ x ∷ [])
        × (u'.queue_buffer ≡ drop k (u.queue_buffer ++ x ∷ []))
        × (moved ≡ ltb 0 k)
  unfolding push flush
  push_lem x u = ground (
    arith,
    length-append u.queue_buffer (x ∷ []),
    flush_loop-Flushed (u.queue_buffer ++ x ∷ []) u.queue 0,
    regroup u (u.queue_buffer ++ x ∷ []),
    append_assoc (S.contents u.queue) u.queue_buffer (x ∷ []),
  )

  -- `process` hands over the oldest items, at most eight, in order; together with what it leaves
  -- they are what the lock-free queue held, and what is still buffered by the producer stays.
  pub process_lem :
      (u : Unbounded S)
      → let (u', xs) = process S u in
        (xs ++ items u' ≡ items u)
        × (length xs ≡ min batch (length (S.contents u.queue)))
        × (u'.queue_buffer ≡ u.queue_buffer)
  unfolding process
  process_lem u = ground (
    arith,
    S.pop_lem batch u.queue,
    take-append-drop batch (S.contents u.queue),
    length-take batch (S.contents u.queue),
    append_assoc (take batch (S.contents u.queue)) (drop batch (S.contents u.queue)) u.queue_buffer,
  )

  take-take : (m n : ℕ) (xs : List T) → m ≤ n → take m (take n xs) ≡ take m xs
  take-take zero n xs h = refl
  take-take (suc m) zero xs h = absurd (omega arith)
  take-take (suc m) (suc n) [] h = refl
  take-take (suc m) (suc n) (x ∷ xs) h = ap (◌∷◌ x) (take-take m n xs (omega arith))

  process-take : (u : Unbounded S) → (process S u).1 ≡ take batch (S.contents u.queue)
  unfolding process
  process-take u = (S.pop_lem batch u.queue).0

  take-take-append :
      (m n : ℕ) (xs ys : List T)
      → m ≤ n
      → take m (xs ++ take (n - length xs) ys) ≡ take m (xs ++ ys)
  take-take-append zero n xs ys h = refl
  take-take-append (suc m) n [] ys h = take-take (suc m) (n - 0) ys (omega arith)
  take-take-append (suc m) zero (x ∷ xs) ys h = absurd (omega arith)
  take-take-append (suc m) (suc n) (x ∷ xs) ys h =
      let e : suc n - length (x ∷ xs) ≡ n - length xs = omega arith in
      rw e (ap (◌∷◌ x) (take-take-append m n xs ys (omega arith)))

  pub contents-flush :
      (u : Unbounded S)
      → S.contents (flush S u).0.queue ≡ S.contents u.queue ++ take (room u.queue) u.queue_buffer
  unfolding flush
  contents-flush u = ground (arith, flush_loop-Flushed u.queue_buffer u.queue 0)

  -- A flush by the producer and then a call of `process` by the consumer hand over the eight oldest
  -- items, whether they were still buffered or not, or all if there are fewer; no other item is lost.
  pub process-flush :
      (u : Unbounded S)
      → let (u', xs) = process S (flush S u).0 in
        (xs ≡ take batch (items u)) × (xs ++ items u' ≡ items u)
  process-flush u =
      let p = process_lem (flush S u).0 in
      let f = flush_lem u in
      (
        process-take (flush S u).0
            ∙ (rw (contents-flush u) (
                take-take-append batch capacity (S.contents u.queue) u.queue_buffer (omega arith))),
        p.0 ∙ f.0,
      )

  pub init-items : items (init S) ≡ []
  unfolding init
  init-items = ground (arith, S.contents-empty)

  -- What `push` makes visible to the consumer.
  pub contents-push :
      (x : T) (u : Unbounded S)
      → S.contents (push S x u).0.queue
        ≡ S.contents u.queue
          ++ take (push_room (length u.queue_buffer) u.queue) (u.queue_buffer ++ x ∷ [])
  unfolding push flush
  contents-push x u = ground (
    arith,
    length-append u.queue_buffer (x ∷ []),
    append-nil (S.contents u.queue),
    flush_loop-Flushed (u.queue_buffer ++ x ∷ []) u.queue 0,
  )

  take-silent :
      (cs xs : List T) (k : ℕ) (b : Bool)
      → b ≡ ltb 0 (min k (length xs))
      → (cs ++ take k xs ≡ cs) ⊎ (b ≡ true)
  take-silent cs xs zero b e = inl (append-nil cs)
  take-silent cs [] (suc k) b e = inl (append-nil cs)
  take-silent cs (x ∷ xs) (suc k) b e = inr (ground arith)

  -- What the consumer does not learn of by the result, it cannot see.
  pub push-visible :
      (x : T) (u : Unbounded S)
      → (S.contents (push S x u).0.queue ≡ S.contents u.queue) ⊎ ((push S x u).1 ≡ true)
  push-visible x u = rw (contents-push x u) (
      take-silent (S.contents u.queue) (u.queue_buffer ++ x ∷ [])
        (push_room (length u.queue_buffer) u.queue) (push S x u).1
        (ground (arith, push_lem x u, length-append u.queue_buffer (x ∷ []))))

  pub flush-visible :
      (u : Unbounded S)
      → (S.contents (flush S u).0.queue ≡ S.contents u.queue) ⊎ ((flush S u).1 ≡ true)
  flush-visible u = rw (contents-flush u) (
      take-silent (S.contents u.queue) u.queue_buffer (room u.queue) (flush S u).1
        ((flush_lem u).2))
