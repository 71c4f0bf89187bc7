-- ===== src/Os/Delivery.antt =====
-- How fast OS::poll_queues brings the messages of one CPU to another one (lib/os.cpp).
use miniss.Base.{
  ℕ, zero, suc, ◌+◌, ◌*◌, ◌<◌, ◌≡◌, ◌≢◌, refl, sym, ap, ◌∙◌, Bool, Option, none, some, List, [],
  ◌∷◌, ◌++◌, append_assoc, append-nil, take, take-nil, arith, subst,
}
use native.Mathlib.Nat.{zero-add, suc-add}
use miniss.Spsc.{Spsc}
use miniss.Unbounded.{capacity, batch}
use miniss.Unbounded.Fifo.{items, process-flush}
use miniss.CrossCpu.{CrossCpuQueue}
use miniss.Os.{Queues, poll_queues}
use miniss.Os.Polling.{
  WellFormed, Placed, round, sender_round, receiver_round, poll_queues-round, round-WellFormed,
}

-- A batch and then more of them.
take-split :
    {A : Type 0} (m n : ℕ) (xs ys : List A)
    → take m xs ++ ys ≡ xs
    → take (m + n) xs ≡ take m xs ++ take n ys
take-split zero n xs ys h = rw (zero-add, h) refl
take-split (suc m) n [] ys h = rw (suc-add, h) (sym (take-nil n))
take-split (suc m) n (x ∷ xs) ys h = rw suc-add (ap (◌∷◌ x) (take-split m n xs ys (cc)))

module _ {I : Type 0} (S : Spsc I capacity) where
  abbrev then_poll : ℕ → ℕ → Option (Queues S × Bool) → Option (Queues S × Bool)
  then_poll cpu_count b none = none
  then_poll cpu_count b (some (qs, found)) = poll_queues S cpu_count b qs

  -- CPU `a` calls poll_queues, and then CPU `b`.
  unfoldable pub turn : ℕ → ℕ → ℕ → Queues S → Option (Queues S × Bool)
  turn cpu_count a b qs = then_poll cpu_count b (poll_queues S cpu_count a qs)

  unfoldable pub turns : ℕ → ℕ → ℕ → ℕ → Queues S → Option (Queues S)
  turns cpu_count a b zero qs = some qs
  turns cpu_count a b (suc k) qs = elim (turn cpu_count a b qs) [
    | none ↦ none
    | some (qs', found) ↦ turns cpu_count a b k qs'
  ]

  turns-suc :
      (cpu_count a b k : ℕ) (qs next : Queues S) (found : Bool)
      → turn cpu_count a b qs ≡ some (next, found)
      → turns cpu_count a b (suc k) qs ≡ turns cpu_count a b k next
  unfolding turns
  turns-suc cpu_count a b k qs next found e = ground arith

  -- What a turn does to a queue from `a` to `b`, and to one from `b` to `a`.
  abbrev pub sent : CrossCpuQueue S → CrossCpuQueue S
  sent c = receiver_round S (sender_round S c)

  abbrev pub answered : CrossCpuQueue S → CrossCpuQueue S
  answered c = sender_round S (receiver_round S c)

  sent-takes :
      (c : CrossCpuQueue S)
      → ((sent c).started ≡ c.started ++ take batch (items S c.tx))
        × (take batch (items S c.tx) ++ items S (sent c).tx ≡ items S c.tx)
  unfolding sender_round receiver_round
  sent-takes c = let q = process-flush S c.tx in ground (arith, q)

  answered-takes :
      (c : CrossCpuQueue S)
      → ((answered c).completed ≡ c.completed ++ take batch (items S c.rx))
        × (take batch (items S c.rx) ++ items S (answered c).rx ≡ items S c.rx)
  unfolding sender_round receiver_round
  answered-takes c = let q = process-flush S c.rx in ground (arith, q)

  round-sender :
      (n cpu i : ℕ) (qs : Queues S)
      → cpu ≢ i
      → i < n
      → round S n cpu qs cpu i ≡ sender_round S (qs cpu i)
  round-sender n cpu i qs ne l = ground arith

  round-receiver :
      (n cpu i : ℕ) (qs : Queues S)
      → cpu ≢ i
      → i < n
      → round S n cpu qs i cpu ≡ receiver_round S (qs i cpu)
  round-receiver n cpu i qs ne l = ground arith

  module _ (cpu_count a b : ℕ) (ne : a ≢ b) (la : a < cpu_count) (lb : b < cpu_count) where
    turn-delivers :
        (qs : Queues S)
        → WellFormed S qs
        → (qs' : Queues S) × (found : Bool) × (turn cpu_count a b qs ≡ some (qs', found))
          × WellFormed S qs'
          × (qs' a b ≡ sent (qs a b))
          × (qs' b a ≡ answered (qs b a))
    unfolding turn
    turn-delivers qs w =
        let (s, e, f) = poll_queues-round S cpu_count a qs w in
        let v : WellFormed S s.0 =
          λ i j. subst (Placed S i j) (sym (f i j)) (round-WellFormed S cpu_count a qs w i j) in
        let (t, g, h) = poll_queues-round S cpu_count b s.0 v in
        (
          t.0,
          t.1,
          ground arith,
          λ i j. subst (Placed S i j) (sym (h i j)) (round-WellFormed S cpu_count b s.0 v i j),
          h a b
              ∙ (round-receiver cpu_count b a s.0 (λ e'. ne (sym e')) la
                  ∙ ap (receiver_round S) (f a b ∙ round-sender cpu_count a b qs ne lb)),
          h b a
              ∙ (round-sender cpu_count b a s.0 (λ e'. ne (sym e')) la
                  ∙ ap (sender_round S) (f b a ∙ round-receiver cpu_count a b qs ne lb)),
        )

    -- Where each queue of the matrix has its two CPUs: when two CPUs call poll_queues in turn, `k` times
    -- each, no assertion fails, and the second one starts the 8 * k oldest of the requests that the first
    -- one had submitted to it and that were not started, in order, or all if there are fewer; and in the
    -- same way the first one's answers to the second one's requests are completed.
    pub turns-deliver :
        (k : ℕ) (qs : Queues S)
        → WellFormed S qs
        → (qs' : Queues S) × (turns cpu_count a b k qs ≡ some qs')
          × ((qs' a b).started ≡ (qs a b).started ++ take (batch * k) (items S (qs a b).tx))
          × ((qs' b a).completed ≡ (qs b a).completed ++ take (batch * k) (items S (qs b a).rx))
    unfolding turns
    turns-deliver zero qs w =
        (qs, refl, sym (append-nil (qs a b).started), sym (append-nil (qs b a).completed))
    turns-deliver (suc k) qs w =
        let (next, found, e, v, x, y) = turn-delivers qs w in
        let (qs', f, i, j) = turns-deliver k next v in
        let p = sent-takes (qs a b) in
        let q = answered-takes (qs b a) in
        let more : batch * suc k ≡ batch + batch * k = omega arith in
        (
          qs',
          turns-suc cpu_count a b k qs next found e ∙ f,
          i
              ∙ (rw
                  (
                    x,
                    p.0,
                    more,
                    take-split batch (batch * k) (items S (qs a b).tx) (items S (sent (qs a b)).tx)
                        p.1,
                  )
                  (append_assoc (qs a b).started (take batch (items S (qs a b).tx))
                    (take (batch * k) (items S (sent (qs a b)).tx)))),
          j
              ∙ (rw
                  (
                    y,
                    q.0,
                    more,
                    take-split batch (batch * k) (items S (qs b a).rx)
                        (items S (answered (qs b a)).rx) q.1,
                  )
                  (append_assoc (qs b a).completed (take batch (items S (qs b a).rx))
                    (take (batch * k) (items S (answered (qs b a)).rx)))),
        )
