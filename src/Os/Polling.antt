-- ===== src/Os/Polling.antt =====
-- What a call of OS::poll_queues does to the queues (lib/os.cpp).
use miniss.Base.{
  ◌∙◌, subst, ℕ, zero, suc, ◌≡◌, ◌≢◌, refl, sym, ap, Bool, false, ◌||◌, some, ◌++◌, length, ltb,
  ◌==◌, arith, inl, inr, Bool-cases,
}
use miniss.Spsc.{Spsc}
use miniss.Unbounded
use miniss.Unbounded.{capacity}
use miniss.CrossCpu.{CrossCpuQueue, bump, flush_tx, poll_rx, flush_rx, poll_tx}
use miniss.Os.{Queues, put, call, poll_pair, poll_below, poll_queues}
use miniss.Os.Matrix.{
  round_with, PairedWith, round_with-zero, round_with-skip, round_with-fresh, round_with-suc,
}

module _ {I : Type 0} (S : Spsc I capacity) where
  -- The queue of the matrix at `i`, `j` leads from CPU `i` to CPU `j`.
  abbrev pub Placed : ℕ → ℕ → CrossCpuQueue S → Type 0
  Placed i j c = (c.from ≡ i) × (c.to ≡ j)

  abbrev pub WellFormed : Queues S → Type 0
  WellFormed qs = (i j : ℕ) → Placed i j (qs i j)

  -- What the sender's and the receiver's part of a round make of a queue.
  unfoldable pub sender_round : CrossCpuQueue S → CrossCpuQueue S
  sender_round c =
      let (tx', moved) = Unbounded.flush S c.tx in
      let (rx', items) = Unbounded.process S c.rx in
      record c {
        tx = tx';
        rx = rx';
        to_wakeups = bump moved c.to_wakeups;
        completed = c.completed ++ items;
      }

  unfoldable pub receiver_round : CrossCpuQueue S → CrossCpuQueue S
  receiver_round c =
      let (rx', moved) = Unbounded.flush S c.rx in
      let (tx', items) = Unbounded.process S c.tx in
      record c {
        tx = tx';
        rx = rx';
        running = c.running ++ items;
        from_wakeups = bump moved c.from_wakeups;
        started = c.started ++ items;
      }

  put_self : (i j : ℕ) (c : CrossCpuQueue S) (qs : Queues S) → put S i j c qs i j ≡ c
  put_self i j c qs = ground arith

  sender_calls :
      (cpu i : ℕ) (qs : Queues S) (r : Bool)
      → Placed cpu i (qs cpu i)
      → (s : Queues S × Bool) × (x : CrossCpuQueue S) × (y : Bool) × (call S
            (flush_tx S)
            cpu
            cpu
            i
            (qs, r)
          ≡ some (put S cpu i x qs, y))
        × (call S (poll_rx S) cpu cpu i (put S cpu i x qs, y) ≡ some s)
        × (s.0 ≡ put S cpu i (sender_round (qs cpu i)) (put S cpu i x qs))
  unfolding call flush_tx poll_rx sender_round
  sender_calls cpu i qs r p =
      let c = qs cpu i in
      let f = Unbounded.flush S c.tx in
      let x : CrossCpuQueue S = record c { tx = f.0; to_wakeups = bump f.1 c.to_wakeups } in
      let n = length (Unbounded.process S c.rx).1 in
      (
        (put S cpu i (sender_round c) (put S cpu i x qs), (r || f.1) || ltb 0 n),
        x,
        r || f.1,
        ground arith,
        ground (arith, put_self cpu i x qs),
        refl,
      )

  receiver_calls :
      (cpu i : ℕ) (qs : Queues S) (r : Bool)
      → Placed i cpu (qs i cpu)
      → (s : Queues S × Bool) × (x : CrossCpuQueue S) × (y : Bool) × (call S
            (flush_rx S)
            cpu
            i
            cpu
            (qs, r)
          ≡ some (put S i cpu x qs, y))
        × (call S (poll_tx S) cpu i cpu (put S i cpu x qs, y) ≡ some s)
        × (s.0 ≡ put S i cpu (receiver_round (qs i cpu)) (put S i cpu x qs))
  unfolding call flush_rx poll_tx receiver_round
  receiver_calls cpu i qs r p =
      let c = qs i cpu in
      let f = Unbounded.flush S c.rx in
      let x : CrossCpuQueue S = record c { rx = f.0; from_wakeups = bump f.1 c.from_wakeups } in
      let n = length (Unbounded.process S c.tx).1 in
      (
        (put S i cpu (receiver_round c) (put S i cpu x qs), (r || f.1) || ltb 0 n),
        x,
        r || f.1,
        ground arith,
        ground (arith, put_self i cpu x qs),
        refl,
      )

  abbrev pub round : ℕ → ℕ → Queues S → Queues S
  round n cpu qs = round_with sender_round receiver_round n cpu qs

  pub round-WellFormed : (n cpu : ℕ) (qs : Queues S) → WellFormed qs → WellFormed (round n cpu qs)
  unfolding sender_round receiver_round
  round-WellFormed n cpu qs w a b = let v = w a b in ground arith

  abbrev Paired : ℕ → ℕ → Queues S → Queues S → Type 0
  Paired cpu i qs qs' = PairedWith sender_round receiver_round cpu i qs qs'

  pair_at :
      (cpu i : ℕ) (qs qs' : Queues S) (x x' : CrossCpuQueue S)
      → i ≢ cpu
      → qs' ≡ put S cpu i (sender_round (qs cpu i)) (put S cpu i x qs)
      → Paired cpu i qs (put S i cpu (receiver_round (qs' i cpu)) (put S i cpu x' qs'))
  pair_at cpu i qs qs' x x' ne e a b =
      let here : qs' a b ≡ put S cpu i (sender_round (qs cpu i)) (put S cpu i x qs) a b =
        ap (λ q. q a b) e in
      let there : qs' i cpu ≡ put S cpu i (sender_round (qs cpu i)) (put S cpu i x qs) i cpu =
        ap (λ q. q i cpu) e in
      ground arith

  poll_pair_lem :
      (cpu i : ℕ) (qs : Queues S) (r : Bool)
      → Placed cpu i (qs cpu i)
      → Placed i cpu (qs i cpu)
      → i ≢ cpu
      → (s : Queues S × Bool) × (poll_pair S cpu i (qs, r) ≡ some s) × Paired cpu i qs s.0
  unfolding poll_pair
  poll_pair_lem cpu i qs r p q ne =
      let first = sender_calls cpu i qs r p in
      let s = first.0 in
      let same : s.0 i cpu ≡ qs i cpu = rw (first.5) (ground arith) in
      let second = receiver_calls cpu i s.0 s.1 (rw same q) in
      (
        second.0,
        ground (arith, first.3, first.4, second.3, second.4),
        subst (Paired cpu i qs) (sym (second.5)) (pair_at cpu i qs s.0 first.1 second.1 ne first.5),
      )

  eq_ne : (n cpu : ℕ) → n ≡ cpu → (n == cpu) ≡ false → ⊥
  eq_ne n cpu e h = ground arith

  -- One more CPU behind the first `n`.
  poll_suc :
      (cpu n : ℕ) (qs : Queues S)
      → WellFormed qs
      → n ≢ cpu
      → ((s : Queues S × Bool) × (poll_below S cpu n qs ≡ some s)
          × ((a b : ℕ) → s.0 a b ≡ round n cpu qs a b))
      → (s : Queues S × Bool) × (poll_below S cpu (suc n) qs ≡ some s)
        × ((a b : ℕ) → s.0 a b ≡ round (suc n) cpu qs a b)
  unfolding poll_below
  poll_suc cpu n qs w ne (s, e, f) =
      let fresh = round_with-fresh sender_round receiver_round n cpu qs ne in
      let out : s.0 cpu n ≡ qs cpu n = f cpu n ∙ fresh.0 in
      let back : s.0 n cpu ≡ qs n cpu = f n cpu ∙ fresh.1 in
      let pair = poll_pair_lem cpu n s.0 s.1 (rw out (w cpu n)) (rw back (w n cpu)) ne in
      let other : (n == cpu) ≡ false = ground arith in
      (
        pair.0,
        rw (e, other) pair.1,
        λ a b. round_with-suc sender_round receiver_round n cpu a b qs s.0 pair.0.0 ne f pair.2,
      )

  poll_below_lem :
      (cpu n : ℕ) (qs : Queues S)
      → WellFormed qs
      → (s : Queues S × Bool) × (poll_below S cpu n qs ≡ some s)
        × ((a b : ℕ) → s.0 a b ≡ round n cpu qs a b)
  unfolding poll_below
  poll_below_lem cpu zero qs w =
      ((qs, false), refl, λ a b. round_with-zero sender_round receiver_round cpu a b qs)
  poll_below_lem cpu (suc n) qs w =
      let rest = poll_below_lem cpu n qs w in
      elim (Bool-cases (n == cpu)) [
        | inl h ↦ (
          rest.0,
          rw (rest.1, h),
          λ a b.
              rest.2 a b ∙ round_with-skip sender_round receiver_round n cpu a b qs (ground arith),
        )
        | inr h ↦ poll_suc cpu n qs w (λ e. eq_ne n cpu e h) rest
      ]

  -- Where each queue of the matrix has its two CPUs, a call of `poll_queues` on CPU `cpu` of
  -- `cpu_count` fails no assertion. As the sender it flushes its requests to every other CPU and
  -- completes the answers that are visible, at most eight for each; as the receiver it flushes its
  -- answers and starts the visible requests of every other CPU, at most eight for each; and it
  -- changes no other queue.
  pub poll_queues-round :
      (cpu_count cpu : ℕ) (qs : Queues S)
      → WellFormed qs
      → (s : Queues S × Bool) × (poll_queues S cpu_count cpu qs ≡ some s)
        × ((a b : ℕ) → s.0 a b ≡ round cpu_count cpu qs a b)
  unfolding poll_queues
  poll_queues-round cpu_count cpu qs w = poll_below_lem cpu cpu_count qs w
