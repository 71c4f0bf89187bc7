-- ===== src/CrossCpu/Rounds.antt =====
-- When the requests of a Cross_cpu_queue get on (lib/cross_cpu_queue.cpp).
use miniss.Base.{◌+◌, ◌≡◌, ◌⊎◌, Bool, some, ◌++◌, length, take, ltb, arith}
use miniss.Spsc.{Spsc}
use miniss.Unbounded
use miniss.Unbounded.{Unbounded, capacity, batch}
use miniss.Unbounded.Fifo.{flush-visible, push-visible, items, process-flush}
use miniss.CrossCpu.{CrossCpuQueue, bump, submit, poll_tx, flush_tx}

module _ {I : Type 0} (S : Spsc I capacity) where
  -- One flush by the sender and one poll by the receiver start the eight oldest requests that are not
  -- started yet, in order, or all if there are fewer; the others stay, in order.
  pub round_starts :
      (c : CrossCpuQueue S)
      → (c' : CrossCpuQueue S) × (d : CrossCpuQueue S) × (moved : Bool) × (started_any : Bool)
        × (flush_tx S c.from c ≡ some (c', moved))
        × (poll_tx S c'.to c' ≡ some (d, started_any))
        × (d.started ≡ c.started ++ take batch (items S c.tx))
        × (d.running ≡ c.running ++ take batch (items S c.tx))
        × (take batch (items S c.tx) ++ items S d.tx ≡ items S c.tx)
  unfolding flush_tx poll_tx
  round_starts c =
      let f = Unbounded.flush S c.tx in
      let p = Unbounded.process S f.0 in
      let c' : CrossCpuQueue S = record c { tx = f.0; to_wakeups = bump f.1 c.to_wakeups } in
      let q = process-flush S c.tx in
      (
        c',
        record c' { tx = p.0; running = c.running ++ p.1; started = c.started ++ p.1 },
        f.1,
        ltb 0 (length p.1),
        ground arith,
        ground arith,
        ground (arith, q),
        ground (arith, q),
        ground (arith, q),
      )

  -- No request becomes visible to the receiver without a wakeup: a call of `submit`, or of `flush_tx`,
  -- leaves the receiver's view of the queue as it is, or wakes the receiver once.
  pub submit_flush-wakes :
      (item : I) (moved : Bool) (c c' d : CrossCpuQueue S)
      → submit S c.from item c ≡ some c'
      → flush_tx S c.from c ≡ some (d, moved)
      → ((S.contents c'.tx.queue ≡ S.contents c.tx.queue) ⊎ (c'.to_wakeups ≡ c.to_wakeups + 1))
        × ((S.contents d.tx.queue ≡ S.contents c.tx.queue) ⊎ (d.to_wakeups ≡ c.to_wakeups + 1))
  unfolding submit flush_tx
  submit_flush-wakes item moved c c' d e f =
      (ground (arith, push-visible S item c.tx), ground (arith, flush-visible S c.tx))
