-- ===== src/Unbounded.antt =====
-- Unbounded_spsc_queue of include/miniss/util/unbounded_spsc_queue.h and
-- lib/util/unbounded_spsc_queue.cpp: a buffer of any length before a lock-free queue of 1024.
pub mod Fifo
mod Tests
use miniss.Base.{ℕ, ◌+◌, Bool, false, List, [], ◌∷◌, ◌++◌, length, ltb, ◌==◌, if◌then◌else◌}
use miniss.Spsc.{Spsc}

abbrev pub capacity : ℕ
capacity = 1024

-- How many items the buffer takes before `push` flushes, and how many `process` takes at most.
abbrev pub batch : ℕ
batch = 8

module _ {T : Type 0} (S : Spsc T capacity) where
  pub record Unbounded : Type 0 where
    pub queue_buffer : List T
    pub queue : S.Queue

  unfoldable pub init : Unbounded
  init = record { queue_buffer = []; queue = S.empty }

  -- The loop of `flush` over the buffer, with its counter `n`. What `queue.push` returns is dropped.
  unfoldable pub flush_loop : List T → S.Queue → ℕ → Unbounded × ℕ
  flush_loop [] q n = (record { queue_buffer = []; queue = q }, n)
  flush_loop (x ∷ rest) q n =
      let more = flush_loop rest (S.push x q).0 (n + 1) in
      if S.write_available q == 0 then (record { queue_buffer = x ∷ rest; queue = q }, n) else more

  unfoldable pub flush : Unbounded → Unbounded × Bool
  flush u = let (u', n) = flush_loop u.queue_buffer u.queue 0 in (u', ltb 0 n)

  unfoldable pub push : T → Unbounded → Unbounded × Bool
  unfolding flush
  push item u =
      let u' : Unbounded = record u { queue_buffer = u.queue_buffer ++ item ∷ [] } in
      if ltb (length u'.queue_buffer) batch then (u', false) else flush u'

  -- `process(fn)` hands the items to `fn` in order; the list is what `fn` is called with, and its
  -- length is the result.
  unfoldable pub process : Unbounded → Unbounded × List T
  process u = let (q, items) = S.pop batch u.queue in (record u { queue = q }, items)
