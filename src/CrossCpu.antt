-- ===== src/CrossCpu.antt =====
-- Cross_cpu_queue of include/miniss/cross_cpu_queue.h and lib/cross_cpu_queue.cpp: requests from one
-- CPU to another, and their answers. `I` is the type of the pointers to work items. An operation takes
-- the number of the CPU that calls it; `none` is a failed assertion.
pub mod Items
pub mod Rounds
mod Tests
use miniss.Base.{
  ℕ, suc, ◌+◌, ◌≡◌, Bool, true, false, Option, none, some, List, [], ◌∷◌, ◌++◌, length, ltb, ◌==◌,
  if◌then◌else◌,
}
use miniss.Spsc.{Spsc}
use miniss.Unbounded
use miniss.Unbounded.{Unbounded, capacity}

-- A counter that grows where the flag is set.
abbrev pub bump : Bool → ℕ → ℕ
bump true n = n + 1
bump false n = n

module _ {I : Type 0} (S : Spsc I capacity) where
  -- `running` are the items whose `process()` has not come true. `wakeups` counts the calls of
  -- maybe_wakeup on each side. The last four fields are a log of the items.
  pub record CrossCpuQueue : Type 0 where
    pub from : ℕ
    pub to : ℕ
    pub tx : Unbounded S
    pub rx : Unbounded S
    pub running : List I
    pub to_wakeups : ℕ
    pub from_wakeups : ℕ
    pub submitted : List I
    pub started : List I
    pub responded : List I
    pub completed : List I

  unfoldable pub init : ℕ → ℕ → CrossCpuQueue
  init i j = record {
    from = i;
    to = j;
    tx = Unbounded.init S;
    rx = Unbounded.init S;
    running = [];
    to_wakeups = 0;
    from_wakeups = 0;
    submitted = [];
    started = [];
    responded = [];
    completed = [];
  }

  unfoldable pub submit : ℕ → I → CrossCpuQueue → Option CrossCpuQueue
  submit cpu item c =
      let (tx', moved) = Unbounded.push S item c.tx in
      if cpu == c.from
      then some (record c {
        tx = tx';
        to_wakeups = bump moved c.to_wakeups;
        submitted = c.submitted ++ item ∷ [];
      })
      else none

  -- `respond_(item)`, the continuation behind `item->process()`; `left` are the items that go on.
  unfoldable pub respond : ℕ → I → List I → CrossCpuQueue → Option CrossCpuQueue
  respond cpu item left c =
      let (rx', moved) = Unbounded.push S item c.rx in
      if cpu == c.to
      then some (record c {
        rx = rx';
        running = left;
        from_wakeups = bump moved c.from_wakeups;
        responded = c.responded ++ item ∷ [];
      })
      else none

  unfoldable pub poll_tx : ℕ → CrossCpuQueue → Option (CrossCpuQueue × Bool)
  poll_tx cpu c =
      let (tx', items) = Unbounded.process S c.tx in
      if cpu == c.to
      then some (
        record c { tx = tx'; running = c.running ++ items; started = c.started ++ items },
        ltb 0 (length items),
      )
      else none

  unfoldable pub poll_rx : ℕ → CrossCpuQueue → Option (CrossCpuQueue × Bool)
  poll_rx cpu c =
      let (rx', items) = Unbounded.process S c.rx in
      if cpu == c.from
      then some (record c { rx = rx'; completed = c.completed ++ items }, ltb 0 (length items))
      else none

  unfoldable pub flush_tx : ℕ → CrossCpuQueue → Option (CrossCpuQueue × Bool)
  flush_tx cpu c =
      let (tx', moved) = Unbounded.flush S c.tx in
      if cpu == c.from
      then some (record c { tx = tx'; to_wakeups = bump moved c.to_wakeups }, moved)
      else none

  unfoldable pub flush_rx : ℕ → CrossCpuQueue → Option (CrossCpuQueue × Bool)
  flush_rx cpu c =
      let (rx', moved) = Unbounded.flush S c.rx in
      if cpu == c.to
      then some (record c { rx = rx'; from_wakeups = bump moved c.from_wakeups }, moved)
      else none

  -- The two CPUs' calls in any order. The futures of running items come true in any order.
  pub data Step (c c' : CrossCpuQueue) : Type 0 where
    submits : (item : I) → submit c.from item c ≡ some c' → Step c c'
    responds :
        (before : List I) (item : I) (after : List I)
        → c.running ≡ before ++ item ∷ after
        → respond c.to item (before ++ after) c ≡ some c'
        → Step c c'
    polls_tx : (b : Bool) → poll_tx c.to c ≡ some (c', b) → Step c c'
    polls_rx : (b : Bool) → poll_rx c.from c ≡ some (c', b) → Step c c'
    flushes_tx : (b : Bool) → flush_tx c.from c ≡ some (c', b) → Step c c'
    flushes_rx : (b : Bool) → flush_rx c.to c ≡ some (c', b) → Step c c'

  pub data Reach : CrossCpuQueue → Type 0 where
    here : (i j : ℕ) → Reach (init i j)
    next : {c c' : CrossCpuQueue} → Reach c → Step c c' → Reach c'
