-- ===== src/Remote.antt =====
-- A function that one CPU runs on another one: the work items of include/miniss/util/unbounded_spsc_queue.h
-- on their way through a Cross_cpu_queue (include/miniss/cross_cpu_queue.h, lib/cross_cpu_queue.cpp).
pub mod Outcomes
pub mod Trip
mod Tests
use miniss.Base.{ℕ, ◌≡◌, ◌==◌, Bool, Option, none, some, List, [], ◌∷◌, ◌++◌, if◌then◌else◌}
use miniss.Exceptions.{Outcome}
use miniss.Syscall.{ResultHolder, Completion}
use miniss.Spsc.{Spsc}
use miniss.Unbounded
use miniss.Unbounded.{capacity}
use miniss.CrossCpu
use miniss.CrossCpu.{CrossCpuQueue}
use miniss.WorkItem
use miniss.WorkItem.{process}

module _ {A : Type 0} where
  -- `ret_.emplace`
  abbrev pub emplace : ℕ → ResultHolder A → (ℕ → ResultHolder A) → ℕ → ResultHolder A
  emplace i x ret k = if i == k then x else ret k

  -- `complete()` of each item in turn.
  abbrev pub settle : (ℕ → ResultHolder A) → List ℕ → List (ℕ × Completion A)
  settle ret [] = []
  settle ret (i ∷ is) = (i, WorkItem.complete (ret i)) ∷ settle ret is

-- An item is a number, and a number is never used for two items. `ret` is the member `ret_` of each, and
-- `settled` a log of what `complete()` did to the promises.
module _ (A : Type 0) (S : Spsc ℕ capacity) where
  pub record Remote : Type 0 where
    pub queue : CrossCpuQueue S
    pub ret : ℕ → ResultHolder A
    pub settled : List (ℕ × Completion A)

  unfoldable pub construct : ℕ → ℕ → Remote
  construct i j = record {
    queue = CrossCpu.init S i j;
    ret = λ k. ResultHolder.monostate;
    settled = [];
  }

  abbrev pub with_queue : Remote → Option (CrossCpuQueue S) → Option Remote
  with_queue r none = none
  with_queue r (some q) = some (record r { queue = q })

  abbrev pub with_polled : Remote → Option (CrossCpuQueue S × Bool) → Option (Remote × Bool)
  with_polled r none = none
  with_polled r (some (q, b)) = some (record r { queue = q }, b)

  -- Cross_cpu_queue::submit_
  unfoldable pub submit : ℕ → ℕ → Remote → Option Remote
  submit cpu item r = with_queue r (CrossCpu.submit S cpu item r.queue)

  unfoldable pub flush_tx : ℕ → Remote → Option (Remote × Bool)
  flush_tx cpu r = with_polled r (CrossCpu.flush_tx S cpu r.queue)

  unfoldable pub flush_rx : ℕ → Remote → Option (Remote × Bool)
  flush_rx cpu r = with_polled r (CrossCpu.flush_rx S cpu r.queue)

  unfoldable pub poll_tx : ℕ → Remote → Option (Remote × Bool)
  poll_tx cpu r = with_polled r (CrossCpu.poll_tx S cpu r.queue)

  -- `item->complete()` for the items that the queue hands over.
  unfoldable pub poll_rx : ℕ → Remote → Option (Remote × Bool)
  poll_rx cpu r =
      let items = (Unbounded.process S r.queue.rx).1 in
      with_polled (record r { settled = r.settled ++ settle r.ret items })
        (CrossCpu.poll_rx S cpu r.queue)

  module _ (fn : ℕ → Outcome A) where
    -- The future of the item's function comes true: the continuation in `process` stores its outcome, and
    -- the one in `poll_tx` gives the item back; the two are one step. `left` are the other items that
    -- run.
    unfoldable pub come_true : ℕ → ℕ → List ℕ → Remote → Option Remote
    come_true cpu item left r =
        with_queue (record r { ret = emplace item (process (fn item)) r.ret })
          (CrossCpu.respond S cpu item left r.queue)

    -- The two CPUs' calls in any order.
    pub data Step (r r' : Remote) : Type 0 where
      submits : (item : ℕ) → submit r.queue.from item r ≡ some r' → Step r r'
      comes_true :
          (before : List ℕ) (item : ℕ) (after : List ℕ)
          → r.queue.running ≡ before ++ item ∷ after
          → come_true r.queue.to item (before ++ after) r ≡ some r'
          → Step r r'
      polls_tx : (b : Bool) → poll_tx r.queue.to r ≡ some (r', b) → Step r r'
      polls_rx : (b : Bool) → poll_rx r.queue.from r ≡ some (r', b) → Step r r'
      flushes_tx : (b : Bool) → flush_tx r.queue.from r ≡ some (r', b) → Step r r'
      flushes_rx : (b : Bool) → flush_rx r.queue.to r ≡ some (r', b) → Step r r'

    pub data Reach : Remote → Type 0 where
      here : (i j : ℕ) → Reach (construct i j)
      next : {r r' : Remote} → Reach r → Step r r' → Reach r'
