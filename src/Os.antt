-- ===== src/Os.antt =====
-- OS of include/miniss/os.h and lib/os.cpp: the matrix of the Cross_cpu_queues, and its pollers.
pub mod Matrix
pub mod Polling
pub mod Assertions
pub mod Delivery
mod Tests
use miniss.Base.{
  ltb, ℕ, zero, suc, Bool, true, false, ◌&&◌, ◌||◌, Option, none, some, ◌==◌, if◌then◌else◌,
}
use miniss.Exceptions.{Outcome}
use miniss.Spsc.{Spsc}
use miniss.Unbounded.{capacity}
use miniss.CrossCpu
use miniss.CrossCpu.{CrossCpuQueue}

module _ {I : Type 0} (S : Spsc I capacity) where
  -- `queues_[i][j]`; the code has the entries below `cpu_count`, and reads no other.
  abbrev pub Queues : Type 0
  Queues = ℕ → ℕ → CrossCpuQueue S

  abbrev pub put : ℕ → ℕ → CrossCpuQueue S → Queues → Queues
  put i j c qs a b = if (i == a) && (j == b) then c else qs a b

  -- The loops of `init` that construct the queues.
  unfoldable pub init_queues : Queues
  init_queues i j = CrossCpu.init S i j

  -- `r |= queues_[i][j].op()` on the CPU `cpu`
  abbrev pub Operation : Type 0
  Operation = ℕ → CrossCpuQueue S → Option (CrossCpuQueue S × Bool)

  abbrev pub stored :
      ℕ → ℕ → Queues → Bool → Option (CrossCpuQueue S × Bool) → Option (Queues × Bool)
  stored i j qs r none = none
  stored i j qs r (some (c, b)) = some (put i j c qs, r || b)

  unfoldable pub call : Operation → ℕ → ℕ → ℕ → Queues × Bool → Option (Queues × Bool)
  call op cpu i j (qs, r) = stored i j qs r (op cpu (qs i j))

  infixl 5 ◌>>=◌
  abbrev ◌>>=◌ : {A B : Type 0} → Option A → (A → Option B) → Option B
  none >>= f = none
  some a >>= f = f a

  -- The body of the loop in `poll_queues`.
  unfoldable pub poll_pair : ℕ → ℕ → Queues × Bool → Option (Queues × Bool)
  poll_pair cpu i s = do
    a ← call (CrossCpu.flush_tx S) cpu cpu i s
    b ← call (CrossCpu.poll_rx S) cpu cpu i a
    c ← call (CrossCpu.flush_rx S) cpu i cpu b
    call (CrossCpu.poll_tx S) cpu i cpu c

  -- The rounds for the CPUs below `n`.
  unfoldable pub poll_below : ℕ → ℕ → Queues → Option (Queues × Bool)
  poll_below cpu zero qs = some (qs, false)
  poll_below cpu (suc n) qs = do
    s ← poll_below cpu n qs
    if n == cpu then some s else poll_pair cpu n s

  unfoldable pub poll_queues : ℕ → ℕ → Queues → Option (Queues × Bool)
  unfolding poll_below
  poll_queues cpu_count cpu qs = poll_below cpu cpu_count qs

  -- What `submit_to` leads to: a request to another CPU, or the outcome of the function, which is
  -- called on the spot.
  pub data Submission (A : Type 0) : Type 0 where
    requested : Option Queues → Submission A
    applied : Outcome A → Submission A

  abbrev sent : ℕ → ℕ → Queues → Option (CrossCpuQueue S) → Option Queues
  sent i j qs none = none
  sent i j qs (some c) = some (put i j c qs)

  -- Nothing checks that `cpu` is below `cpu_count`; an access beyond the matrix is no request.
  unfoldable pub submit_to : {A : Type 0} → ℕ → ℕ → ℕ → I → Outcome A → Queues → Submission A
  submit_to cpu_count this_cpu cpu item fn qs =
      if this_cpu == cpu
      then applied fn
      else if ltb cpu cpu_count
      then requested (sent this_cpu cpu qs (CrossCpu.submit S this_cpu item (qs this_cpu cpu)))
      else requested none
