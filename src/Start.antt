-- ===== src/Start.antt =====
-- The start of the threads in OS::init of lib/os.cpp, with its three latches, for CPUs
-- whose construction succeeds.
pub mod Order
pub mod Invariant
pub mod Enabled
pub mod Safety
pub mod Progress
pub mod Signals
mod Tests
use miniss.Base.{
  ℕ, zero, suc, ◌+◌, ◌-◌, ◌<◌, ◌≡◌, Bool, true, false, List, [], ◌∷◌, ◌++◌, count, replicate,
}

-- Where a thread stands: not created yet; the main thread, while it creates the others; before and behind
-- start_cpu_; in cpu_constructed.arrive_and_wait(); the main thread, while it constructs the queues;
-- before and in queue_constructed.arrive_and_wait(); before and in started.arrive_and_wait(); behind it.
pub data Point : Type 0 where
  unborn spawning constructing constructed waits_constructed building at_built waits_built
        at_started waits_started running :
      Point

abbrev pub is_unborn : Point → Bool
is_unborn unborn = true
is_unborn _ = false

-- `cpus_[i]` is not set.
abbrev pub lacks_cpu : Point → Bool
lacks_cpu unborn = true
lacks_cpu spawning = true
lacks_cpu constructing = true
lacks_cpu _ = false

-- The thread is behind `init`, in CPU::run or on its way there.
abbrev pub is_running : Point → Bool
is_running running = true
is_running _ = false

-- The counts of the latches.
pub record Latches : Type 0 where
  pub cpu_constructed : ℕ
  pub queue_constructed : ℕ
  pub started : ℕ

-- `rows` counts the rows of `queues_` that are constructed.
pub record StartState : Type 0 where
  pub main : Point
  pub others : List Point
  pub rows : ℕ
  pub latches : Latches

unfoldable pub start : ℕ → StartState
start cpu_count = record {
  main = spawning;
  others = replicate (cpu_count - 1) unborn;
  rows = 0;
  latches = record {
    cpu_constructed = cpu_count;
    queue_constructed = cpu_count;
    started = cpu_count;
  };
}

-- A statement of a thread's own. `after` is where it goes behind the first latch. A wait ends when the
-- count is zero.
pub data Advance (after : Point) (l l' : Latches) (p p' : Point) : Type 0 where
  constructs : p ≡ constructing → p' ≡ constructed → l' ≡ l → Advance after l l' p p'
  arrives_constructed :
      p ≡ constructed
      → p' ≡ waits_constructed
      → l' ≡ record l { cpu_constructed = l.cpu_constructed - 1 }
      → Advance after l l' p p'
  passes_constructed :
      p ≡ waits_constructed → l.cpu_constructed ≡ 0 → p' ≡ after → l' ≡ l → Advance after l l' p p'
  arrives_built :
      p ≡ at_built
      → p' ≡ waits_built
      → l' ≡ record l { queue_constructed = l.queue_constructed - 1 }
      → Advance after l l' p p'
  passes_built :
      p ≡ waits_built → l.queue_constructed ≡ 0 → p' ≡ at_started → l' ≡ l → Advance after l l' p p'
  arrives_started :
      p ≡ at_started
      → p' ≡ waits_started
      → l' ≡ record l { started = l.started - 1 }
      → Advance after l l' p p'
  passes_started :
      p ≡ waits_started → l.started ≡ 0 → p' ≡ running → l' ≡ l → Advance after l l' p p'

-- A statement of any thread: its own, or one of the two loops of the main thread or the end of one.
pub data Step (cpu_count : ℕ) (s s' : StartState) : Type 0 where
  main_moves :
      (p : Point) (l : Latches)
      → Advance building s.latches l s.main p
      → s' ≡ record s { main = p; latches = l }
      → Step cpu_count s s'
  moves :
      (a b : List Point) (p p' : Point) (l : Latches)
      → s.others ≡ a ++ p ∷ b
      → Advance at_built s.latches l p p'
      → s' ≡ record s { others = a ++ p' ∷ b; latches = l }
      → Step cpu_count s s'
  spawns :
      (a b : List Point)
      → s.main ≡ spawning
      → s.others ≡ a ++ unborn ∷ b
      → s' ≡ record s { others = a ++ constructing ∷ b }
      → Step cpu_count s s'
  spawned :
      s.main ≡ spawning
      → count is_unborn s.others ≡ 0
      → s' ≡ record s { main = constructing }
      → Step cpu_count s s'
  builds :
      s.main ≡ building
      → s.rows < cpu_count
      → s' ≡ record s { rows = s.rows + 1 }
      → Step cpu_count s s'
  built :
      s.main ≡ building
      → s.rows ≡ cpu_count
      → s' ≡ record s { main = at_built }
      → Step cpu_count s s'

-- The states that a number of statements leads to.
pub data Reach (cpu_count : ℕ) : ℕ → StartState → Type 0 where
  here : Reach cpu_count 0 (start cpu_count)
  next :
      {n : ℕ} {s s' : StartState}
      → Reach cpu_count n s
      → Step cpu_count s s'
      → Reach cpu_count (suc n) s'
