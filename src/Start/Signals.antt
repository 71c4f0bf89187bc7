-- ===== src/Start/Signals.antt =====
-- SIGALRM while the CPUs start: the mask that the constructor of Timer_service sets (lib/io/timer.cpp), the
-- registration by CPU::init_pollers_ (lib/cpu.cpp, lib/poller/signal_poller.cpp), and the wakeups and
-- timers that send the signal, beside the statements of OS::init.
pub mod Handled
use miniss.Base.{
  ℕ, ◌<◌, ◌≡◌, Bool, true, false, not, ◌&&◌, ◌||◌, Option, none, some, List, ◌∷◌, ◌==◌, get_elem?,
  if◌then◌else◌,
}
use miniss.Start
use miniss.Start.{Point, lacks_cpu, is_running, StartState, start}

-- How far a CPU's registration of the handler is: before sigaction, before pthread_sigmask, behind it.
pub data Stage : Type 0 where
  unregistered installed listening : Stage

abbrev pub is_listening : Stage → Bool
is_listening listening = true
is_listening _ = false

-- Thread 0 is the main thread. `handled` says that the disposition of SIGALRM in the process is
-- dispatch_signal, `pending` that the signal was sent to a thread and has not arrived, and `killed` that it
-- has arrived with its default disposition, which ends the program.
pub record SignalState : Type 0 where
  pub threads : StartState
  pub stage : ℕ → Stage
  pub handled : Bool
  pub pending : ℕ → Bool
  pub killed : Bool

abbrev pub point : SignalState → ℕ → Option Point
point s i = get_elem? (s.threads.main ∷ s.threads.others) i

abbrev pub satisfies : (Point → Bool) → Option Point → Bool
satisfies f none = false
satisfies f (some p) = f p

abbrev pub update : {A : Type 0} → ℕ → A → (ℕ → A) → ℕ → A
update i x f j = if i == j then x else f j

-- The signal reaches thread `i`: its CPU is not constructed, so that Timer_service has not blocked the
-- signal, or the registration has let it through.
unfoldable pub is_open : SignalState → ℕ → Bool
is_open s i = satisfies lacks_cpu (point s i) || is_listening (s.stage i)

unfoldable pub begin : ℕ → SignalState
begin cpu_count = record {
  threads = start cpu_count;
  stage = λ i. unregistered;
  handled = false;
  pending = λ i. false;
  killed = false;
}

-- `sigaction` in register_signal,
unfoldable pub install : ℕ → SignalState → SignalState
install i s = record s { handled = true; stage = update i installed s.stage }

-- and `pthread_sigmask(SIG_UNBLOCK, …)` behind it.
unfoldable pub unblock : ℕ → SignalState → SignalState
unblock i s = record s { stage = update i listening s.stage }

-- CPU::wakeup for CPU `j`, or the expiry of its timer.
unfoldable pub send : ℕ → SignalState → SignalState
send j s = record s { pending = update j true s.pending }

unfoldable pub arrive : ℕ → SignalState → SignalState
arrive j s = record s { pending = update j false s.pending; killed = s.killed || not s.handled }

-- Threads that have left `init` register the handler and send signals to any CPU.
pub data Step (cpu_count : ℕ) (s s' : SignalState) : Type 0 where
  starts :
      (t : StartState)
      → Start.Step cpu_count s.threads t
      → s' ≡ record s { threads = t }
      → Step cpu_count s s'
  installs :
      (i : ℕ)
      → satisfies is_running (point s i) ≡ true
      → s.stage i ≡ unregistered
      → s' ≡ install i s
      → Step cpu_count s s'
  unblocks : (i : ℕ) → s.stage i ≡ installed → s' ≡ unblock i s → Step cpu_count s s'
  sends :
      (i j : ℕ)
      → satisfies is_running (point s i) ≡ true
      → j < cpu_count
      → s' ≡ send j s
      → Step cpu_count s s'
  arrives :
      (j : ℕ) → s.pending j ≡ true → is_open s j ≡ true → s' ≡ arrive j s → Step cpu_count s s'

pub data Reach (cpu_count : ℕ) : SignalState → Type 0 where
  here : Reach cpu_count (begin cpu_count)
  next : {s s' : SignalState} → Reach cpu_count s → Step cpu_count s s' → Reach cpu_count s'
