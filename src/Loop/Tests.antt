-- ===== src/Loop/Tests.antt =====
-- A CPU that has polled everything once and sleeps.
use miniss.Base.{ℕ, ◌≡◌, refl, false, [], arith}
use miniss.Spsc.{Spsc, list_spsc}
use miniss.Unbounded.{capacity}
use miniss.CrossCpu
use miniss.CrossCpu.{CrossCpuQueue}
use miniss.Semaphore
use miniss.Syscall.Runner
use miniss.Syscall.Runner.{Runner, queue_size}
use miniss.Signal
use miniss.Signal.{SignalPoller, zero_word, is_zero}
use miniss.Idle
use miniss.Idle.{waiting}
use miniss.Loop.{
  LoopState, at_signals, at_rest, poll_signals, Reach, here, next, polls_signals, polls_source,
  goes_idle, checks, enters,
}
use miniss.Loop.Sources.{requests, results}
use miniss.Loop.Wakeups.{Reach-no_result_slept_over}

abbrev S : Spsc ℕ capacity
S = list_spsc ℕ capacity

abbrev fresh : CrossCpuQueue S
fresh = CrossCpu.init S 0 1

abbrev begun : LoopState (requests S)
begun = record {
  source = fresh;
  thread = Idle.start;
  stage = at_signals;
  active = false;
  woken = 0;
}

abbrev no_signal : SignalPoller ℕ
no_signal = record { pending_signals = zero_word; signal_handlers = [] }

abbrev polled : LoopState (requests S)
polled = record (poll_signals (requests S) 0 no_signal begun) { stage = at_rest }

abbrev calls : Spsc ℕ queue_size
calls = list_spsc ℕ queue_size

abbrev runner : Runner calls
runner = Runner.start calls

abbrev waits : LoopState (results calls)
waits = record {
  source = runner;
  thread = Idle.wait (Idle.check (Idle.mask polled.thread));
  stage = at_rest;
  active = false;
  woken = 0;
}

waits-Reach : Reach (results calls) waits
unfolding Runner.start Runner.poll_results Semaphore.init Semaphore.release Idle.start Idle.mask
    Idle.check Idle.wait poll_signals is_zero Signal.dispatch_all
waits-Reach =
    next
      (next
        (next
          (next (next (here runner) (polls_signals 0 no_signal refl refl refl (omega arith) refl))
            (polls_source runner false refl refl refl refl))
          (goes_idle refl refl refl refl))
        (checks refl refl))
      (enters refl refl)

Reach-no_result_slept_over_example : calls.contents waits.source.result_queue ≡ []
unfolding Runner.start Idle.start Idle.mask Idle.check Idle.wait poll_signals is_zero
    Signal.dispatch_all
Reach-no_result_slept_over_example = Reach-no_result_slept_over calls waits-Reach refl refl refl
