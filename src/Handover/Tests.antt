-- ===== src/Handover/Tests.antt =====
-- A receiver that sleeps, and a sender whose buffer is nearly full.
use miniss.Base.{◌++◌, ℕ, ◌≤◌, ◌≡◌, refl, false, [], ◌∷◌, arith}
use miniss.Spsc.{Spsc, list_spsc}
use miniss.Unbounded.{capacity}
use miniss.Signal
use miniss.Signal.{SignalPoller, zero_word, is_zero}
use miniss.Idle
use miniss.Idle.{waiting}
use miniss.Loop.{
  LoopState, at_signals, at_rest, poll_signals, Reach, here, next, polls_signals, polls_source,
  goes_idle, checks, enters, changes,
}
use miniss.Handover.{Handover, outside, push, flush, process, sender_steps, pushes}
use miniss.Handover.Atomic.{Moved, push_flush-Moved}
use miniss.Handover.Wakeups.{handovers, Reach-nothing_slept_over}

abbrev slots : Spsc ℕ capacity
slots = list_spsc ℕ capacity

abbrev seven : Handover slots
seven = record {
  queue_buffer = 1 ∷ 2 ∷ 3 ∷ 4 ∷ 5 ∷ 6 ∷ 7 ∷ [];
  queue = [];
  sender = outside;
  wakeups = 0;
}

push_flush-Moved_example :
    ((k : ℕ) × (k ≤ 9)
      × Moved slots 1024 seven.queue_buffer seven (sender_steps slots k (flush slots seven)))
    × ((k : ℕ) × (k ≤ 10)
        × Moved slots 1024
            (seven.queue_buffer ++ 8 ∷ [])
            seven
            (sender_steps slots k (push slots 8 seven)))
push_flush-Moved_example = push_flush-Moved slots 8 seven refl

abbrev six : Handover slots
six = record seven { queue_buffer = 1 ∷ 2 ∷ 3 ∷ 4 ∷ 5 ∷ 6 ∷ [] }

abbrev no_signal : SignalPoller ℕ
no_signal = record { pending_signals = zero_word; signal_handlers = [] }

abbrev polled : LoopState (handovers slots)
polled =
    record (poll_signals (handovers slots) 0 no_signal (record {
      source = six;
      thread = Idle.start;
      stage = at_signals;
      active = false;
      woken = 0;
    })) { stage = at_rest }

-- The seventh item comes while the receiver sleeps, and stays in the buffer.
abbrev asleep : LoopState (handovers slots)
asleep = record polled { source = seven; thread = Idle.wait (Idle.check (Idle.mask polled.thread)) }

asleep-Reach : Reach (handovers slots) asleep
unfolding push process Idle.start Idle.mask Idle.check Idle.wait Signal.dispatch_all poll_signals
    is_zero
asleep-Reach =
    next
      (next
        (next
          (next
            (next (next (here six) (polls_signals 0 no_signal refl refl refl (omega arith) refl))
              (polls_source six false refl refl refl refl))
            (goes_idle refl refl refl refl))
          (checks refl refl))
        (enters refl refl))
      (changes seven (pushes 7 refl refl) refl)

Reach-nothing_slept_over_example : slots.contents asleep.source.queue ≡ []
unfolding Idle.start Idle.mask Idle.check Idle.wait Signal.dispatch_all poll_signals is_zero
Reach-nothing_slept_over_example = Reach-nothing_slept_over slots asleep-Reach refl refl refl
