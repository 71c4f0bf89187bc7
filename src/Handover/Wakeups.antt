-- ===== src/Handover/Wakeups.antt =====
-- That the receiver sleeps over nothing that the sender hands over (lib/cpu.cpp, lib/cross_cpu_queue.cpp).
use miniss.Base.{
  ℕ, zero, suc, ◌≤◌, ◌<◌, ◌≡◌, ◌⊎◌, refl, sym, Bool, true, false, List, [], ◌∷◌, arith, is_empty,
  subst,
}
use miniss.Spsc.{Spsc}
use miniss.Unbounded.{capacity, batch}
use miniss.Idle.{waiting}
use miniss.Loop.{Source, LoopState, Reach}
use miniss.Loop.Sleep.{Reach-sleeps_idle_source}
use miniss.Loop.Wakeups.{nil_of_is_empty}
use miniss.Loop.Sources.{pop-is_empty, popped-is_empty}
use miniss.Handover.{
  SenderPoint, outside, before_wakeup, flushing, Handover, push, flush, loop_round, sender_step,
  process, Step, pushes, flushes, sends, takes,
}

-- The sender has pushed items and not called maybe_wakeup for them yet.
abbrev pub owes : SenderPoint → Bool
owes outside = false
owes before_wakeup = true
owes (flushing zero) = false
owes (flushing (suc n)) = true

module _ {I : Type 0} (S : Spsc I capacity) where
  abbrev pub nothing_visible : Handover S → Bool
  nothing_visible h = is_empty (S.contents h.queue)

  abbrev pub Wakes : Handover S → Handover S → Type 0
  Wakes x y =
      ((nothing_visible x ≡ true → nothing_visible y ≡ true)
        ⊎ (owes y.sender ≡ true)
        ⊎ (x.wakeups < y.wakeups))
      × (owes x.sender ≡ true → (owes y.sender ≡ true) ⊎ (x.wakeups < y.wakeups))
      × (x.wakeups ≤ y.wakeups)

  loop_round-Wakes :
      (n : ℕ) (xs : List I) (x : Handover S) → flushing n ≡ x.sender → Wakes x (loop_round S n xs x)
  loop_round-Wakes zero [] x e = ground arith
  loop_round-Wakes (suc n) [] x e = ground arith
  loop_round-Wakes zero (i ∷ xs) x e = ground arith
  loop_round-Wakes (suc n) (i ∷ xs) x e = ground arith

  sender_step-Wakes : (x : Handover S) (p : SenderPoint) → p ≡ x.sender → Wakes x (sender_step S x)
  unfolding sender_step
  sender_step-Wakes x outside e = ground arith
  sender_step-Wakes x before_wakeup e = ground arith
  sender_step-Wakes x (flushing n) e = ground (arith, loop_round-Wakes n x.queue_buffer x e)

  pub step-Wakes : (x y : Handover S) → Step S x y → Wakes x y
  unfolding push flush process
  step-Wakes x y (pushes item o e) = ground arith
  step-Wakes x y (flushes o e) = ground arith
  step-Wakes x y (sends e) = subst (Wakes x) (sym e) (sender_step-Wakes x x.sender refl)
  step-Wakes x y (takes found e) = ground (arith, pop-is_empty S batch x.queue)

  pub process-finds :
      (x y : Handover S) (found : Bool)
      → process S x ≡ (y, found)
      → (found ≡ false → nothing_visible y ≡ true)
        × (owes y.sender ≡ owes x.sender)
        × (y.wakeups ≡ x.wakeups)
  unfolding process
  process-finds x y found e = ground (arith, popped-is_empty S batch x.queue)

  abbrev pub handovers : Source
  handovers = record {
    State = Handover S;
    is_idle = nothing_visible;
    wakeups = λ h. h.wakeups;
    owes = λ h. owes h.sender;
    Change = Step S;
    Look = λ x y found. process S x ≡ (y, found);
    change-wakes = step-Wakes;
    look-finds = process-finds;
  }

  -- However the statements of the sender, in push, flush and up to maybe_wakeup, the signals, and the
  -- statements of the receiver's loop interleave: while the receiver waits in epoll_pwait, every wakeup
  -- has arrived and the sender is not between a push into the lock-free queue and the call of
  -- maybe_wakeup for it, the queue is empty. So no request, or answer, that becomes visible is slept over.
  pub Reach-nothing_slept_over :
      {s : LoopState handovers}
      → Reach handovers s
      → s.thread.at ≡ waiting
      → s.woken ≡ s.source.wakeups
      → owes s.source.sender ≡ false
      → S.contents s.source.queue ≡ []
  Reach-nothing_slept_over {s} h a k o =
      nil_of_is_empty (S.contents s.source.queue) (Reach-sleeps_idle_source handovers h a k o)
