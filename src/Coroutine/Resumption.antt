-- ===== src/Coroutine/Resumption.antt =====
-- What a coroutine's future comes true with, and when (include/miniss/enable_coroutine.h).
use miniss.Base.{ap, ℕ, zero, suc, ◌≤◌, ◌<◌, ◌≡◌, refl, true, false, none, some, arith}
use miniss.Syscall.{Completion, set_value, set_exception}
use miniss.Coroutine.{Body, returns, raises, awaits, enter, resume_times}

module _ {A B : Type 0} where
  -- The body read as ordinary code that blocks at each await.
  unfoldable pub blocking : Body A B → Completion A
  blocking (returns a) = set_value a
  blocking (raises e) = set_exception e
  blocking (awaits _ o rest) = blocking (rest o)

  -- How many of the futures that it awaits are not available.
  unfoldable pub waits : Body A B → ℕ
  waits (returns a) = 0
  waits (raises e) = 0
  waits (awaits true o rest) = waits (rest o)
  waits (awaits false o rest) = suc (waits (rest o))

  resume_times-ended :
      (n : ℕ) (r : Completion A)
      → resume_times {A = A} {B = B} n (record { suspended = none; pr = some r })
        ≡ record { suspended = none; pr = some r }
  unfolding resume_times
  resume_times-ended zero r = refl
  resume_times-ended (suc n) r = resume_times-ended n r

  -- A coroutine needs one continuation for each awaited future that is not available: with fewer its
  -- own future has not come true, and with as many or more it has come true, once and for all, with
  -- what the body gives when it is read as ordinary code that blocks at each await: the value that it
  -- returns or the exception that it lets out.
  pub resume_times-enter :
      (b : Body A B) (n : ℕ)
      → (waits b ≤ n → (resume_times n (enter b)).pr ≡ some (blocking b))
        × (n < waits b → (resume_times n (enter b)).pr ≡ none)
  unfolding blocking waits enter resume_times
  resume_times-enter (returns a) n =
      (λ h. ap (λ c. c.pr) (resume_times-ended n (set_value a)), λ h. absurd (omega arith))
  resume_times-enter (raises e) n =
      (λ h. ap (λ c. c.pr) (resume_times-ended n (set_exception e)), λ h. absurd (omega arith))
  resume_times-enter (awaits true o rest) n = resume_times-enter (rest o) n
  resume_times-enter (awaits false o rest) zero = (λ h. absurd (omega arith), λ h. refl)
  resume_times-enter (awaits false o rest) (suc n) =
      let later = resume_times-enter (rest o) n in
      (λ h. later.0 (omega arith), λ h. later.1 (omega arith))
