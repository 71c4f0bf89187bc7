-- ===== src/Coroutine/Tests.antt =====
-- A coroutine that awaits an available future and one that is not, and throws what the second one throws.
use miniss.Base.{ℕ, ◌≤◌, ◌<◌, ◌≡◌, true, false, none, some}
use miniss.Exceptions.{Outcome, ok, throws, other_exception}
use miniss.Coroutine.{Body, returns, raises, awaits, enter, resume_times}
use miniss.Coroutine.Resumption.{waits, blocking, resume_times-enter}

abbrev rethrow : Outcome ℕ → Body ℕ ℕ
rethrow (ok n) = returns n
rethrow (throws e) = raises e

abbrev two_awaits : Body ℕ ℕ
two_awaits = awaits true (ok 4) (λ first. awaits false (throws (other_exception 2)) rethrow)

resume_times-enter_example :
    (waits two_awaits ≤ 1 → (resume_times 1 (enter two_awaits)).pr ≡ some (blocking two_awaits))
    × (1 < waits two_awaits → (resume_times 1 (enter two_awaits)).pr ≡ none)
resume_times-enter_example = resume_times-enter two_awaits 1
