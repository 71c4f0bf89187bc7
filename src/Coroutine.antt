-- ===== src/Coroutine.antt =====
-- include/miniss/enable_coroutine.h: the promise type of coroutines that return a future, and the
-- awaiter of futures. `A` is the type of what the coroutine returns, `B` that of what it awaits.
pub mod Resumption
mod Tests
use miniss.Base.{ℕ, zero, suc, Bool, true, false, Option, none, some}
use miniss.Exceptions.{Exception, Outcome, ok, throws}
use miniss.Syscall.{Completion, set_value, set_exception}

-- The body of a coroutine from some point on: it returns or lets an exception out, or it awaits a future
-- that is available or not, comes true with the outcome, and goes on with that.
pub data Body (A B : Type 0) : Type 0 where
  returns : A → Body A B
  raises : Exception → Body A B
  awaits : Bool → Outcome B → (Outcome B → Body A B) → Body A B

-- `fut_` of the awaiter at which the coroutine is suspended, with the rest of the body, and what has
-- been done to `pr_`.
pub record Coroutine (A B : Type 0) : Type 0 where
  pub suspended : Option (Outcome B × (Outcome B → Body A B))
  pub pr : Option (Completion A)

module _ {A B : Type 0} where
  -- `return_value` and `unhandled_exception`; the frame ends, since final_suspend never suspends.
  unfoldable pub return_value : A → Coroutine A B
  return_value a = record { suspended = none; pr = some (set_value a) }

  unfoldable pub unhandled_exception : Exception → Coroutine A B
  unhandled_exception e = record { suspended = none; pr = some (set_exception e) }

  -- `await_suspend`: the continuation of the future keeps the handle.
  unfoldable pub await_suspend : Outcome B → (Outcome B → Body A B) → Coroutine A B
  await_suspend o rest = record { suspended = some (o, rest); pr = none }

  -- The body runs until it ends or awaits a future for which `await_ready` is false. `await_resume`
  -- gives it the value or throws the exception of the future.
  unfoldable pub enter : Body A B → Coroutine A B
  unfolding return_value unhandled_exception await_suspend
  enter (returns a) = return_value a
  enter (raises e) = unhandled_exception e
  enter (awaits true o rest) = enter (rest o)
  enter (awaits false o rest) = await_suspend o rest

  -- The continuation of `await_suspend`, once the future has come true.
  unfoldable pub resume : Coroutine A B → Coroutine A B
  unfolding enter
  resume c = elim c.suspended [ none ↦ c | some (o, rest) ↦ enter (rest o) ]

  -- `n` continuations, one after the other.
  unfoldable pub resume_times : ℕ → Coroutine A B → Coroutine A B
  unfolding resume
  resume_times zero c = c
  resume_times (suc n) c = resume_times n (resume c)
