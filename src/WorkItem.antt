-- ===== src/WorkItem.antt =====
-- Work_item_impl of include/miniss/util/unbounded_spsc_queue.h: the result of a function that another
-- CPU runs. The future that the function returns is its outcome.
use miniss.Base.{◌≡◌, refl}
use miniss.Exceptions.{Outcome, ok, throws}
use miniss.Syscall.{ResultHolder, Completion, set_value, set_exception, abort}

module _ {A : Type 0} where
  -- What the continuation in `process` stores in `ret_`.
  unfoldable pub process : Outcome A → ResultHolder A
  process (ok x) = ResultHolder.value x
  process (throws e) = ResultHolder.exception e

  -- `complete`, by the index of `ret_`.
  unfoldable pub complete : ResultHolder A → Completion A
  complete ResultHolder.monostate = abort
  complete (ResultHolder.value x) = set_value x
  complete (ResultHolder.exception e) = set_exception e

  abbrev pub passed_on : Outcome A → Completion A
  passed_on (ok x) = set_value x
  passed_on (throws e) = set_exception e

  -- The promise on the first CPU gets the value or the exception of the function on the other one, and
  -- an item that was processed never aborts the program.
  pub complete-process-passed_on : (o : Outcome A) → complete (process o) ≡ passed_on o
  unfolding complete process
  complete-process-passed_on (ok x) = refl
  complete-process-passed_on (throws e) = refl
