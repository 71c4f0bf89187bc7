-- ===== src/Syscall.antt =====
-- The results and the work items of include/miniss/io/syscall.h.
pub mod Results
pub mod Runner
mod Tests
mod Loss
use miniss.Base.{ℤ, pos, is_negative, is_minus_one, Bool, true, false, if◌then◌else◌}
use miniss.Exceptions.{
  Exception, system_error, Outcome, ok, throws, ◌>>=◌, ◌>>◌, throw_system_error_if,
}

pub record SyscallResult (A : Type 0) : Type 0 where
  pub error : ℤ
  pub extra : A

unfoldable pub throw_if_error : {A : Type 0} → SyscallResult A → Outcome (Unit {0})
throw_if_error r = if is_minus_one r.error then throws (system_error r.error) else ok tt

-- `wrap_syscall(extra)`
unfoldable pub wrap_value : {A : Type 0} → A → SyscallResult A
wrap_value x = record { error = pos 0; extra = x }

-- `wrap_syscall(result, extra)`, where the thread's error number is `errno`
unfoldable pub wrap_syscall : {A : Type 0} → ℤ → ℤ → A → SyscallResult A
wrap_syscall result errno x = record {
  error = if is_negative result then errno else pos 0;
  extra = x;
}

-- std::variant<std::monostate, value_type, std::exception_ptr>, and the same with no value.
pub data ResultHolder (A : Type 0) : Type 0 where
  monostate : ResultHolder A
  value : A → ResultHolder A
  exception : Exception → ResultHolder A

pub data VoidHolder : Type 0 where
  monostate : VoidHolder
  exception : Exception → VoidHolder

-- What `complete` does to the promise of the item.
pub data Completion (A : Type 0) : Type 0 where
  set_value : A → Completion A
  set_exception : Exception → Completion A
  abort : Completion A

-- The items of calls with a payload. `r` is what `fn_()` returns or throws, `errno` the error number
-- behind it.
module _ {A : Type 0} where
  abbrev attempt : Outcome (SyscallResult A) → ℤ → Outcome A
  attempt call errno = do r ← call; throw_system_error_if (is_negative r.error) errno; ok r.extra

  abbrev catch_into : Outcome A → ResultHolder A
  catch_into (ok x) = ResultHolder.value x
  catch_into (throws e) = ResultHolder.exception e

  unfoldable pub process : Outcome (SyscallResult A) → ℤ → ResultHolder A
  unfolding throw_system_error_if
  process call errno = catch_into (attempt call errno)

  unfoldable pub complete : ResultHolder A → Completion A
  complete ResultHolder.monostate = abort
  complete (ResultHolder.value x) = set_value x
  complete (ResultHolder.exception e) = set_exception e

-- The items of calls that return an `int` (kNoPayload).
abbrev attempt_void : Outcome ℤ → ℤ → Outcome (Unit {0})
attempt_void call errno = do r ← call; throw_system_error_if (is_negative r) errno

abbrev catch_into_void : Outcome (Unit {0}) → VoidHolder
catch_into_void (ok _) = VoidHolder.monostate
catch_into_void (throws e) = VoidHolder.exception e

unfoldable pub process_void : Outcome ℤ → ℤ → VoidHolder
unfolding throw_system_error_if
process_void call errno = catch_into_void (attempt_void call errno)

unfoldable pub complete_void : VoidHolder → Completion (Unit {0})
complete_void VoidHolder.monostate = set_value tt
complete_void (VoidHolder.exception e) = set_exception e
