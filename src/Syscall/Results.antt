-- ===== src/Syscall/Results.antt =====
-- What a client of Syscall_runner::submit sees of a system call (include/miniss/io/syscall.h).
use miniss.Base.{ℕ, ℤ, pos, is_negative, ◌≡◌, arith, if◌then◌else◌}
use miniss.Exceptions.{Exception, system_error, Outcome, ok, throws}
use miniss.Syscall.{
  SyscallResult, wrap_syscall, throw_if_error, Completion, set_value, set_exception, process,
  complete, process_void, complete_void,
}

module _ {A : Type 0} where
  abbrev pub settled : Outcome (SyscallResult A) → ℤ → Completion A
  settled (ok r) errno =
      if is_negative r.error then set_exception (system_error errno) else set_value r.extra
  settled (throws e) errno = set_exception e

  -- An item that was processed never aborts the program: its promise gets the payload of a result
  -- whose error is not negative, the error number of the thread as an exception for a negative one,
  -- and the exception that the call itself threw.
  pub complete-process :
      (call : Outcome (SyscallResult A)) (errno : ℤ)
      → complete (process call errno) ≡ settled call errno
  unfolding complete process
  complete-process (ok r) errno = ground arith
  complete-process (throws e) errno = ground arith

  -- A system call that fails is reported as a success: error numbers are not negative, so whatever
  -- `result` is, wrap_syscall(result, x) makes the item set the value `x`.
  pub complete-process-wrap_syscall :
      (result : ℤ) (code : ℕ) (errno : ℤ) (x : A)
      → (complete (process (ok (wrap_syscall result (pos code) x)) errno) ≡ set_value x)
        × (throw_if_error (wrap_syscall result (pos code) x) ≡ ok tt)
  unfolding complete process wrap_syscall throw_if_error
  complete-process-wrap_syscall result code errno x = ground arith

-- The item of a call that returns an `int` sets an exception exactly when the number is negative or
-- the call threw, and never aborts.
pub complete_void-process_void :
    (r errno : ℤ) (e : Exception)
    → (complete_void (process_void (ok r) errno)
        ≡ (if is_negative r then set_exception (system_error errno) else set_value tt))
      × (complete_void (process_void (throws e) errno) ≡ set_exception e)
unfolding complete_void process_void
complete_void-process_void r errno e = ground arith
