-- ===== src/Exceptions.antt =====
-- include/miniss/util.h: the exceptions that the code throws, and code that may throw.
use miniss.Base.{ℤ, negate, is_negative, ℕ, Bool, if◌then◌else◌}

-- `system_error n` is a std::system_error of the system category with the code `n`; the others are
-- told apart by a number.
pub data Exception : Type 0 where
  system_error : ℤ → Exception
  other_exception : ℕ → Exception

pub data Outcome (A : Type 0) : Type 0 where
  ok : A → Outcome A
  throws : Exception → Outcome A

infixl 5 ◌>>=◌ ◌>>◌
abbrev pub ◌>>=◌ : {A B : Type 0} → Outcome A → (A → Outcome B) → Outcome B
ok a >>= f = f a
throws e >>= f = throws e

abbrev pub ◌>>◌ : {B : Type 0} → Outcome (Unit {0}) → Outcome B → Outcome B
m >> k = m >>= λ _. k

-- `errno` is the thread's error number where the function is called.
unfoldable pub throw_system_error_if : Bool → ℤ → Outcome (Unit {0})
throw_system_error_if expr errno = if expr then throws (system_error errno) else ok tt

unfoldable pub throw_kernel_error : ℤ → Outcome (Unit {0})
throw_kernel_error r = if is_negative r then throws (system_error (negate r)) else ok tt
