-- ===== src/Eventfd.antt =====
-- include/miniss/util/eventfd.h: `signal` and `wait`. `r` is what write or read returns and `errno` the error
-- number behind it; `value` is the count that the kernel keeps, to which a write adds, and which a read takes.
-- Construction and destruction are in Lifetime.
use miniss.Base.{ℕ, ℤ, is_negative, add_u64}
use miniss.Exceptions.{Outcome, ok, ◌>>◌, throw_system_error_if}

unfoldable pub signal : ℕ → ℤ → ℤ → ℕ → Outcome ℕ
unfolding throw_system_error_if
signal count r errno value = do
  throw_system_error_if (is_negative r) errno
  ok (add_u64 value count)

-- The count that `wait` returns, and what is left. It returns only when the kernel's count is positive.
unfoldable pub wait : ℤ → ℤ → ℕ → Outcome (ℕ × ℕ)
unfolding throw_system_error_if
wait r errno value = do throw_system_error_if (is_negative r) errno; ok (value, 0)
