-- ===== src/File/Calls.antt =====
-- What a client sees of the system calls of a File (lib/io/file.cpp) and of open_file (lib/cpu.cpp).
use miniss.Base.{ℕ, ℤ, pos, is_negative, ◌≡◌, if◌then◌else◌, arith}
use miniss.Exceptions.{system_error}
use miniss.Syscall.{set_value, set_exception, process, complete}
use miniss.File.{stat_call, size_call, open_call}

-- `size` and `open_file` report every failure of their system call with its error number, and the
-- result otherwise; `stat` reports a failed fstat, whose error number is not negative, as a success.
pub complete-process-call :
    {A : Type 0} (r : ℤ) (code : ℕ) (errno : ℤ) (st : A)
    → (complete (process (size_call r (pos code)) errno)
        ≡ (if is_negative r then set_exception (system_error (pos code)) else set_value r))
      × (complete (process (open_call r (pos code)) errno)
          ≡ (if is_negative r then set_exception (system_error (pos code)) else set_value r))
      × (complete (process (stat_call r (pos code) st) errno) ≡ set_value st)
unfolding complete process size_call open_call stat_call
complete-process-call r code errno st = (ground arith, ground arith, ground arith)
