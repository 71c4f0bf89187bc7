-- ===== src/File.antt =====
-- File of include/miniss/io/file.h and lib/io/file.cpp, and CPU::open_file of lib/cpu.cpp. The pointers
-- to the CPU and its File_io are numbers; what the system calls return is an argument. `none` is a
-- failed assertion.
pub mod Ownership
pub mod Calls
mod Tests
use miniss.Base.{
  ℕ, ◌+◌, ℤ, pos, negsuc, is_negative, is_minus_one, Bool, true, false, not, ◌&&◌, ◌≡◌, Option,
  none, some, List, [], ◌∷◌, ◌++◌, if◌then◌else◌,
}
use miniss.Exceptions.{Outcome, ok, throws, ◌>>=◌, ◌>>◌, throw_system_error_if}
use miniss.Syscall.{SyscallResult, wrap_value, wrap_syscall}
use miniss.FileIo.{Opcode, pread, pwrite}

pub record File : Type 0 where
  pub cpu : Option ℕ
  pub file_io : Option ℕ
  pub fd : ℤ

abbrev pub no_fd : ℤ
no_fd = negsuc 0

abbrev pub is_open : File → Bool
is_open f = not (is_minus_one f.fd)

-- The private constructor.
unfoldable pub construct : ℕ → ℕ → ℤ → File
construct cpu io fd = record { cpu = some cpu; file_io = some io; fd = fd }

-- The move constructor: the new file, and what is left of the other.
unfoldable pub move_construct : File → File × File
move_construct other = (
  record { cpu = other.cpu; file_io = other.file_io; fd = other.fd },
  record { cpu = none; file_io = none; fd = no_fd },
)

-- The move assignment: `*this` and the other file.
unfoldable pub move_assign : File → File → File × File
move_assign this other = (
  record { cpu = other.cpu; file_io = other.file_io; fd = other.fd },
  record { cpu = this.cpu; file_io = this.file_io; fd = this.fd },
)

-- The calls that the methods submit to the CPU's Syscall_runner and File_io.
pub data Call : Type 0 where
  fstat lseek_end fdatasync close_fd : ℤ → Call
  aio : Opcode → ℤ → ℕ → Call

-- `close`: no call if the file is closed already.
unfoldable pub close : File → File × Option ℤ
close f = if is_minus_one f.fd then (f, none) else (record f { fd = no_fd }, some f.fd)

-- The destructor: the descriptor that it closes, if any.
unfoldable pub destroy : File → Option ℤ
unfolding close
destroy f = if is_minus_one f.fd then none else (close f).1

abbrev has_cpu : File → Bool
has_cpu f = elim f.cpu [ none ↦ false | some c ↦ true ]

unfoldable pub stat : File → Option Call
stat f = if is_open f && has_cpu f then some (fstat f.fd) else none

unfoldable pub size : File → Option Call
size f = if is_open f && has_cpu f then some (lseek_end f.fd) else none

unfoldable pub flush : File → Option Call
flush f = if is_open f && has_cpu f then some (fdatasync f.fd) else none

-- `dma_write` and `dma_read` at a position
unfoldable pub dma : Opcode → ℕ → File → Option Call
dma op position f = if is_negative f.fd then none else some (aio op f.fd position)

-- The functions that the worker calls for `stat`, `size` and `open_file`. `ret` is what the system call
-- returns, `errno` the error number behind it.
unfoldable pub stat_call : {A : Type 0} → ℤ → ℤ → A → Outcome (SyscallResult A)
unfolding wrap_syscall
stat_call ret errno st = ok (wrap_syscall ret errno st)

unfoldable pub size_call : ℤ → ℤ → Outcome (SyscallResult ℤ)
unfolding wrap_value throw_system_error_if
size_call r errno = do throw_system_error_if (is_negative r) errno; ok (wrap_value r)

unfoldable pub open_call : ℤ → ℤ → Outcome (SyscallResult ℤ)
unfolding wrap_value throw_system_error_if
open_call fd errno = do throw_system_error_if (is_negative fd) errno; ok (wrap_value fd)
