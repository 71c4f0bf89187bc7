-- ===== src/File/Tests.antt =====
-- A file that is opened, moved and closed, and a failing system call.
use miniss.Base.{ℕ, ℤ, pos, negsuc, ◌≡◌, refl, Bool, true, [], ◌∷◌}
use miniss.Exceptions.{system_error}
use miniss.Syscall.{set_value, set_exception, process, complete}
use miniss.File.{File, construct, move_construct, close, stat_call, size_call, open_call}
use miniss.File.Ownership.{Files, add_closed}
use miniss.File.Calls.{complete-process-call}

complete-process-call_example :
    (complete (process (size_call (negsuc 0) (pos 9)) (pos 9))
      ≡ set_exception (system_error (pos 9)))
    × (complete (process (open_call (negsuc 0) (pos 9)) (pos 9))
        ≡ set_exception (system_error (pos 9)))
    × (complete {A = ℕ} (process (stat_call {A = ℕ} (negsuc 0) (pos 9) 77) (pos 9)) ≡ set_value 77)
complete-process-call_example = complete-process-call (negsuc 0) 9 (pos 9) 77

abbrev opened_file : File
opened_file = construct 0 0 (pos 5)

abbrev opened : Files
opened = record { files = opened_file ∷ []; opened = pos 5 ∷ []; closed = [] }

abbrev moved : Files
moved = record opened {
  files = (move_construct opened_file).1 ∷ (move_construct opened_file).0 ∷ [];
}

abbrev moved_file : File
moved_file = (move_construct opened_file).0

abbrev at_end : Files
at_end = record {
  files = (move_construct opened_file).1 ∷ (close moved_file).0 ∷ [];
  opened = pos 5 ∷ [];
  closed = add_closed [] (close moved_file).1;
}

at_end-closed : at_end.closed ≡ pos 5 ∷ []
unfolding move_construct close construct
at_end-closed = refl

abbrev any : ℤ → Bool
any fd = true
