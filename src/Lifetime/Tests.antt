-- ===== src/Lifetime/Tests.antt =====
-- A kernel that has no descriptor left for epoll.
use miniss.Base.{ℕ, zero, suc, ℤ, pos, negsuc, is_negative, ◌≡◌, ◌≢◌, refl, true, some, [], arith}
use miniss.Exceptions.{ok}
use miniss.Lifetime.{Answers, built, construct_cpu}
use miniss.Lifetime.Unwinding.{holds, construct_cpu-LeaksNothing, construct_cpu-uninitialised}

-- Its io_setup wants a context of zero.
abbrev set_up : ℕ → ℤ
set_up zero = pos 0
set_up (suc n) = negsuc 21

abbrev kernel : Answers
kernel = record {
  mask = pos 0;
  timer = pos 0;
  interrupter_fd = pos 4;
  thread = ok tt;
  aio_fd = pos 5;
  io_setup = set_up;
  epoll_fd = negsuc 0;
  epoll_ctl = pos 0;
  errno = pos 24;
}

construct_cpu-LeaksNothing_example : holds (construct_cpu 0 kernel).0 [] ≡ some []
unfolding construct_cpu
construct_cpu-LeaksNothing_example = construct_cpu-LeaksNothing 0 kernel []

set_up-refuses : (n : ℕ) → n ≢ 0 → is_negative (set_up n) ≡ true
set_up-refuses zero h = absurd (h refl)
set_up-refuses (suc n) h = refl

construct_cpu-uninitialised_example : (construct_cpu 7 kernel).1 ≢ built
construct_cpu-uninitialised_example =
    construct_cpu-uninitialised 7 kernel set_up-refuses (λ e. absurd (omega arith))
