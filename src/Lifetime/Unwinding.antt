-- ===== src/Lifetime/Unwinding.antt =====
-- That a CPU leaks nothing, whether its constructor succeeds or throws (lib/cpu.cpp).
use miniss.Base.{
  ℕ, is_negative, ◌≡◌, ◌≢◌, true, Option, none, some, List, [], ◌∷◌, ◌++◌, ◌==◌, if◌then◌else◌,
  arith,
}
use miniss.Signal.{is_not_zero}
use miniss.Lifetime.{
  Resource, physical_timer, interrupter, worker, aio_eventfd, aio_ctx, epoll, Event, acquired,
  released, built, aborted, thrown, Construction, construct_cpu, destroy_cpu, Answers,
}

-- A resource is told from the others by a number.
abbrev pub tag : Resource → ℕ
tag physical_timer = 0
tag interrupter = 1
tag worker = 2
tag aio_eventfd = 3
tag aio_ctx = 4
tag epoll = 5

-- The resources that are held after some events, the last one first. Only the last one can be released.
unfoldable pub holds : List Event → List Resource → Option (List Resource)
holds [] held = some held
holds (acquired r ∷ es) held = holds es (r ∷ held)
holds (released r ∷ es) [] = none
holds (released r ∷ es) (h ∷ held) =
    let rest = holds es held in if tag r == tag h then rest else none

-- What the construction must leave.
abbrev pub LeaksNothing : Answers → List Resource → Construction → Type 0
LeaksNothing a held (trace, thrown e) = holds trace held ≡ some held
LeaksNothing a held (trace, aborted) = is_not_zero a.epoll_ctl ≡ true
LeaksNothing a held (trace, built) =
    (holds trace held
      ≡ some (epoll ∷ aio_ctx ∷ aio_eventfd ∷ worker ∷ interrupter ∷ physical_timer ∷ held))
    × (holds (trace ++ destroy_cpu a) held ≡ some held)

-- Whatever the kernel answers: a constructor of CPU that throws has released everything that it
-- acquired, in the reverse order; it aborts only if epoll_ctl fails; and where it succeeds, the CPU holds
-- its six resources, and the destructor releases them all, in the reverse order.
pub construct_cpu-LeaksNothing :
    (ctx : ℕ) (a : Answers) (held : List Resource) → LeaksNothing a held (construct_cpu ctx a)
unfolding construct_cpu destroy_cpu holds
construct_cpu-LeaksNothing ctx a held = ground arith

-- io_setup refuses a context whose old value is not zero. Where it does, no CPU is constructed whenever
-- the memory for `aio_ctx_`, which nothing initialises, holds anything else.
pub construct_cpu-uninitialised :
    (ctx : ℕ) (a : Answers)
    → ((n : ℕ) → n ≢ 0 → is_negative (a.io_setup n) ≡ true)
    → ctx ≢ 0
    → (construct_cpu ctx a).1 ≢ built
unfolding construct_cpu
construct_cpu-uninitialised ctx a h k = let r = h ctx k in ground arith
