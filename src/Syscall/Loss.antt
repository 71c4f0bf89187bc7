-- ===== src/Syscall/Loss.antt =====
-- A run of the two threads of Syscall_runner in which a call is lost (lib/io/syscall.cpp).
use miniss.Base.{
  sym, subst, ℕ, zero, suc, ◌≡◌, refl, Bool, not, ltb, Option, none, some, List, [], ◌∷◌,
  if◌then◌else◌, arith, Option-cases, inl, inr,
}
use miniss.Semaphore
use miniss.Spsc.{Spsc, list_spsc}
use miniss.Syscall.Runner.{
  Runner, queue_size, start, submit, push_call, signal, poll_results, worker_step, submits, pushes,
  signals, polls, works, Reach, here, next,
}

abbrev calls : Spsc ℕ queue_size
calls = list_spsc ℕ queue_size

-- A continuation with both its statements.
abbrev continue : Runner calls → Runner calls
continue r = signal calls (push_call calls r)

abbrev is_free : Runner calls → Bool
is_free r = not r.signalling

data Command : Type 0 where
  submitting : ℕ → Command
  continuing polling working : Command

do_command : Command → Runner calls → Option (Runner calls)
do_command (submitting w) r = if is_free r then some (submit calls w r) else none
do_command continuing r =
    if is_free r
    then if ltb (push_call calls r).interrupter 1000
      then if (push_call calls r).signalling then some (continue r) else none
      else none
    else none
do_command polling r = if is_free r then some (poll_results calls r).0 else none
do_command working r = some (worker_step calls r)

do_times : ℕ → Command → Option (Runner calls) → Option (Runner calls)
do_times zero c o = o
do_times (suc n) c none = none
do_times (suc n) c (some r) = do_times n c (do_command c r)

submit_from : ℕ → ℕ → Option (Runner calls) → Option (Runner calls)
submit_from i zero o = o
submit_from i (suc n) none = none
submit_from i (suc n) (some r) = submit_from (suc i) n (do_command (submitting i) r)

do_command-Reach :
    (c : Command) (r r' : Runner calls) → do_command c r ≡ some r' → Reach calls r → Reach calls r'
unfolding do_command
do_command-Reach (submitting w) r r' e h =
    let same : submit calls w r ≡ r' = ground arith in
    subst (Reach calls) same (next h (submits w r (ground arith)))
do_command-Reach continuing r r' e h =
    let same : continue r ≡ r' = ground arith in
    subst (Reach calls) same (
      next (next h (pushes r (ground arith)))
        (signals (push_call calls r) (ground arith) (ground arith)))
do_command-Reach polling r r' e h =
    let same : (poll_results calls r).0 ≡ r' = ground arith in
    subst (Reach calls) same (next h (polls r (ground arith)))
do_command-Reach working r r' e h =
    let same : worker_step calls r ≡ r' = ground arith in
    subst (Reach calls) same (next h (works r))

abbrev Reached : Option (Runner calls) → Type 0
Reached none = Unit {0}
Reached (some r) = Reach calls r

do_command-Reached : (c : Command) (r : Runner calls) → Reach calls r → Reached (do_command c r)
do_command-Reached c r h = elim (Option-cases (do_command c r)) [
  | inl e ↦ subst Reached (sym e) tt
  | inr (r', e) ↦ subst Reached (sym e) (do_command-Reach c r r' e h)
]

do_times-Reached :
    (n : ℕ) (c : Command) (o : Option (Runner calls)) → Reached o → Reached (do_times n c o)
unfolding do_times
do_times-Reached zero c o h = h
do_times-Reached (suc n) c none h = tt
do_times-Reached (suc n) c (some r) h =
    do_times-Reached n c (do_command c r) (do_command-Reached c r h)

submit_from-Reached :
    (i n : ℕ) (o : Option (Runner calls)) → Reached o → Reached (submit_from i n o)
unfolding submit_from
submit_from-Reached i zero o h = h
submit_from-Reached i (suc n) none h = tt
submit_from-Reached i (suc n) (some r) h =
    submit_from-Reached (suc i) n (do_command (submitting i) r)
      (do_command-Reached (submitting i) r h)

-- 127 calls come and are handed out; before consume_all returns their results are polled, and two more
-- calls come.
history : Option (Runner calls)
history = do_times 2 continuing (
    submit_from 127 2 (
      do_times 1 polling
        (do_times 130 working (do_times 127 continuing (submit_from 0 127 (some (start calls)))))))

abbrev lost_calls : Option (Runner calls) → List ℕ
lost_calls none = []
lost_calls (some r) = r.lost

lost_calls-history : lost_calls history ≡ 128 ∷ []
unfolding history do_times submit_from do_command start submit push_call signal poll_results
    worker_step Semaphore.init Semaphore.wait Semaphore.release Semaphore.wake_front
lost_calls-history = refl

-- The threads can lead to a state in which a call is lost.
history-Reached : Reached history
unfolding history
history-Reached = do_times-Reached 2 continuing _ (
    submit_from-Reached 127 2 _ (
      do_times-Reached 1 polling _ (
        do_times-Reached 130 working _ (
          do_times-Reached 127 continuing _
            (submit_from-Reached 0 127 (some (start calls)) here)))))
