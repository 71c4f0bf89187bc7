-- ===== src/Start/Tests.antt =====
-- The start of a single CPU, from the beginning to the end.
use miniss.Base.{false, ℕ, ◌+◌, ◌*◌, ◌<◌, ◌≡◌, ◌≢◌, ◌⊎◌, refl, [], ◌∷◌, count, arith}
use miniss.Start.Signals
use miniss.Start.Signals.{
  SignalState, unregistered, begin, install, send, starts, installs, sends, satisfies, point,
}
use miniss.Start.Signals.Handled.{Reach-handled}
use miniss.Start.{
  Point, constructed, waits_constructed, building, at_built, waits_built, at_started, waits_started,
  running, lacks_cpu, is_running, StartState, start, constructs, arrives_constructed,
  passes_constructed, arrives_built, passes_built, arrives_started, passes_started, Step,
  main_moves, spawned, builds, built, Reach, here, next,
}
use miniss.Start.Order.{rank}
use miniss.Start.Safety.{Reach-run_after_init}
use miniss.Start.Progress.{Reach-ends}

-- The latches' counts are 1 where the main thread has yet to arrive.
abbrev state : Point → ℕ → ℕ → ℕ → ℕ → StartState
state p rows i j k = record {
  main = p;
  others = [];
  rows = rows;
  latches = record { cpu_constructed = i; queue_constructed = j; started = k };
}

abbrev ended : StartState
ended = state running 1 0 0 0

waits-Reach : Reach 1 3 (state waits_constructed 0 0 1 1)
unfolding start
waits-Reach =
    next
      (next (next here (spawned refl refl refl)) (
        main_moves constructed (state constructed 0 1 1 1).latches (constructs refl refl refl)
          refl))
      (main_moves waits_constructed (state waits_constructed 0 0 1 1).latches
        (arrives_constructed refl refl refl) refl)

built-Reach : Reach 1 6 (state at_built 1 0 1 1)
built-Reach =
    next
      (next
        (next waits-Reach (
          main_moves building (state building 0 0 1 1).latches
            (passes_constructed refl refl refl refl) refl))
        (builds refl (omega arith) refl))
      (built refl refl refl)

at_started-Reach : Reach 1 8 (state at_started 1 0 0 1)
at_started-Reach =
    next
      (next built-Reach (
        main_moves waits_built (state waits_built 1 0 0 1).latches (arrives_built refl refl refl)
          refl))
      (main_moves at_started (state at_started 1 0 0 1).latches (passes_built refl refl refl refl)
        refl)

ended-Reach : Reach 1 10 ended
ended-Reach =
    next
      (next at_started-Reach (
        main_moves waits_started (state waits_started 1 0 0 0).latches
          (arrives_started refl refl refl) refl))
      (main_moves running (state running 1 0 0 0).latches (passes_started refl refl refl refl) refl)

Reach-run_after_init_example :
    ((count is_running (running ∷ []) ≡ 0)
      ⊎ ((ended.rows ≡ 1) × (count lacks_cpu (running ∷ []) ≡ 0)))
    × ((rank running ≢ rank building) ⊎ (count lacks_cpu (running ∷ []) ≡ 0))
Reach-run_after_init_example = Reach-run_after_init (omega arith) ended-Reach

Reach-ends_example :
    ((count is_running (at_built ∷ []) ≡ 1) × (◌≡◌ {A = ℕ} 6 (9 * 1 + 1)))
    ⊎ ((6 < 9 * 1 + 1) × ((s' : StartState) × Step 1 (state at_built 1 0 1 1) s'))
Reach-ends_example = Reach-ends (omega arith) built-Reach

-- The statements of `init` alone, without a signal.
abbrev quiet : StartState → SignalState
quiet t = record {
  threads = t;
  stage = λ i. unregistered;
  handled = false;
  pending = λ i. false;
  killed = false;
}

quiet-Reach : {k : ℕ} {t : StartState} → Reach 1 k t → Signals.Reach 1 (quiet t)
unfolding begin
quiet-Reach here = Signals.here
quiet-Reach (next {s = t} {s' = t'} r st) = Signals.next (quiet-Reach r) (starts t' st refl)

-- The CPU is woken between sigaction and pthread_sigmask.
abbrev woken : SignalState
woken = send 0 (install 0 (quiet ended))

woken-Reach : Signals.Reach 1 woken
unfolding install send
woken-Reach =
    Signals.next (Signals.next (quiet-Reach ended-Reach) (installs 0 refl refl refl))
      (sends 0 0 refl (omega arith) refl)

Reach-handled_example :
    (woken.killed ≡ false)
    × ((woken.pending 0 ≡ false) ⊎ (satisfies lacks_cpu (point woken 0) ≡ false))
Reach-handled_example = Reach-handled 0 (omega arith) woken-Reach
