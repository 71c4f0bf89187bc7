-- ===== src/Idle/Sleep.antt =====
-- That a CPU does not sleep over a signal (lib/cpu.cpp, CPU::run_idle_proc_).
use miniss.Base.{ℕ, ◌≡◌, refl, true, false, List, [], ◌∷◌, arith}
use miniss.Signal.{is_zero}
use miniss.Idle.{
  IdlePoint, running, masked, checked, waiting, leaving, Thread, start, mask, check, wait,
  return_wait, restore, arrive, Step, arrives, polls, masks, checks, enters, wakes, restores, Reach,
  here, next,
}

-- What holds at each point.
abbrev pub HoldsAt : Thread → IdlePoint → Type 0
HoldsAt t running = (t.blocked ≡ false) × (t.held ≡ [])
HoldsAt t masked = t.blocked ≡ true
HoldsAt t checked = (t.blocked ≡ true) × (is_zero t.pending_signals ≡ true)
HoldsAt t waiting = (t.blocked ≡ false) × (is_zero t.pending_signals ≡ true) × (t.held ≡ [])
HoldsAt t leaving = t.blocked ≡ true

abbrev pub Good : Thread → Type 0
Good t = HoldsAt t t.at

pub arrive-Good :
    (signo : ℕ) (t : Thread) (p : IdlePoint) → p ≡ t.at → Good t → Good (arrive signo t)
unfolding arrive
arrive-Good signo t running e v = ground arith
arrive-Good signo t masked e v = ground arith
arrive-Good signo t checked e v = ground arith
arrive-Good signo t waiting e v = ground arith
arrive-Good signo t leaving e v = ground arith

pub wait-Good : (t : Thread) (hs : List ℕ) → hs ≡ t.held → t.at ≡ checked → Good t → Good (wait t)
unfolding wait
wait-Good t [] e c v = ground arith
wait-Good t (h ∷ hs) e c v = ground arith

Step-Good : {t t' : Thread} → Step t t' → Good t → Good t'
unfolding mask check return_wait restore
Step-Good {t} (arrives signo) v = arrive-Good signo t t.at refl v
Step-Good {t} (polls early p c e) v = ground arith
Step-Good {t} (masks c) v = ground arith
Step-Good {t} (checks c) v = ground arith
Step-Good {t} (enters c) v = wait-Good t t.held refl c v
Step-Good {t} (wakes c) v = ground arith
Step-Good {t} (restores c) v = ground arith

Reach-Good : {t : Thread} → Reach t → Good t
unfolding start
Reach-Good here = (refl, refl)
Reach-Good (next r st) = Step-Good st (Reach-Good r)

-- However signals arrive between the statements of `run_idle_proc_` and of the poller: while the CPU
-- waits in epoll_pwait, no signal is pending in `pending_signals_` and the kernel holds none back, and
-- each signal that arrives makes it leave.
pub Reach-sleeps_idle :
    {t : Thread} (signo : ℕ)
    → Reach t
    → t.at ≡ waiting
    → (is_zero t.pending_signals ≡ true) × (t.held ≡ []) × ((arrive signo t).at ≡ leaving)
unfolding arrive
Reach-sleeps_idle {t} signo h w = ground (arith, Reach-Good h)
