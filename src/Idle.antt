-- ===== src/Idle.antt =====
-- run_idle_proc_ of lib/cpu.cpp, with dispatch_signal and the signal poller of the same thread. The
-- signals are those that the active mask lets through.
pub mod Sleep
use miniss.Base.{ℕ, ◌≡◌, ◌≢◌, Bool, true, false, List, [], ◌∷◌, ◌++◌, if◌then◌else◌}
use miniss.Signal.{Word, zero_word, SignalPoller, is_zero, dispatch_signal, dispatch_all, poll}

-- Where the thread stands: elsewhere in CPU::run, behind the first pthread_sigmask, behind the test of
-- `pending_signals_`, in epoll_pwait, or before the guard restores the mask.
pub data IdlePoint : Type 0 where
  running masked checked waiting leaving : IdlePoint

-- `blocked` says that the mask is full; `held` are the signals that the kernel holds back meanwhile.
pub record Thread : Type 0 where
  pub pending_signals : Word
  pub blocked : Bool
  pub held : List ℕ
  pub at : IdlePoint

unfoldable pub start : Thread
start = record { pending_signals = zero_word; blocked = false; held = []; at = running }

-- The first pthread_sigmask.
unfoldable pub mask : Thread → Thread
mask t = record t { blocked = true; at = masked }

unfoldable pub check : Thread → Thread
check t = record t { at = if is_zero t.pending_signals then checked else leaving }

-- Signals that the kernel held back run their handler when the mask lets them through.
abbrev pub deliver : Thread → Thread
deliver t = record t { pending_signals = dispatch_all t.held t.pending_signals; held = [] }

-- epoll_pwait, entered with the signals `signos` held back: they interrupt it at once, or it waits under
-- the active mask.
abbrev pub enter_wait : Thread → List ℕ → Thread
enter_wait t [] = record t { blocked = false; at = waiting }
enter_wait t (signo ∷ more) = record (deliver t) { at = leaving }

unfoldable pub wait : Thread → Thread
wait t = enter_wait t t.held

-- epoll_pwait returns, and puts the full mask back.
unfoldable pub return_wait : Thread → Thread
return_wait t = record t { blocked = true; at = leaving }

-- The guard.
unfoldable pub restore : Thread → Thread
restore t = record (deliver t) { blocked = false; at = running }

abbrev interrupt : Thread → IdlePoint → Thread
interrupt t waiting = record t { blocked = true; at = leaving }
interrupt t _ = t

-- A signal is held back, or its handler runs and interrupts epoll_pwait.
unfoldable pub arrive : ℕ → Thread → Thread
arrive signo t =
    if t.blocked
    then record t { held = t.held ++ signo ∷ [] }
    else interrupt (record t { pending_signals = dispatch_signal signo t.pending_signals }) t.at

-- The thread's statements in their order, and signals at any time. A
-- handler of the poller is named by a number.
pub data Step (t : Thread) : Thread → Type 0 where
  arrives : (signo : ℕ) → Step t (arrive signo t)
  polls :
      (early : List ℕ) (p : SignalPoller ℕ)
      → t.at ≡ running
      → p.pending_signals ≡ t.pending_signals
      → Step t (record t { pending_signals = (poll early p).0.pending_signals })
  masks : t.at ≡ running → Step t (mask t)
  checks : t.at ≡ masked → Step t (check t)
  enters : t.at ≡ checked → Step t (wait t)
  wakes : t.at ≡ waiting → Step t (return_wait t)
  restores : t.at ≡ leaving → Step t (restore t)

pub data Reach : Thread → Type 0 where
  here : Reach start
  next : {t t' : Thread} → Reach t → Step t t' → Reach t'
