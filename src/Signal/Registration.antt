-- ===== src/Signal/Registration.antt =====
-- What a registration and the destructor change (lib/poller/signal_poller.cpp).
use miniss.Base.{
  refl, zero, suc, ap, ap, suc, replicate, length, ◌⊎◌, ℕ, ℤ, ◌≡◌, true, false, none, some, List,
  [], ◌∷◌, ◌==◌, if◌then◌else◌, arith,
}
use miniss.Exceptions.{system_error, other_exception, Outcome, ok, throws}
use miniss.Signal.{
  sigfillset, block, destroy, Word, find, contains, emplace, SignalPoller, register_signal,
  is_not_zero,
}

module _ {H : Type 0} where
  find-emplace :
      (i j : ℕ) (h : H) (hs : List (ℕ × H))
      → find i hs ≡ none
      → find j (emplace i h hs) ≡ (if i == j then some h else find j hs)
  unfolding emplace
  find-emplace i j h [] e = ground arith
  find-emplace i j h ((k, g) ∷ hs) e = ground (arith, find-emplace i j h hs)

  -- What the theorem below says of each result.
  abbrev pub Registered : ℕ → H → ℤ → ℤ → ℤ → SignalPoller H → Outcome (SignalPoller H) → ℕ → Type 0
  Registered signo h action mask errno p (throws x) j =
      (x ≡ (if contains signo p.signal_handlers then other_exception 0 else system_error errno))
      × ((contains signo p.signal_handlers ≡ true)
          ⊎ (is_not_zero action ≡ true)
          ⊎ (is_not_zero mask ≡ true))
  Registered signo h action mask errno p (ok p') j =
      (find j p'.signal_handlers ≡ (if signo == j then some h else find j p.signal_handlers))
      × (p'.pending_signals ≡ p.pending_signals)
      × (contains signo p.signal_handlers ≡ false)
      × (is_not_zero action ≡ false)
      × (is_not_zero mask ≡ false)

  -- `register_signal` on a signal that has a handler throws; else the exception has the error number
  -- if sigaction or pthread_sigmask failed; else the new handler is found for that signal, and every
  -- other signal keeps what it had. The pending signals stay.
  register_signal_lem :
      (signo j : ℕ) (h : H) (action mask errno : ℤ) (p : SignalPoller H)
      → Registered signo h action mask errno p (register_signal signo h action mask errno p) j
  unfolding register_signal
  register_signal_lem signo j h action mask errno p =
      ground (arith, find-emplace signo j h p.signal_handlers)

block-replicate :
    (n : ℕ) (mask : Word) → length mask ≡ n → block (replicate n true) mask ≡ replicate n true
block-replicate zero [] h = refl
block-replicate zero (m ∷ mask) h = absurd (omega arith)
block-replicate (suc n) [] h = absurd (omega arith)
block-replicate (suc n) (m ∷ mask) h = ap (λ z. true ∷ z) (block-replicate n mask (omega arith))

-- Behind the destructor no signal reaches the thread, whatever its mask was.
destroy-sigfillset : (mask : Word) → length mask ≡ 64 → destroy mask ≡ sigfillset
unfolding destroy
destroy-sigfillset = block-replicate 64
