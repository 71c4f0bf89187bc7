-- ===== src/Signal.antt =====
-- Signal_poller of include/miniss/poller/signal_poller.h and lib/poller/signal_poller.cpp, and
-- dispatch_signal of lib/cpu.cpp. A std::uint64_t is the list of its 64 bits, the lowest first.
-- `H` is the type of the handlers; the kernel's answers are arguments.
pub mod Delivery
pub mod Registration
mod Tests
use miniss.Base.{
  ltb, ℕ, zero, suc, ℤ, pos, negsuc, Bool, true, false, not, ◌&&◌, ◌||◌, Option, none, some, List,
  [], ◌∷◌, ◌==◌, if◌then◌else◌, replicate,
}
use miniss.Exceptions.{
  Exception, other_exception, Outcome, ok, throws, ◌>>=◌, ◌>>◌, throw_system_error_if,
}

abbrev pub Word : Type 0
Word = List Bool

abbrev pub zero_word : Word
zero_word = replicate 64 false

-- `w & (1ULL << i)`
abbrev pub get_bit : Word → ℕ → Bool
get_bit [] i = false
get_bit (b ∷ w) zero = b
get_bit (b ∷ w) (suc i) = get_bit w i

-- `w | (1ULL << i)` for i < 64
unfoldable pub set_bit : ℕ → Word → Word
set_bit i [] = []
set_bit zero (b ∷ w) = true ∷ w
set_bit (suc i) (b ∷ w) = b ∷ set_bit i w

-- `w & ~signals`
unfoldable pub clear_bits : Word → Word → Word
clear_bits [] signals = []
clear_bits (b ∷ w) [] = b ∷ w
clear_bits (b ∷ w) (s ∷ signals) = (b && not s) ∷ clear_bits w signals

unfoldable pub is_zero : Word → Bool
is_zero [] = true
is_zero (b ∷ w) = not b && is_zero w

module _ {H : Type 0} where
  -- std::map::find over the pairs of the map
  abbrev pub find : ℕ → List (ℕ × H) → Option H
  find i [] = none
  find i ((j, h) ∷ hs) = if j == i then some h else find i hs

  abbrev pub contains : ℕ → List (ℕ × H) → Bool
  contains i hs = elim (find i hs) [ none ↦ false | some h ↦ true ]

  abbrev pub called : ℕ → Option H → List (ℕ × H) → List (ℕ × H)
  called i none rest = rest
  called i (some h) rest = (i, h) ∷ rest

  -- The loop of `poll` from bit `i` on: the handlers that are called, each with its signal.
  unfoldable pub handle_from : List (ℕ × H) → ℕ → Word → List (ℕ × H)
  handle_from handlers i [] = []
  handle_from handlers i (b ∷ w) =
      let rest = handle_from handlers (suc i) w in
      if b then called i (find i handlers) rest else rest

-- `dispatch_signal`, which runs on the thread at any time
unfoldable pub dispatch_signal : ℕ → Word → Word
dispatch_signal signo pending = set_bit signo pending

-- Signals that arrive one after another.
unfoldable pub dispatch_all : List ℕ → Word → Word
dispatch_all [] pending = pending
dispatch_all (signo ∷ more) pending = dispatch_all more (dispatch_signal signo pending)

abbrev pub is_not_zero : ℤ → Bool
is_not_zero (pos zero) = false
is_not_zero _ = true

pub record SignalPoller (H : Type 0) : Type 0 where
  pub pending_signals : Word
  pub signal_handlers : List (ℕ × H)

module _ {H : Type 0} where
  -- `poll`, with the signals `early` that arrive between its load and its fetch_and. The result has the
  -- handlers that are called, in order.
  unfoldable pub poll : List ℕ → SignalPoller H → SignalPoller H × Bool × List (ℕ × H)
  poll early p =
      let signals = p.pending_signals in
      let pending = dispatch_all early signals in
      if is_zero signals then (record p { pending_signals = pending }, false, []) else (
        record p { pending_signals = clear_bits pending signals },
        true,
        handle_from p.signal_handlers 0 signals,
      )

  unfoldable pub pure_poll : SignalPoller H → Bool
  pure_poll p = not (is_zero p.pending_signals)

  unfoldable pub emplace : ℕ → H → List (ℕ × H) → List (ℕ × H)
  emplace i h [] = (i, h) ∷ []
  emplace i h ((j, g) ∷ hs) =
      let later = (j, g) ∷ emplace i h hs in if ltb i j then (i, h) ∷ (j, g) ∷ hs else later

  -- `action` and `mask` are what sigaction and pthread_sigmask return, `errno` the error number.
  -- The std::runtime_error is `other_exception 0`.
  unfoldable pub register_signal : ℕ → H → ℤ → ℤ → ℤ → SignalPoller H → Outcome (SignalPoller H)
  unfolding throw_system_error_if
  register_signal signo handler action mask errno p =
      if contains signo p.signal_handlers then throws (other_exception 0) else (do
        throw_system_error_if (is_not_zero action) errno
        throw_system_error_if (is_not_zero mask) errno
        ok (record p { signal_handlers = emplace signo handler p.signal_handlers }))

-- The destructor: sigfillset makes a set of all signals, and SIG_BLOCK adds it to the mask of the thread.
abbrev pub sigfillset : Word
sigfillset = replicate 64 true

abbrev pub block : Word → Word → Word
block [] mask = mask
block (b ∷ set) [] = []
block (b ∷ set) (m ∷ mask) = (b || m) ∷ block set mask

unfoldable pub destroy : Word → Word
destroy mask = block sigfillset mask
