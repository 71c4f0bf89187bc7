-- ===== src/Signal/Delivery.antt =====
-- That Signal_poller::poll loses no signal (lib/poller/signal_poller.cpp).
use miniss.Base.{
  ℕ, zero, suc, ◌+◌, ◌≤◌, ◌<◌, ◌≡◌, ◌≢◌, refl, ap, Bool, true, false, not, ◌&&◌, ◌||◌, none, List,
  [], ◌∷◌, ◌==◌, if◌then◌else◌, length, arith,
}
use native.Mathlib.Nat.{add-zero, zero-add}
use miniss.Signal.{
  Word, get_bit, set_bit, clear_bits, is_zero, find, handle_from, dispatch_signal, dispatch_all,
  SignalPoller, poll,
}

pub get_bit-set_bit_self : (i : ℕ) (w : Word) → i < length w → get_bit (set_bit i w) i ≡ true
unfolding set_bit
get_bit-set_bit_self i [] h = absurd (omega arith)
get_bit-set_bit_self zero (b ∷ w) h = refl
get_bit-set_bit_self (suc i) (b ∷ w) h = get_bit-set_bit_self i w (omega arith)

get_bit-set_bit_ne : (i j : ℕ) (w : Word) → i ≢ j → get_bit (set_bit i w) j ≡ get_bit w j
unfolding set_bit
get_bit-set_bit_ne i j [] h = refl
get_bit-set_bit_ne zero zero (b ∷ w) h = absurd (h refl)
get_bit-set_bit_ne zero (suc j) (b ∷ w) h = refl
get_bit-set_bit_ne (suc i) zero (b ∷ w) h = refl
get_bit-set_bit_ne (suc i) (suc j) (b ∷ w) h = get_bit-set_bit_ne i j w (λ e. h (ap suc e))

pub length-set_bit : (i : ℕ) (w : Word) → length (set_bit i w) ≡ length w
unfolding set_bit
length-set_bit i [] = refl
length-set_bit zero (b ∷ w) = refl
length-set_bit (suc i) (b ∷ w) = ap suc (length-set_bit i w)

get_bit-clear_bits :
    (w s : Word) (i : ℕ)
    → length w ≡ length s
    → get_bit (clear_bits w s) i ≡ (get_bit w i && not (get_bit s i))
unfolding clear_bits
get_bit-clear_bits [] s i h = refl
get_bit-clear_bits (b ∷ w) [] i h = absurd (omega arith)
get_bit-clear_bits (b ∷ w) (c ∷ s) zero h = refl
get_bit-clear_bits (b ∷ w) (c ∷ s) (suc i) h = get_bit-clear_bits w s i (omega arith)

pub is_zero-get_bit : (w : Word) (i : ℕ) → is_zero w ≡ true → get_bit w i ≡ false
unfolding is_zero
is_zero-get_bit [] i h = refl
is_zero-get_bit (b ∷ w) zero h = ground arith
is_zero-get_bit (b ∷ w) (suc i) h = is_zero-get_bit w i (ground arith)

-- Whether a signal is among those that arrive.
abbrev pub among : ℕ → List ℕ → Bool
among i [] = false
among i (j ∷ js) = j == i || among i js

pub length-dispatch_all : (js : List ℕ) (w : Word) → length (dispatch_all js w) ≡ length w
unfolding dispatch_all dispatch_signal
length-dispatch_all [] w = refl
length-dispatch_all (j ∷ js) w =
    omega (arith, length-dispatch_all js (set_bit j w), length-set_bit j w)

get_bit-dispatch_all :
    (js : List ℕ) (w : Word) (i : ℕ)
    → i < length w
    → get_bit (dispatch_all js w) i ≡ (among i js || get_bit w i)
unfolding dispatch_all dispatch_signal
get_bit-dispatch_all [] w i h = refl
get_bit-dispatch_all (j ∷ js) w i h = ground (
  arith,
  get_bit-dispatch_all js (set_bit j w) i,
  length-set_bit j w,
  get_bit-set_bit_self j w,
  get_bit-set_bit_ne j i w,
)

module _ {H : Type 0} where
  -- No call before signal `k`.
  abbrev pub From : ℕ → List (ℕ × H) → Type 0
  From k [] = Unit {0}
  From k ((i, h) ∷ cs) = (k ≤ i) × From (suc i) cs

  From-le : (k m : ℕ) (cs : List (ℕ × H)) → k ≤ m → From m cs → From k cs
  From-le k m [] h f = tt
  From-le k m ((i, g) ∷ cs) h f = (omega arith, f.1)

  find-From : (i k : ℕ) (cs : List (ℕ × H)) → i < k → From k cs → find i cs ≡ none
  find-From i k [] h f = refl
  find-From i k ((j, g) ∷ cs) h f = ground (arith, find-From i (suc j) cs)

  handle_from-From : (hs : List (ℕ × H)) (k : ℕ) (w : Word) → From k (handle_from hs k w)
  unfolding handle_from
  handle_from-From hs k [] = tt
  handle_from-From hs k (b ∷ w) =
      ground (arith, handle_from-From hs (suc k) w, From-le k (suc k) (handle_from hs (suc k) w))

  find-handle_from :
      (hs : List (ℕ × H)) (k i : ℕ) (w : Word)
      → find (k + i) (handle_from hs k w) ≡ (if get_bit w i then find (k + i) hs else none)
  unfolding handle_from
  find-handle_from hs k i [] = ground arith
  find-handle_from hs k zero (b ∷ w) = rw add-zero (
      ground (arith, handle_from-From hs (suc k) w, find-From k (suc k) (handle_from hs (suc k) w)))
  find-handle_from hs k (suc i) (b ∷ w) =
      let e : k + suc i ≡ suc k + i = omega arith in
      rw e (ground (arith, find-handle_from hs (suc k) i w))

  find-handle_from_zero :
      (hs : List (ℕ × H)) (i : ℕ) (w : Word)
      → find i (handle_from hs 0 w) ≡ (if get_bit w i then find i hs else none)
  find-handle_from_zero hs i w = rw zero-add at (find-handle_from hs 0 i w)

  -- A call of `poll` on a 64-bit word loses no signal, also where signals arrive between its load and
  -- its fetch_and. For each of the 64 signals: it is pending afterwards exactly if it was not pending
  -- before and arrived meanwhile; its handler is called exactly if it was pending before and has one;
  -- and the calls are made in rising order of the signals, so each at most once.
  pub poll_lem :
      (early : List ℕ) (i : ℕ) (p : SignalPoller H)
      → length p.pending_signals ≡ 64
      → i < 64
      → let (p', active, calls) = poll early p in
        (get_bit p'.pending_signals i ≡ (among i early && not (get_bit p.pending_signals i)))
        × (find i calls ≡ (if get_bit p.pending_signals i then find i p.signal_handlers else none))
        × From 0 calls
        × (active ≡ not (is_zero p.pending_signals))
        × (p'.signal_handlers ≡ p.signal_handlers)
  unfolding poll
  poll_lem early i p w h = ground (
    arith,
    get_bit-dispatch_all early p.pending_signals i,
    length-dispatch_all early p.pending_signals,
    get_bit-clear_bits (dispatch_all early p.pending_signals) p.pending_signals i,
    is_zero-get_bit p.pending_signals i,
    find-handle_from_zero p.signal_handlers i p.pending_signals,
    handle_from-From p.signal_handlers 0 p.pending_signals,
  )
