-- ===== src/Signal/Tests.antt =====
-- SIGALRM, with handlers that are numbers.
use miniss.Base.{ℕ, ◌≡◌, refl, not, true, false, none, [], ◌∷◌, arith, replicate}
use miniss.Signal.{get_bit, is_zero, find, SignalPoller, poll}
use miniss.Signal.Delivery.{From, poll_lem}

abbrev alarm : ℕ
alarm = 14

abbrev raised : SignalPoller ℕ
raised = record {
  pending_signals = true ∷ replicate 63 false;
  signal_handlers = (0, 5) ∷ (alarm, 6) ∷ [];
}

-- SIGALRM arrives while signal 0 is handled.
poll_lem_example :
    let (p', active, calls) = poll (alarm ∷ []) raised in
    (get_bit p'.pending_signals alarm ≡ true)
    × (find alarm calls ≡ none)
    × From 0 calls
    × (active ≡ not (is_zero raised.pending_signals))
    × (p'.signal_handlers ≡ raised.signal_handlers)
poll_lem_example = poll_lem (alarm ∷ []) alarm raised refl (omega arith)
