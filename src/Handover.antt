-- ===== src/Handover.antt =====
-- One direction of a Cross_cpu_queue, statement by statement: push and flush of
-- lib/util/unbounded_spsc_queue.cpp on the sender's thread with the call of maybe_wakeup behind them in
-- lib/cross_cpu_queue.cpp, while the receiver takes items at any time.
pub mod Atomic
pub mod Wakeups
mod Tests
use miniss.Base.{
  ℕ, zero, suc, ◌+◌, ◌≡◌, Bool, true, false, List, [], ◌∷◌, ◌++◌, length, ltb, ◌==◌, if◌then◌else◌,
}
use miniss.Spsc.{Spsc}
use miniss.Unbounded.{capacity, batch}

-- Where the sender stands: outside, in the loop of `flush` with its counter, or before maybe_wakeup.
pub data SenderPoint : Type 0 where
  outside before_wakeup : SenderPoint
  flushing : ℕ → SenderPoint

-- `n > 0`
abbrev pub behind_loop : ℕ → SenderPoint
behind_loop zero = outside
behind_loop (suc n) = before_wakeup

module _ {I : Type 0} (S : Spsc I capacity) where
  -- `wakeups` counts the calls of maybe_wakeup.
  pub record Handover : Type 0 where
    pub queue_buffer : List I
    pub queue : S.Queue
    pub sender : SenderPoint
    pub wakeups : ℕ

  -- `push` up to the loop of `flush`.
  unfoldable pub push : I → Handover → Handover
  push item h =
      let buffer = h.queue_buffer ++ item ∷ [] in
      record h {
        queue_buffer = buffer;
        sender = if ltb (length buffer) batch then outside else flushing 0;
      }

  unfoldable pub flush : Handover → Handover
  flush h = record h { sender = flushing 0 }

  -- One round of the loop, or its end.
  abbrev pub loop_round : ℕ → List I → Handover → Handover
  loop_round n [] h = record h { sender = behind_loop n }
  loop_round n (x ∷ rest) h =
      if S.write_available h.queue == 0
      then record h { sender = behind_loop n }
      else record h { queue_buffer = rest; queue = (S.push x h.queue).0; sender = flushing (n + 1) }

  abbrev pub sender_at : SenderPoint → Handover → Handover
  sender_at outside h = h
  sender_at (flushing n) h = loop_round n h.queue_buffer h
  sender_at before_wakeup h = record h { sender = outside; wakeups = h.wakeups + 1 }

  unfoldable pub sender_step : Handover → Handover
  sender_step h = sender_at h.sender h

  unfoldable pub sender_steps : ℕ → Handover → Handover
  sender_steps zero h = h
  sender_steps (suc n) h = sender_steps n (sender_step h)

  -- `process`, with what the receiver's poll returns.
  unfoldable pub process : Handover → Handover × Bool
  process h = let (q, items) = S.pop batch h.queue in (record h { queue = q }, ltb 0 (length items))

  pub data Step (h h' : Handover) : Type 0 where
    pushes : (item : I) → h.sender ≡ outside → h' ≡ push item h → Step h h'
    flushes : h.sender ≡ outside → h' ≡ flush h → Step h h'
    sends : h' ≡ sender_step h → Step h h'
    takes : (found : Bool) → process h ≡ (h', found) → Step h h'
