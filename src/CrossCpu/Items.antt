-- ===== src/CrossCpu/Items.antt =====
-- What happens to the work items of a Cross_cpu_queue (lib/cross_cpu_queue.cpp).
use mathlib.Core.List.{Perm, perm_middle}
use mathlib.Core.List.Perm
use miniss.Base.{ℕ, ◌≡◌, List, [], ◌∷◌, ◌++◌, append_assoc, arith}
use miniss.Spsc.{Spsc}
use miniss.Unbounded
use miniss.Unbounded.{Unbounded, capacity}
use miniss.Unbounded.Fifo.{items, push_lem, flush_lem, process_lem, init-items}
use miniss.CrossCpu.{
  CrossCpuQueue, init, submit, respond, poll_tx, poll_rx, flush_tx, flush_rx, Step, submits,
  responds, polls_tx, polls_rx, flushes_tx, flushes_rx, Reach, here, next,
}

module _ {I : Type 0} (S : Spsc I capacity) where
  pub record InOrder (c : CrossCpuQueue S) : Type 0 where
    pub requests : c.started ++ items S c.tx ≡ c.submitted
    pub answers : c.completed ++ items S c.rx ≡ c.responded

  init-InOrder : (i j : ℕ) → InOrder (init S i j)
  unfolding init
  init-InOrder i j = ground (arith, init-items S)

  Step-InOrder : {c c' : CrossCpuQueue S} → Step S c c' → InOrder c → InOrder c'
  unfolding submit respond poll_tx poll_rx flush_tx flush_rx
  Step-InOrder {c} (submits item e) v =
      ground (arith, push_lem S item c.tx, append_assoc c.started (items S c.tx) (item ∷ []))
  Step-InOrder {c} (responds before item after r e) v =
      ground (arith, push_lem S item c.rx, append_assoc c.completed (items S c.rx) (item ∷ []))
  Step-InOrder {c} (polls_tx b e) v = ground (
    arith,
    process_lem S c.tx,
    append_assoc c.started (Unbounded.process S c.tx).1 (items S (Unbounded.process S c.tx).0),
  )
  Step-InOrder {c} (polls_rx b e) v = ground (
    arith,
    process_lem S c.rx,
    append_assoc c.completed (Unbounded.process S c.rx).1 (items S (Unbounded.process S c.rx).0),
  )
  Step-InOrder {c} (flushes_tx b e) v = ground (arith, flush_lem S c.tx)
  Step-InOrder {c} (flushes_rx b e) v = ground (arith, flush_lem S c.rx)

  Shared : CrossCpuQueue S → Type 0
  Shared c = Perm c.started (c.responded ++ c.running)

  moved : (r b a : List I) (x : I) → Perm (r ++ (b ++ x ∷ a)) ((r ++ x ∷ []) ++ (b ++ a))
  moved r b a x = rw (append_assoc r (x ∷ []) (b ++ a)) (Perm.append_left r (perm_middle b a))

  -- The three logs behind the steps that change none of them.
  record SameLogs (c c' : CrossCpuQueue S) : Type 0 where
    started : c'.started ≡ c.started
    responded : c'.responded ≡ c.responded
    running : c'.running ≡ c.running

  SameLogs-Shared : {c c' : CrossCpuQueue S} → SameLogs c c' → Shared c → Shared c'
  unfolding Shared
  SameLogs-Shared s p = rw (s.started, s.responded, s.running) p

  Step-Shared : {c c' : CrossCpuQueue S} → Step S c c' → Shared c → Shared c'
  unfolding submit respond poll_tx poll_rx flush_tx flush_rx Shared
  Step-Shared {c} {c'} (submits item e) p = SameLogs-Shared {c = c} {c' = c'} (ground arith) p
  Step-Shared {c} {c'} (polls_rx b e) p = SameLogs-Shared {c = c} {c' = c'} (ground arith) p
  Step-Shared {c} {c'} (flushes_tx b e) p = SameLogs-Shared {c = c} {c' = c'} (ground arith) p
  Step-Shared {c} {c'} (flushes_rx b e) p = SameLogs-Shared {c = c} {c' = c'} (ground arith) p
  Step-Shared {c} {c'} (responds before item after r e) p =
      let s : c'.started ≡ c.started = ground arith in
      let a : c'.responded ≡ c.responded ++ item ∷ [] = ground arith in
      let q : c'.running ≡ before ++ after = ground arith in
      rw (s, a, q) (Perm.trans p (rw r (moved c.responded before after item)))
  Step-Shared {c} {c'} (polls_tx b e) p =
      let xs = (Unbounded.process S c.tx).1 in
      let s : c'.started ≡ c.started ++ xs = ground arith in
      let a : c'.responded ≡ c.responded = ground arith in
      let q : c'.running ≡ c.running ++ xs = ground arith in
      rw (s, a, q, ← append_assoc c.responded c.running xs) (Perm.append_right xs p)

  Reach-InOrder : {c : CrossCpuQueue S} → Reach S c → InOrder c
  Reach-InOrder (here i j) = init-InOrder i j
  Reach-InOrder (next r st) = Step-InOrder st (Reach-InOrder r)

  Reach-Shared : {c : CrossCpuQueue S} → Reach S c → Shared c
  unfolding init Shared
  Reach-Shared (here i j) = Perm.refl []
  Reach-Shared (next {c = c} r st) = Step-Shared st (Reach-Shared r)

  -- In every state that the two CPUs' calls lead to: the requests are started in the order of their
  -- submission, the answers are completed in the order in which they were given, and the submitted
  -- items are, up to order, exactly those that are completed, those whose answer is under way, those
  -- that run and those whose request is under way. So no item is lost, and none is completed twice.
  pub Reach-accounted :
      {c : CrossCpuQueue S}
      → Reach S c
      → (c.started ++ items S c.tx ≡ c.submitted)
        × (c.completed ++ items S c.rx ≡ c.responded)
        × Perm c.submitted ((c.completed ++ items S c.rx) ++ (c.running ++ items S c.tx))
  unfolding Shared
  Reach-accounted {c} h =
      let v = Reach-InOrder h in
      (
        v.requests,
        v.answers,
        rw (v.answers, ← v.requests, ← append_assoc c.responded c.running (items S c.tx))
            (Perm.append_right (items S c.tx) (Reach-Shared h)),
      )
