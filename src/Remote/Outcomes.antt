-- ===== src/Remote/Outcomes.antt =====
-- That a promise gets what its function gave on the other CPU (lib/cross_cpu_queue.cpp).
use miniss.Base.{subst, ℕ, ◌≡◌, refl, ap, Bool, some, List, [], ◌∷◌, ◌++◌, arith}
use mathlib.Core.List.{Perm}
use miniss.Exceptions.{Outcome}
use miniss.Syscall.{ResultHolder, Completion}
use miniss.Spsc.{Spsc}
use miniss.Unbounded
use miniss.Unbounded.{capacity}
use miniss.Unbounded.Fifo.{items, push_lem, flush_lem, process_lem, init-items}
use miniss.CrossCpu
use miniss.CrossCpu.Items.{Reach-accounted}
use miniss.WorkItem.{process, passed_on, complete-process-passed_on}
use miniss.Remote.{
  Remote, construct, emplace, settle, submit, flush_tx, flush_rx, poll_tx, poll_rx, come_true, Step,
  submits, comes_true, polls_tx, polls_rx, flushes_tx, flushes_rx, Reach, here, next,
}

module _ {A : Type 0} (S : Spsc ℕ capacity) (fn : ℕ → Outcome A) where
  -- The items and the outcomes of their functions.
  abbrev pub outcomes : List ℕ → List (ℕ × Completion A)
  outcomes [] = []
  outcomes (i ∷ is) = (i, passed_on (fn i)) ∷ outcomes is

  pub outcomes-append : (is js : List ℕ) → outcomes (is ++ js) ≡ outcomes is ++ outcomes js
  outcomes-append [] js = refl
  outcomes-append (i ∷ is) js = ap (◌∷◌ (i, passed_on (fn i))) (outcomes-append is js)

  -- The items hold the outcomes.
  abbrev pub AllDone : (ℕ → ResultHolder A) → List ℕ → Type 0
  AllDone ret [] = Unit {0}
  AllDone ret (i ∷ is) = (ret i ≡ process (fn i)) × AllDone ret is

  AllDone-append :
      (ret : ℕ → ResultHolder A) (is js : List ℕ)
      → AllDone ret is
      → AllDone ret js
      → AllDone ret (is ++ js)
  AllDone-append ret [] js h k = k
  AllDone-append ret (i ∷ is) js h k = (h.0, AllDone-append ret is js h.1 k)

  AllDone-left :
      (ret : ℕ → ResultHolder A) (is js : List ℕ) → AllDone ret (is ++ js) → AllDone ret is
  AllDone-left ret [] js h = tt
  AllDone-left ret (i ∷ is) js h = (h.0, AllDone-left ret is js h.1)

  AllDone-right :
      (ret : ℕ → ResultHolder A) (is js : List ℕ) → AllDone ret (is ++ js) → AllDone ret js
  AllDone-right ret [] js h = h
  AllDone-right ret (i ∷ is) js h = AllDone-right ret is js h.1

  emplace-done :
      (ret : ℕ → ResultHolder A) (i k : ℕ)
      → ret k ≡ process (fn k)
      → emplace i (process (fn i)) ret k ≡ process (fn k)
  emplace-done ret i k h = ground arith

  AllDone-emplace :
      (ret : ℕ → ResultHolder A) (i : ℕ) (is : List ℕ)
      → AllDone ret is
      → AllDone (emplace i (process (fn i)) ret) is
  AllDone-emplace ret i [] h = tt
  AllDone-emplace ret i (k ∷ is) h = (emplace-done ret i k h.0, AllDone-emplace ret i is h.1)

  settle-outcomes :
      (ret : ℕ → ResultHolder A) (is : List ℕ) → AllDone ret is → settle ret is ≡ outcomes is
  settle-outcomes ret [] h = refl
  settle-outcomes ret (i ∷ is) h =
      ground (arith, complete-process-passed_on (fn i), settle-outcomes ret is h.1)

  pub record Inv (r : Remote A S) : Type 0 where
    pub answered : AllDone r.ret (items S r.queue.rx)
    pub settled_lem : r.settled ≡ outcomes r.queue.completed

  submit-Inv :
      (item : ℕ) {r r' : Remote A S} → Inv r → submit A S r.queue.from item r ≡ some r' → Inv r'
  unfolding submit CrossCpu.submit
  submit-Inv item {r} {r'} v e = record {
    answered = ground (arith, v.answered);
    settled_lem = ground (arith, v.settled_lem);
  }

  come_true-Inv :
      (item : ℕ) (left : List ℕ) {r r' : Remote A S}
      → Inv r
      → come_true A S fn r.queue.to item left r ≡ some r'
      → Inv r'
  unfolding come_true CrossCpu.respond
  come_true-Inv item left {r} {r'} v e =
      let pushed = (push_lem S item r.queue.rx).0 in
      let before = AllDone-emplace r.ret item (items S r.queue.rx) v.answered in
      let ret' = emplace item (process (fn item)) r.ret in
      let own : ret' item ≡ process (fn item) = ground arith in
      let done : AllDone ret' (items S (Unbounded.push S item r.queue.rx).0) =
        rw pushed (AllDone-append ret' (items S r.queue.rx) (item ∷ []) before (own, tt)) in
      record {
        answered =
            subst (λ (q : (ℕ → ResultHolder A) × Unbounded.Unbounded S). AllDone q.0 (items S q.1))
              (ground arith) done;
        settled_lem = ground (arith, v.settled_lem);
      }

  poll_rx-Inv :
      (b : Bool) {r r' : Remote A S} → Inv r → poll_rx A S r.queue.from r ≡ some (r', b) → Inv r'
  unfolding poll_rx CrossCpu.poll_rx
  poll_rx-Inv b {r} {r'} v e =
      let p = Unbounded.process S r.queue.rx in
      let popped = (process_lem S r.queue.rx).0 in
      let all : AllDone r.ret (p.1 ++ items S p.0) = rw popped v.answered in
      record {
        answered =
            subst (λ (q : (ℕ → ResultHolder A) × Unbounded.Unbounded S). AllDone q.0 (items S q.1))
              (ground arith) (AllDone-right r.ret p.1 (items S p.0) all);
        settled_lem = ground (
          arith,
          v.settled_lem,
          outcomes-append r.queue.completed p.1,
          settle-outcomes r.ret p.1 (AllDone-left r.ret p.1 (items S p.0) all),
        );
      }

  flush_rx-Inv :
      (b : Bool) {r r' : Remote A S} → Inv r → flush_rx A S r.queue.to r ≡ some (r', b) → Inv r'
  unfolding flush_rx CrossCpu.flush_rx
  flush_rx-Inv b {r} {r'} v e =
      let flushed : AllDone r.ret (items S (Unbounded.flush S r.queue.rx).0) =
        rw (flush_lem S r.queue.rx).0 v.answered in
      record {
        answered =
            subst (λ (q : (ℕ → ResultHolder A) × Unbounded.Unbounded S). AllDone q.0 (items S q.1))
              (ground arith) flushed;
        settled_lem = ground (arith, v.settled_lem);
      }

  Step-Inv : {r r' : Remote A S} → Step A S fn r r' → Inv r → Inv r'
  unfolding poll_tx flush_tx CrossCpu.poll_tx CrossCpu.flush_tx
  Step-Inv (submits item e) v = submit-Inv item v e
  Step-Inv (comes_true before item after h e) v = come_true-Inv item (before ++ after) v e
  Step-Inv (polls_tx b e) v = record {
    answered = ground (arith, v.answered);
    settled_lem = ground (arith, v.settled_lem);
  }
  Step-Inv (polls_rx b e) v = poll_rx-Inv b v e
  Step-Inv (flushes_tx b e) v = record {
    answered = ground (arith, v.answered);
    settled_lem = ground (arith, v.settled_lem);
  }
  Step-Inv (flushes_rx b e) v = flush_rx-Inv b v e

  pub Reach-Inv : {r : Remote A S} → Reach A S fn r → Inv r
  unfolding construct CrossCpu.init
  Reach-Inv (here i j) = record { answered = rw (init-items S) tt; settled_lem = refl }
  Reach-Inv (next h st) = Step-Inv st (Reach-Inv h)

  Step-queue : {r r' : Remote A S} → Step A S fn r r' → CrossCpu.Step S r.queue r'.queue
  unfolding submit come_true poll_tx poll_rx flush_tx flush_rx CrossCpu.poll_rx
  Step-queue {r} {r'} (submits item e) = CrossCpu.submits item (ground arith)
  Step-queue {r} {r'} (comes_true before item after h e) =
      CrossCpu.responds before item after h (ground arith)
  Step-queue {r} {r'} (polls_tx b e) = CrossCpu.polls_tx b (ground arith)
  Step-queue {r} {r'} (polls_rx b e) = CrossCpu.polls_rx b (ground arith)
  Step-queue {r} {r'} (flushes_tx b e) = CrossCpu.flushes_tx b (ground arith)
  Step-queue {r} {r'} (flushes_rx b e) = CrossCpu.flushes_rx b (ground arith)

  pub Reach-queue : {r : Remote A S} → Reach A S fn r → CrossCpu.Reach S r.queue
  unfolding construct
  Reach-queue (here i j) = CrossCpu.here i j
  Reach-queue (next h st) = CrossCpu.next (Reach-queue h) (Step-queue st)

  -- However the calls of the two CPUs interleave and in whatever order the functions end: the promises
  -- that are settled are those of the items that came back, in their order, each with the value or the
  -- exception that its function gave on the other CPU, and never by an abort; and every submitted item is
  -- one of those, or has its answer under way, or runs, or has its request under way.
  pub Reach-settles_outcomes :
      {r : Remote A S}
      → Reach A S fn r
      → (r.settled ≡ outcomes r.queue.completed)
        × Perm r.queue.submitted
            ((r.queue.completed ++ items S r.queue.rx) ++ (r.queue.running ++ items S r.queue.tx))
  Reach-settles_outcomes h = ((Reach-Inv h).settled_lem, (Reach-accounted S (Reach-queue h)).2)
