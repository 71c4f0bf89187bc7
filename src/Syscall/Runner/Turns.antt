-- ===== src/Syscall/Runner/Turns.antt =====
-- That every call gets done (lib/io/syscall.cpp), also those that wait for room: the CPU's thread and the
-- worker in turns.
use miniss.Base.{
  min, subst, zero-cases, get_elem?-front, get_elem?-lt, ℕ, zero, suc, ◌+◌, ◌^◌, ◌≤◌, ◌<◌, ◌≡◌,
  refl, sym, ap, ◌∙◌, ◌⊎◌, inl, inr, false, some, List, [], ◌∷◌, ◌++◌, get_elem?, append-nil,
  length, length-append, arith,
}
use miniss.Semaphore.{Entry, release}
use miniss.Semaphore.Usage.{prs}
use miniss.Spsc.{length-pop, Spsc}
use miniss.Syscall.Runner.{
  Runner, queue_size, blocked, push_call, signal, poll_results, worker_step, Reach, next, pushes,
  signals, polls,
}
use miniss.Syscall.Runner.Invariant.{Inv, Reach-Inv}
use miniss.Syscall.Runner.Order.{Reach-Ordered, Reach-whole}
use miniss.Syscall.Runner.Wakeup.{Reach-no_lost_wakeup}
use miniss.Syscall.Runner.Drain.{work, work-drains, stays}
use miniss.Syscall.Runner.Completion.{
  work-Reach, work-signalling, poll_results-all, pop-none_left, pushed,
}

module _ {W : Type 0} (S : Spsc W queue_size) where
  -- The oldest continuation of `submit_`, if there is one.
  abbrev pub continue : Runner S → List W → Runner S
  continue r [] = r
  continue r (w ∷ ws) = signal S (push_call S r)

  -- The continuation, the worker until it sleeps, and a poll.
  abbrev pub turn_from : Runner S → Runner S
  turn_from c = (poll_results S (work S (suc (length (S.contents c.call_queue) + 4)) c)).0

  unfoldable pub turns : ℕ → Runner S → Runner S
  turns zero r = r
  turns (suc n) r = turns n (turn_from (continue r r.scheduled))

  work-submitted : (n : ℕ) (r : Runner S) → (work S n r).submitted ≡ r.submitted
  unfolding work worker_step
  work-submitted zero r = refl
  work-submitted (suc n) r = work-submitted n (worker_step S r) ∙ ground arith

  work-lost : (n : ℕ) (r : Runner S) → (work S n r).lost ≡ r.lost
  unfolding work worker_step
  work-lost zero r = refl
  work-lost (suc n) r = work-lost n (worker_step S r) ∙ ground arith

  work-stop_requested : (n : ℕ) (r : Runner S) → (work S n r).stop_requested ≡ r.stop_requested
  unfolding work worker_step
  work-stop_requested zero r = refl
  work-stop_requested (suc n) r = work-stop_requested n (worker_step S r) ∙ ground arith

  pub work-asleep : (n : ℕ) (r : Runner S) → r.worker ≡ blocked → r.interrupter ≡ 0 → work S n r ≡ r
  unfolding work
  work-asleep zero r w i = refl
  work-asleep (suc n) r w i = ap (work S n) (stays S r (inr (w, i))) ∙ work-asleep n r w i

  -- The worker sleeps, and nothing else is under way.
  record Sleeping (r : Runner S) : Type 0 where
    reached : Reach S r
    sleeps : r.worker ≡ blocked
    goes_on : r.stop_requested ≡ false
    between : r.signalling ≡ false
    whole : r.lost ≡ []

  record Worked (c d : Runner S) : Type 0 where
    sleeping : Sleeping d
    clear : d.interrupter ≡ 0
    calls : S.contents d.call_queue ≡ []
    log : d.processed ≡ c.processed ++ S.contents c.call_queue
    same : d.submitted ≡ c.submitted

  worked :
      (c : Runner S) (xs : List W)
      → S.contents c.call_queue ≡ xs
      → Sleeping c
      → Worked c (work S (suc (length xs + 4)) c)
  worked c xs e s = elim (zero-cases c.interrupter) [
    | inl i ↦
        let same = work-asleep (suc (length xs + 4)) c s.sleeps i in
        let none_left = Reach-no_lost_wakeup S s.reached s.sleeps i s.between in
        subst (Worked c) (sym same) (record {
          sleeping = s;
          clear = i;
          calls = none_left;
          log = sym (ap (λ z. c.processed ++ z) none_left ∙ append-nil c.processed);
          same = refl;
        })
    | inr i ↦
        let d = work S (suc (length xs + 4)) c in
        let done =
          work-drains S xs c s.sleeps i s.goes_on e
            (omega (arith, (Reach-Inv S s.reached).counted, ap length e)) in
        record {
          sleeping = record {
            reached = work-Reach S (suc (length xs + 4)) s.reached;
            sleeps = done.3;
            goes_on = work-stop_requested (suc (length xs + 4)) c ∙ s.goes_on;
            whole = work-lost (suc (length xs + 4)) c ∙ s.whole;
            between = work-signalling S (suc (length xs + 4)) c ∙ s.between;
          };
          clear = done.4;
          calls = done.0;
          log = done.2 ∙ ap (λ z. c.processed ++ z) (sym e);
          same = work-submitted (suc (length xs + 4)) c;
        }
  ]

  -- What a poll leaves when the worker sleeps and no call waits for it.
  record Polled (d p : Runner S) : Type 0 where
    sleeping : Sleeping p
    clear : p.interrupter ≡ 0
    all : p.completed ≡ d.processed
    same : p.submitted ≡ d.submitted
    none_left :
        length p.completed + (length p.scheduled + length (prs p.queue_has_room.waiting_list))
        ≡ length p.submitted
    wakes : (0 < length p.scheduled) ⊎ (length (prs p.queue_has_room.waiting_list) ≡ 0)

  poll_results-keeps :
      (d : Runner S) (es : List (Entry W))
      → es ≡ d.queue_has_room.waiting_list
      → let p = (poll_results S d).0 in
        (p.worker ≡ d.worker)
        × (p.stop_requested ≡ d.stop_requested)
        × (p.signalling ≡ d.signalling)
        × (p.interrupter ≡ d.interrupter)
        × (p.submitted ≡ d.submitted)
        × (p.processed ≡ d.processed)
        × (p.call_queue ≡ d.call_queue)
        × (p.lost ≡ d.lost)
  unfolding poll_results release
  poll_results-keeps d [] e = ground arith
  poll_results-keeps d (w ∷ es) e = ground arith

  -- `release` lets the first waiter go, since all tokens are free where nothing is scheduled.
  poll_results-wakes :
      (d : Runner S) (es : List (Entry W))
      → es ≡ d.queue_has_room.waiting_list
      → Inv S d
      → d.lost ≡ []
      → S.contents d.call_queue ≡ []
      → let p = (poll_results S d).0 in
        (0 < length p.scheduled) ⊎ (length (prs p.queue_has_room.waiting_list) ≡ 0)
  unfolding poll_results release
  poll_results-wakes d [] e v u c = inr (ground arith)
  poll_results-wakes d (w ∷ es) e v u c = ground (
    arith,
    length-pop S queue_size d.result_queue,
    length-append d.scheduled (w.pr ∷ []),
    ap length (pop-none_left S d v),
  )

  poll_results-counts :
      (d : Runner S)
      → Sleeping d
      → S.contents d.call_queue ≡ []
      → let p = (poll_results S d).0 in
        length p.completed + (length p.scheduled + length (prs p.queue_has_room.waiting_list))
        ≡ length p.submitted
  poll_results-counts d s c =
      let p = (poll_results S d).0 in
      let keeps = poll_results-keeps d d.queue_has_room.waiting_list refl in
      let reached : Reach S p = next s.reached (polls d s.between) in
      let order = Reach-Ordered S reached in
      let whole = Reach-whole S reached (keeps.7 ∙ s.whole) in
      let waiting = prs p.queue_has_room.waiting_list in
      let calls = S.contents p.call_queue ++ (p.scheduled ++ waiting) in
      let none_left : length (S.contents p.call_queue) ≡ 0 =
        ap (λ q. length (S.contents q)) keeps.6 ∙ ap length c in
      omega (
        arith,
        none_left,
        ap length whole,
        ap length (order.1 ∙ (keeps.5 ∙ sym (poll_results-all S d s.reached s.between))),
        length-append p.completed (S.contents p.result_queue ++ calls),
        length-append p.completed (S.contents p.result_queue),
        length-append (S.contents p.result_queue) calls,
        length-append (S.contents p.call_queue) (p.scheduled ++ waiting),
        length-append p.scheduled waiting,
      )

  polled :
      (d : Runner S)
      → Sleeping d
      → d.interrupter ≡ 0
      → S.contents d.call_queue ≡ []
      → Polled d (poll_results S d).0
  polled d s i c =
      let keeps = poll_results-keeps d d.queue_has_room.waiting_list refl in
      record {
        sleeping = record {
          reached = next s.reached (polls d s.between);
          sleeps = keeps.0 ∙ s.sleeps;
          goes_on = keeps.1 ∙ s.goes_on;
          between = keeps.2 ∙ s.between;
          whole = keeps.7 ∙ s.whole;
        };
        clear = keeps.3 ∙ i;
        all = poll_results-all S d s.reached s.between;
        same = keeps.4;
        none_left = poll_results-counts d s c;
        wakes =
            poll_results-wakes d d.queue_has_room.waiting_list refl (Reach-Inv S s.reached) s.whole
              c;
      }

  -- What a turn of a state that continues as `c` leaves.
  record Turned (c p : Runner S) : Type 0 where
    sleeping : Sleeping p
    clear : p.interrupter ≡ 0
    all : p.completed ≡ c.processed ++ S.contents c.call_queue
    same : p.submitted ≡ c.submitted
    none_left :
        length p.completed + (length p.scheduled + length (prs p.queue_has_room.waiting_list))
        ≡ length p.submitted
    wakes : (0 < length p.scheduled) ⊎ (length (prs p.queue_has_room.waiting_list) ≡ 0)

  turned : (c : Runner S) → Sleeping c → Turned c (turn_from c)
  turned c s =
      let w = worked c (S.contents c.call_queue) refl s in
      let p =
        polled (work S (suc (length (S.contents c.call_queue) + 4)) c) w.sleeping w.clear w.calls in
      record {
        sleeping = p.sleeping;
        clear = p.clear;
        all = p.all ∙ w.log;
        same = p.same ∙ w.same;
        none_left = p.none_left;
        wakes = p.wakes;
      }

  push_call-submitted :
      (r : Runner S) (ws : List W)
      → ws ≡ r.scheduled
      → (signal S (push_call S r)).submitted ≡ r.submitted
  unfolding signal push_call
  push_call-submitted r [] e = ground arith
  push_call-submitted r (w ∷ ws) e = ground arith

  -- From a state that sleeps, a turn completes at least one call more where one is scheduled.
  turn-completes :
      (r : Runner S) (ws : List W)
      → r.scheduled ≡ ws
      → Sleeping r
      → r.interrupter + 1 < 2 ^ 64
      → let p = turn_from (continue r ws) in
        Turned (continue r ws) p
        × (p.submitted ≡ r.submitted)
        × (length r.completed + min 1 (length ws) ≤ length p.completed)
  turn-completes r [] e s i =
      let t = turned r s in
      (
        t,
        t.same,
        omega (
          arith,
          ap length t.all,
          ap length (Reach-Ordered S s.reached).1,
          length-append r.completed (S.contents r.result_queue),
          length-append r.processed (S.contents r.call_queue),
        ),
      )
  turn-completes r (w ∷ ws) e s i =
      let inv = Reach-Inv S s.reached in
      let p = pushed S r w ws e s.sleeps (omega (arith, inv.counted, ap length e)) i in
      let c = signal S (push_call S r) in
      let sleeping : Sleeping c = record {
        reached =
            next (next s.reached (pushes r s.between))
              (signals (push_call S r) p.6 (omega (arith, p.7, i)));
        sleeps = p.3 ∙ s.sleeps;
        goes_on = p.4 ∙ s.goes_on;
        between = p.8;
        whole = p.9 ∙ s.whole;
      } in
      let t : Turned c (turn_from c) = turned c sleeping in
      (
        t,
        t.same ∙ push_call-submitted r r.scheduled refl,
        omega (
          arith,
          ap length t.all,
          ap length (Reach-Ordered S s.reached).1,
          ap length p.0,
          ap length p.2,
          length-append r.completed (S.contents r.result_queue),
          length-append (S.contents r.call_queue) (w ∷ []),
          length-append c.processed (S.contents c.call_queue),
        ),
      )

  turns-grow :
      (n : ℕ) (r : Runner S)
      → Sleeping r
      → r.interrupter + 1 < 2 ^ 64
      → length r.completed + (length r.scheduled + length (prs r.queue_has_room.waiting_list))
        ≡ length r.submitted
      → (0 < length r.scheduled) ⊎ (length (prs r.queue_has_room.waiting_list) ≡ 0)
      → let r' = turns n r in
        Reach S r'
        × (r'.submitted ≡ r.submitted)
        × (min (length r.completed + n) (length r.submitted) ≤ length r'.completed)
        × (r'.lost ≡ [])
  unfolding turns
  turns-grow zero r s i l k = (s.reached, refl, omega arith, s.whole)
  turns-grow (suc n) r s i l k =
      let one = turn-completes r r.scheduled refl s i in
      let t = one.0 in
      let more =
        turns-grow n (turn_from (continue r r.scheduled)) t.sleeping (omega (arith, t.clear))
          t.none_left t.wakes in
      (more.0, more.1 ∙ one.1, ground (arith, more.2, one.2, ap length one.1), more.3)

  -- Every call gets done, also where more are submitted than the two queues have room for. From a state that
  -- an interleaving leads to in which no call is lost, the worker sleeps, no stop is requested and the
  -- eventfd's count stays below 2^64: `n + 1` turns, each of the oldest continuation of `submit_`, if there is
  -- one, of as many steps of the worker as calls wait, and five more, and of one poll, complete at least `n`
  -- more of the submitted calls, in the order of submission, or all, and lose none. The poll of the first turn
  -- may only let a waiter go.
  pub turns-completed :
      (n j : ℕ) (w : W) (r : Runner S)
      → Reach S r
      → r.lost ≡ []
      → r.worker ≡ blocked
      → r.stop_requested ≡ false
      → r.signalling ≡ false
      → r.interrupter + 1 < 2 ^ 64
      → j < length r.completed + n
      → get_elem? r.submitted j ≡ some w
      → let r' = turns (suc n) r in (get_elem? r'.completed j ≡ some w) × (r'.lost ≡ [])
  unfolding turns
  turns-completed n j w r h u b s k i lt at =
      let sleeping : Sleeping r = record {
        reached = h;
        sleeps = b;
        goes_on = s;
        between = k;
        whole = u;
      } in
      let (t, same, grown) = turn-completes r r.scheduled refl sleeping i in
      let p = turn_from (continue r r.scheduled) in
      let (reach, kept, count, none_lost) =
        turns-grow n p t.sleeping (omega (arith, t.clear)) t.none_left t.wakes in
      let r' = turns n p in
      let late =
        S.contents r'.result_queue
        ++ (S.contents r'.call_queue ++ (r'.scheduled ++ prs r'.queue_has_room.waiting_list)) in
      let order : r'.completed ++ late ≡ r.submitted =
        Reach-whole S reach none_lost ∙ (kept ∙ same) in
      let found : j < length r.submitted = get_elem?-lt r.submitted j w at in
      let done : j < length r'.completed = omega (arith, found, count, grown, ap length same) in
      (
        sym (get_elem?-front r'.completed late j done) ∙ (ap (λ z. get_elem? z j) order ∙ at),
        none_lost,
      )
