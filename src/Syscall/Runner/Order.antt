-- ===== src/Syscall/Runner/Order.antt =====
-- In which order Syscall_runner runs and completes the calls (lib/io/syscall.cpp).
use miniss.Base.{
  inr, inl, ◌⊎◌, zero, suc, length, ℕ, ◌≤◌, ◌≡◌, refl, sym, ap, ◌∙◌, List, [], ◌∷◌, ◌++◌,
  append-nil, append_assoc, arith,
}
use miniss.Semaphore.{Entry, init, wait, release}
use miniss.Semaphore.Usage.{prs, prs-append}
use miniss.Spsc.{length-pop_le, Spsc, append-pop}
use miniss.Syscall.Runner.{
  Runner, WorkerPoint, head, blocked, exited, looking, consuming, queue_size, start, submit,
  push_call, signal, poll_results, worker_step, request_stop, consume, Step, submits, pushes,
  signals, polls, stops, works, Reach, here, next,
}
use miniss.Syscall.Runner.Invariant.{Inv, Reach-Inv}

module _ {W : Type 0} where
  shift : (a b c x : List W) → (a ++ b) ++ (c ++ x) ≡ a ++ ((b ++ c) ++ x)
  shift a b c x = append_assoc a b (c ++ x) ∙ ap (◌++◌ a) (sym (append_assoc b c x))

  snoc :
      (a b c d e : List W) (w : W)
      → (a ++ (b ++ (c ++ (d ++ e)))) ++ w ∷ [] ≡ a ++ (b ++ (c ++ (d ++ (e ++ w ∷ []))))
  snoc a b c d e w = simp append_assoc

-- `both` is a list that `kept` and `others` interleave to, each in its order.
pub data Merge {W : Type 0} : List W → List W → List W → Type 0 where
  ends : Merge [] [] []
  keeps :
      (w : W) {kept others both : List W}
      → Merge kept others both
      → Merge (w ∷ kept) others (w ∷ both)
  leaves :
      (w : W) {kept others both : List W}
      → Merge kept others both
      → Merge kept (w ∷ others) (w ∷ both)

module _ {W : Type 0} where
  Merge-kept : {a b c : List W} (w : W) → Merge a b c → Merge (a ++ w ∷ []) b (c ++ w ∷ [])
  Merge-kept w ends = keeps w ends
  Merge-kept w (keeps x m) = keeps x (Merge-kept w m)
  Merge-kept w (leaves x m) = leaves x (Merge-kept w m)

  Merge-left : {a b c : List W} (w : W) → Merge a b c → Merge a (b ++ w ∷ []) (c ++ w ∷ [])
  Merge-left w ends = leaves w ends
  Merge-left w (keeps x m) = keeps x (Merge-left w m)
  Merge-left w (leaves x m) = leaves x (Merge-left w m)

  -- Where nothing is left out, the merge is what is kept.
  pub Merge-all : {a b c : List W} → Merge a b c → b ≡ [] → a ≡ c
  Merge-all ends e = refl
  Merge-all (keeps x m) e = ap (◌∷◌ x) (Merge-all m e)
  Merge-all (leaves x m) e = ground arith

module _ {W : Type 0} (S : Spsc W queue_size) where
  -- The calls that were pushed and are not lost, and those whose push is to come.
  abbrev pub kept : Runner S → List W
  kept r = r.completed ++ (S.contents r.result_queue ++ S.contents r.call_queue)

  abbrev pub to_come : Runner S → List W
  to_come r = r.scheduled ++ prs r.queue_has_room.waiting_list

  -- `pushed` are the calls whose continuation has run.
  pub record Ordered (r : Runner S) : Type 0 where
    pub pushed : List W
    pub merged : Merge (kept r) r.lost pushed
    pub queued : pushed ++ to_come r ≡ r.submitted
    pub worked : r.completed ++ S.contents r.result_queue ≡ r.processed

  submit-to_come :
      (w : W) (r : Runner S) (es : List (Entry W))
      → es ≡ r.queue_has_room.waiting_list
      → (to_come (submit S w r) ≡ to_come r ++ w ∷ [])
        × ((submit S w r).submitted ≡ r.submitted ++ w ∷ [])
  unfolding submit wait
  submit-to_come w r [] e =
      ground (arith, append-nil r.scheduled, append-nil (r.scheduled ++ w ∷ []))
  submit-to_come w r (d ∷ es) e = ground (
    arith,
    prs-append (d ∷ es) (record { tokens = 1; pr = w } ∷ []),
    append_assoc r.scheduled (prs (d ∷ es)) (w ∷ []),
  )

  submit-kept :
      (w : W) (r : Runner S)
      → let r' = submit S w r in
        (kept r' ≡ kept r)
        × (r'.lost ≡ r.lost)
        × (r'.completed ++ S.contents r'.result_queue ≡ r.completed ++ S.contents r.result_queue)
        × (r'.processed ≡ r.processed)
  unfolding submit wait
  submit-kept w r = ground arith

  submit-Ordered : (w : W) (r : Runner S) → Ordered r → Ordered (submit S w r)
  submit-Ordered w r v =
      let (come, log) = submit-to_come w r r.queue_has_room.waiting_list refl in
      let (k, l, c, p) = submit-kept w r in
      record {
        pushed = v.pushed;
        merged = rw (k, l) v.merged;
        queued =
            ap (◌++◌ v.pushed) come
            ∙ (sym (append_assoc v.pushed (to_come r) (w ∷ []))
                ∙ (ap (λ z. z ++ w ∷ []) v.queued ∙ sym log));
        worked = c ∙ (v.worked ∙ sym p);
      }

  poll_results-kept :
      (r : Runner S) (es : List (Entry W))
      → es ≡ r.queue_has_room.waiting_list
      → let r' = (poll_results S r).0 in
        (kept r' ≡ kept r)
        × (r'.lost ≡ r.lost)
        × (to_come r' ≡ to_come r)
        × (r'.submitted ≡ r.submitted)
        × (r'.completed ++ S.contents r'.result_queue ≡ r.completed ++ S.contents r.result_queue)
        × (r'.processed ≡ r.processed)
  unfolding poll_results release
  poll_results-kept r [] e = ground (
    arith,
    append-pop S queue_size r.result_queue,
    shift r.completed (S.pop queue_size r.result_queue).1
        (S.contents (S.pop queue_size r.result_queue).0) (S.contents r.call_queue),
    append_assoc r.completed (S.pop queue_size r.result_queue).1
        (S.contents (S.pop queue_size r.result_queue).0),
  )
  poll_results-kept r (w ∷ es) e = ground (
    arith,
    append-pop S queue_size r.result_queue,
    shift r.completed (S.pop queue_size r.result_queue).1
        (S.contents (S.pop queue_size r.result_queue).0) (S.contents r.call_queue),
    append_assoc r.completed (S.pop queue_size r.result_queue).1
        (S.contents (S.pop queue_size r.result_queue).0),
    append_assoc r.scheduled (w.pr ∷ []) (prs es),
  )

  -- A step that keeps all these lists.
  Ordered-same :
      (r r' : Runner S)
      → (kept r' ≡ kept r)
        × (r'.lost ≡ r.lost)
        × (to_come r' ≡ to_come r)
        × (r'.submitted ≡ r.submitted)
      → r'.completed ++ S.contents r'.result_queue ≡ r'.processed
      → Ordered r
      → Ordered r'
  Ordered-same r r' (k, l, c, s) w v = record {
    pushed = v.pushed;
    merged = rw (k, l) v.merged;
    queued = ap (◌++◌ v.pushed) c ∙ (v.queued ∙ sym s);
    worked = w;
  }

  poll_results-Ordered : (r : Runner S) → Ordered r → Ordered (poll_results S r).0
  poll_results-Ordered r v =
      let (k, l, c, s, w, p) = poll_results-kept r r.queue_has_room.waiting_list refl in
      Ordered-same r (poll_results S r).0 (k, l, c, s) (w ∙ (v.worked ∙ sym p)) v

  push_call-cases :
      (r : Runner S) (w : W) (ws : List W)
      → r.scheduled ≡ w ∷ ws
      → let r' = push_call S r in
        ((kept r' ≡ kept r ++ w ∷ []) × (r'.lost ≡ r.lost)
          ⊎ (kept r' ≡ kept r) × (r'.lost ≡ r.lost ++ w ∷ []))
        × (to_come r ≡ w ∷ to_come r')
        × (r'.submitted ≡ r.submitted)
        × (r'.completed ≡ r.completed)
        × (r'.result_queue ≡ r.result_queue)
        × (r'.processed ≡ r.processed)
  unfolding push_call
  push_call-cases r w ws e = ground (
    arith,
    S.write_available_lem r.call_queue,
    S.push-room w r.call_queue,
    shift r.completed (S.contents r.result_queue) (S.contents r.call_queue) (w ∷ []),
    append_assoc r.completed (S.contents r.result_queue ++ S.contents r.call_queue) (w ∷ []),
    append_assoc (S.contents r.result_queue) (S.contents r.call_queue) (w ∷ []),
  )

  push_call-nil : (r : Runner S) → [] ≡ r.scheduled → push_call S r ≡ r
  unfolding push_call
  push_call-nil r e = ground arith

  push_call-Ordered :
      (r : Runner S) (ws : List W) → ws ≡ r.scheduled → Ordered r → Ordered (push_call S r)
  push_call-Ordered r [] e v = rw (push_call-nil r e) v
  push_call-Ordered r (w ∷ ws) e v =
      let (pushed, come, s, c, q, p) = push_call-cases r w ws (sym e) in
      let r' = push_call S r in
      let queued : (v.pushed ++ w ∷ []) ++ to_come r' ≡ r'.submitted =
        append_assoc v.pushed (w ∷ []) (to_come r')
        ∙ (ap (◌++◌ v.pushed) (sym come) ∙ (v.queued ∙ sym s)) in
      let worked : r'.completed ++ S.contents r'.result_queue ≡ r'.processed =
        rw (c, q, p) v.worked in
      elim pushed [
        | inl (k, l) ↦ record {
          pushed = v.pushed ++ w ∷ [];
          merged = rw (k, l) (Merge-kept w v.merged);
          queued = queued;
          worked = worked;
        }
        | inr (k, l) ↦ record {
          pushed = v.pushed ++ w ∷ [];
          merged = rw (k, l) (Merge-left w v.merged);
          queued = queued;
          worked = worked;
        }
      ]

  consume-kept :
      (r : Runner S) (nr left : ℕ) (p : S.Queue × List W)
      → p.1 ++ S.contents p.0 ≡ S.contents r.call_queue
      → length p.1 ≤ 1
      → Inv S r
      → Ordered r
      → let r' = consume S nr left r p in
        (kept r' ≡ kept r)
        × (r'.lost ≡ r.lost)
        × (to_come r' ≡ to_come r)
        × (r'.submitted ≡ r.submitted)
        × (r'.completed ++ S.contents r'.result_queue ≡ r'.processed)
  consume-kept r nr left (q, []) l k i v = ground (arith, v.worked)
  consume-kept r nr left (q, w ∷ []) l k i v = ground (
    arith,
    v.worked,
    i.counted,
    S.push-room w r.result_queue,
    append_assoc r.completed (S.contents r.result_queue) (w ∷ []),
    append_assoc (S.contents r.result_queue) (w ∷ []) (S.contents q),
  )
  consume-kept r nr left (q, w ∷ x ∷ ws) l k i v = absurd (omega arith)

  worker_step-kept :
      (r : Runner S) (p : WorkerPoint)
      → p ≡ r.worker
      → Inv S r
      → Ordered r
      → let r' = worker_step S r in
        (kept r' ≡ kept r)
        × (r'.lost ≡ r.lost)
        × (to_come r' ≡ to_come r)
        × (r'.submitted ≡ r.submitted)
        × (r'.completed ++ S.contents r'.result_queue ≡ r'.processed)
  unfolding worker_step
  worker_step-kept r head e i v = ground (arith, v.worked)
  worker_step-kept r blocked e i v = ground (arith, v.worked)
  worker_step-kept r looking e i v = ground (arith, v.worked)
  worker_step-kept r exited e i v = ground (arith, v.worked)
  worker_step-kept r (consuming nr zero) e i v = ground (arith, v.worked)
  worker_step-kept r (consuming nr (suc left)) e i v = ground (
    arith,
    append-pop S 1 r.call_queue,
    length-pop_le S 1 r.call_queue,
    consume-kept r nr left (S.pop 1 r.call_queue),
  )

  worker_step-Ordered :
      (r : Runner S) (p : WorkerPoint)
      → p ≡ r.worker
      → Inv S r
      → Ordered r
      → Ordered (worker_step S r)
  worker_step-Ordered r p e i v =
      let (k, l, c, s, w) = worker_step-kept r p e i v in
      Ordered-same r (worker_step S r) (k, l, c, s) w v

  start-Ordered : Ordered (start S)
  unfolding start init
  start-Ordered = record {
    pushed = [];
    merged = rw S.contents-empty ends;
    queued = refl;
    worked = ground (arith, S.contents-empty);
  }

  Step-Ordered : {r r' : Runner S} → Step S r r' → Inv S r → Ordered r → Ordered r'
  unfolding signal request_stop
  Step-Ordered (submits w r h) i v = submit-Ordered w r v
  Step-Ordered (pushes r h) i v = push_call-Ordered r r.scheduled refl v
  Step-Ordered (signals r h k) i v = ground arith
  Step-Ordered (polls r h) i v = poll_results-Ordered r v
  Step-Ordered (stops r h k) i v = ground arith
  Step-Ordered (works r) i v = worker_step-Ordered r r.worker refl i v

  Reach-Ordered_at : {r : Runner S} → Reach S r → Ordered r
  Reach-Ordered_at here = start-Ordered
  Reach-Ordered_at (next r st) = Step-Ordered st (Reach-Inv S r) (Reach-Ordered_at r)

  -- In every state that an interleaving of the two threads leads to: the calls whose continuation has
  -- run, followed by the scheduled continuations and the waiters of the semaphore, are the submitted
  -- calls in the order of submission. The former are a merge of the lost calls, for which the push found
  -- no room, with the completed ones, the results that wait for the poller and the calls that wait for
  -- the worker, in this order: no other call is lost, and none is duplicated or overtaken. And the
  -- completed calls and the waiting results are the ones that the worker has processed, so `complete`
  -- meets processed items only.
  pub Reach-Ordered :
      {r : Runner S}
      → Reach S r
      → ((pushed : List W) × Merge
            (r.completed ++ (S.contents r.result_queue ++ S.contents r.call_queue))
            r.lost
            pushed
          × (pushed ++ (r.scheduled ++ prs r.queue_has_room.waiting_list) ≡ r.submitted))
        × (r.completed ++ S.contents r.result_queue ≡ r.processed)
  Reach-Ordered h = let v = Reach-Ordered_at h in ((v.pushed, v.merged, v.queued), v.worked)

  -- Where no call is lost, all are there, in order.
  pub Reach-whole :
      {r : Runner S}
      → Reach S r
      → r.lost ≡ []
      → r.completed
          ++ (S.contents r.result_queue
              ++ (S.contents r.call_queue ++ (r.scheduled ++ prs r.queue_has_room.waiting_list)))
        ≡ r.submitted
  Reach-whole {r} h none_lost =
      let v = Reach-Ordered_at h in
      let calls = S.contents r.call_queue in
      let results = S.contents r.result_queue in
      ap (◌++◌ r.completed) (sym (append_assoc results calls (to_come r)))
      ∙ (sym (append_assoc r.completed (results ++ calls) (to_come r))
          ∙ (ap (λ z. z ++ to_come r) (Merge-all v.merged none_lost) ∙ v.queued))
