-- ===== src/Syscall/Runner/Invariant.antt =====
-- What every interleaving of Syscall_runner's two threads keeps (lib/io/syscall.cpp).
use miniss.Base.{
  zero, suc, ◌<◌, suc, ℕ, ◌+◌, ◌≤◌, ◌≡◌, refl, ◌⊎◌, true, List, [], ◌∷◌, ◌++◌, length,
  length-append, arith,
}
use miniss.Semaphore.{Entry, init, wait, release}
use miniss.Spsc.{length-pop_le, Spsc, length-push, length-pop}
use miniss.Syscall.Runner.{
  request_stop, Runner, WorkerPoint, head, blocked, exited, looking, consuming, held, queue_size,
  start, submit, push_call, signal, poll_results, worker_step, consume, Step, submits, pushes,
  signals, polls, stops, works, Reach, here, next,
}

module _ {W : Type 0} where
  -- Every waiter asks for one token.
  abbrev pub Ones : List (Entry W) → Type 0
  Ones [] = Unit {0}
  Ones (e ∷ es) = (e.tokens ≡ 1) × Ones es

  Ones-append :
      (es : List (Entry W)) (w : W) → Ones es → Ones (es ++ record { tokens = 1; pr = w } ∷ [])
  Ones-append [] w h = (refl, tt)
  Ones-append (e ∷ es) w h = (h.0, Ones-append es w h.1)

-- What is left for consume_all of the items that it found.
abbrev pub remaining : WorkerPoint → ℕ
remaining (consuming nr left) = left
remaining _ = 0

module _ {W : Type 0} (S : Spsc W queue_size) where
  -- Slots of the two queues that are taken or promised.
  abbrev pub in_flight : Runner S → ℕ
  in_flight r =
      length r.scheduled + (length (S.contents r.call_queue) + length (S.contents r.result_queue))

  pub record Inv (r : Runner S) : Type 0 where
    pub counted : r.queue_has_room.tokens + (in_flight r + length r.lost) ≡ queue_size
    pub ones : Ones r.queue_has_room.waiting_list
    pub found : remaining r.worker ≤ length (S.contents r.call_queue)

  submit-Inv : (w : W) (r : Runner S) → Inv r → Inv (submit S w r)
  unfolding submit wait
  submit-Inv w r v =
      ground
        (arith, Ones-append r.queue_has_room.waiting_list w, length-append r.scheduled (w ∷ []))

  poll_results-Inv :
      (r : Runner S) (es : List (Entry W))
      → es ≡ r.queue_has_room.waiting_list
      → Inv r
      → Inv (poll_results S r).0
  unfolding poll_results release
  poll_results-Inv r [] e v = ground (arith, length-pop S queue_size r.result_queue)
  poll_results-Inv r (w ∷ es) e v =
      ground (arith, length-pop S queue_size r.result_queue, length-append r.scheduled (w.pr ∷ []))

  push_call-Inv : (r : Runner S) (ws : List W) → ws ≡ r.scheduled → Inv r → Inv (push_call S r)
  unfolding push_call
  push_call-Inv r [] e v = ground arith
  push_call-Inv r (w ∷ ws) e v = ground (
    arith,
    S.write_available_lem r.call_queue,
    length-push S w r.call_queue,
    length-append r.lost (w ∷ []),
  )

  consume-Inv :
      (r : Runner S) (nr left : ℕ) (p : S.Queue × List W)
      → length p.1 + length (S.contents p.0) ≡ length (S.contents r.call_queue)
      → length p.1 ≤ 1
      → suc left ≤ length (S.contents r.call_queue)
      → Inv r
      → Inv (consume S nr left r p)
  consume-Inv r nr left (q, []) l k n v = v
  consume-Inv r nr left (q, w ∷ ws) l k n v = ground (arith, length-push S w r.result_queue)

  worker_step-Inv : (r : Runner S) (p : WorkerPoint) → p ≡ r.worker → Inv r → Inv (worker_step S r)
  unfolding worker_step
  worker_step-Inv r head e v = ground arith
  worker_step-Inv r blocked e v = ground arith
  worker_step-Inv r looking e v = ground arith
  worker_step-Inv r exited e v = ground arith
  worker_step-Inv r (consuming nr zero) e v = ground arith
  worker_step-Inv r (consuming nr (suc left)) e v = ground (
    arith,
    length-pop S 1 r.call_queue,
    length-pop_le S 1 r.call_queue,
    consume-Inv r nr left (S.pop 1 r.call_queue),
  )

  start-Inv : Inv (start S)
  unfolding start init
  start-Inv = ground (arith, S.contents-empty)

  Step-Inv : {r r' : Runner S} → Step S r r' → Inv r → Inv r'
  unfolding signal request_stop
  Step-Inv (submits w r h) v = submit-Inv w r v
  Step-Inv (pushes r h) v = push_call-Inv r r.scheduled refl v
  Step-Inv (signals r h k) v = ground arith
  Step-Inv (polls r h) v = poll_results-Inv r r.queue_has_room.waiting_list refl v
  Step-Inv (stops r h k) v = ground arith
  Step-Inv (works r) v = worker_step-Inv r r.worker refl v

  pub Reach-Inv : {r : Runner S} → Reach S r → Inv r
  Reach-Inv here = start-Inv
  Reach-Inv (next r st) = Step-Inv st (Reach-Inv r)

  -- In every state that an interleaving of the two threads leads to where a continuation of `submit_` is
  -- scheduled: the free tokens of `queue_has_room_`, the scheduled continuations, the results, the lost
  -- calls and the calls that the worker has not read make up 128, and the result queue has room for the
  -- worker's push of an unread call's result. The continuation's push of its call finds room exactly if
  -- consume_all holds fewer slots of calls that it has read than all but the unread calls make up; else
  -- the call is lost, and so is its token.
  pub Reach-room :
      {r : Runner S} (v w : W) (ws : List W)
      → Reach S r
      → r.scheduled ≡ w ∷ ws
      → let others =
          r.queue_has_room.tokens
          + (length r.scheduled + (length (S.contents r.result_queue) + length r.lost)) in
        (others + length (S.contents r.call_queue) ≡ queue_size)
        × ((S.contents r.call_queue ≡ []) ⊎ ((S.push v r.result_queue).1 ≡ true))
        × ((held r.worker < others)
              × ((push_call S r).lost ≡ r.lost)
              × (S.contents (push_call S r).call_queue ≡ S.contents r.call_queue ++ w ∷ [])
            ⊎ (others ≤ held r.worker)
              × ((push_call S r).lost ≡ r.lost ++ w ∷ [])
              × ((push_call S r).call_queue ≡ r.call_queue))
  unfolding push_call
  Reach-room {r} v w ws h e =
      let inv = Reach-Inv h in
      (
        omega (arith, inv.counted),
        ground (arith, inv, S.push-room v r.result_queue),
        ground (arith, inv, S.write_available_lem r.call_queue, S.push-room w r.call_queue),
      )
