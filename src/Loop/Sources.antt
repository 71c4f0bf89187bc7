-- ===== src/Loop/Sources.antt =====
-- The sources of work of a CPU: requests and answers of a Cross_cpu_queue (lib/cross_cpu_queue.cpp), and
-- results of the Syscall_runner (lib/io/syscall.cpp).
use miniss.Base.{
  subst, ℕ, zero, suc, ◌≤◌, ◌<◌, ◌≡◌, ◌⊎◌, refl, sym, Bool, true, false, List, [], ◌∷◌, ◌++◌,
  length, some, arith, is_empty,
}
use miniss.Spsc.{Spsc, pop-nil, append-pop}
use miniss.Unbounded
use miniss.Unbounded.{Unbounded, capacity, batch}
use miniss.Unbounded.Fifo.{push-visible, flush-visible}
use miniss.CrossCpu
use miniss.CrossCpu.{CrossCpuQueue}
use miniss.Syscall.Runner
use miniss.Syscall.Runner.{
  Runner, WorkerPoint, head, blocked, exited, looking, consuming, queue_size,
}
use miniss.Loop.{Source}

is_empty-append : {A : Type 0} (xs ys : List A) → is_empty (xs ++ ys) ≡ true → is_empty ys ≡ true
is_empty-append [] ys h = h
is_empty-append (x ∷ xs) ys h = cc

pub length-zero : {A : Type 0} (xs : List A) → length xs ≡ 0 → xs ≡ []
length-zero [] h = refl
length-zero (x ∷ xs) h = absurd (omega arith)

module _ {A : Type 0} {cap : ℕ} (S : Spsc A cap) where
  pub pop-is_empty :
      (n : ℕ) (q : S.Queue)
      → is_empty (S.contents q) ≡ true
      → is_empty (S.contents (S.pop n q).0) ≡ true
  pop-is_empty n q h =
      is_empty-append (S.pop n q).1 (S.contents (S.pop n q).0) (rw (append-pop S n q) h)

  pub popped-is_empty :
      (n : ℕ) (q : S.Queue)
      → 0 < n
      → length (S.pop n q).1 ≡ 0
      → is_empty (S.contents (S.pop n q).0) ≡ true
  popped-is_empty n q h e = pop-is_empty n q (rw (pop-nil S n q h (length-zero (S.pop n q).1 e)))

module _ {I : Type 0} (S : Spsc I capacity) where
  abbrev pub is_idle : Unbounded S → Bool
  is_idle u = is_empty (S.contents u.queue)

  pub request-wakes :
      (x y : CrossCpuQueue S)
      → CrossCpu.Step S x y
      → ((is_idle x.tx ≡ true → is_idle y.tx ≡ true)
          ⊎ (false ≡ true)
          ⊎ (x.to_wakeups < y.to_wakeups))
        × (false ≡ true → (false ≡ true) ⊎ (x.to_wakeups < y.to_wakeups))
        × (x.to_wakeups ≤ y.to_wakeups)
  unfolding CrossCpu.submit CrossCpu.respond CrossCpu.poll_tx CrossCpu.poll_rx CrossCpu.flush_tx
      CrossCpu.flush_rx Unbounded.process
  request-wakes x y (CrossCpu.submits item e) = ground (arith, push-visible S item x.tx)
  request-wakes x y (CrossCpu.responds before item after r e) = ground arith
  request-wakes x y (CrossCpu.polls_tx b e) = ground (arith, pop-is_empty S batch x.tx.queue)
  request-wakes x y (CrossCpu.polls_rx b e) = ground arith
  request-wakes x y (CrossCpu.flushes_tx b e) = ground (arith, flush-visible S x.tx)
  request-wakes x y (CrossCpu.flushes_rx b e) = ground arith

  pub answer-wakes :
      (x y : CrossCpuQueue S)
      → CrossCpu.Step S x y
      → ((is_idle x.rx ≡ true → is_idle y.rx ≡ true)
          ⊎ (false ≡ true)
          ⊎ (x.from_wakeups < y.from_wakeups))
        × (false ≡ true → (false ≡ true) ⊎ (x.from_wakeups < y.from_wakeups))
        × (x.from_wakeups ≤ y.from_wakeups)
  unfolding CrossCpu.submit CrossCpu.respond CrossCpu.poll_tx CrossCpu.poll_rx CrossCpu.flush_tx
      CrossCpu.flush_rx Unbounded.process
  answer-wakes x y (CrossCpu.submits item e) = ground arith
  answer-wakes x y (CrossCpu.responds before item after r e) =
      ground (arith, push-visible S item x.rx)
  answer-wakes x y (CrossCpu.polls_tx b e) = ground arith
  answer-wakes x y (CrossCpu.polls_rx b e) = ground (arith, pop-is_empty S batch x.rx.queue)
  answer-wakes x y (CrossCpu.flushes_tx b e) = ground arith
  answer-wakes x y (CrossCpu.flushes_rx b e) = ground (arith, flush-visible S x.rx)

  pub poll_tx-finds :
      (x y : CrossCpuQueue S) (found : Bool)
      → CrossCpu.poll_tx S x.to x ≡ some (y, found)
      → (found ≡ false → is_idle y.tx ≡ true) × (false ≡ false) × (y.to_wakeups ≡ x.to_wakeups)
  unfolding CrossCpu.poll_tx Unbounded.process
  poll_tx-finds x y found e = ground (arith, popped-is_empty S batch x.tx.queue)

  pub poll_rx-finds :
      (x y : CrossCpuQueue S) (found : Bool)
      → CrossCpu.poll_rx S x.from x ≡ some (y, found)
      → (found ≡ false → is_idle y.rx ≡ true) × (false ≡ false) × (y.from_wakeups ≡ x.from_wakeups)
  unfolding CrossCpu.poll_rx Unbounded.process
  poll_rx-finds x y found e = ground (arith, popped-is_empty S batch x.rx.queue)

  -- The requests that wait for CPU `to`, and the answers that wait for CPU `from`.
  abbrev pub requests : Source
  requests = record {
    State = CrossCpuQueue S;
    is_idle = λ c. is_idle c.tx;
    wakeups = λ c. c.to_wakeups;
    owes = λ c. false;
    Change = CrossCpu.Step S;
    Look = λ x y found. CrossCpu.poll_tx S x.to x ≡ some (y, found);
    change-wakes = request-wakes;
    look-finds = poll_tx-finds;
  }

  abbrev pub answers : Source
  answers = record {
    State = CrossCpuQueue S;
    is_idle = λ c. is_idle c.rx;
    wakeups = λ c. c.from_wakeups;
    owes = λ c. false;
    Change = CrossCpu.Step S;
    Look = λ x y found. CrossCpu.poll_rx S x.from x ≡ some (y, found);
    change-wakes = answer-wakes;
    look-finds = poll_rx-finds;
  }

-- The worker has pushed results and will call maybe_wakeup at the end of consume_all.
abbrev pub owes_wakeup : WorkerPoint → Bool
owes_wakeup (consuming (suc nr) left) = true
owes_wakeup _ = false

module _ {W : Type 0} (S : Spsc W queue_size) where
  abbrev pub no_result : Runner S → Bool
  no_result r = is_empty (S.contents r.result_queue)

  abbrev pub Wakes : Runner S → Runner S → Type 0
  Wakes x y =
      ((no_result x ≡ true → no_result y ≡ true)
        ⊎ (owes_wakeup y.worker ≡ true)
        ⊎ (x.wakeups < y.wakeups))
      × (owes_wakeup x.worker ≡ true → (owes_wakeup y.worker ≡ true) ⊎ (x.wakeups < y.wakeups))
      × (x.wakeups ≤ y.wakeups)

  consume-Wakes :
      (x : Runner S) (nr left : ℕ) (p : S.Queue × List W)
      → x.worker ≡ consuming nr (suc left)
      → Wakes x (Runner.consume S nr left x p)
  consume-Wakes x nr left (q, []) e = ground arith
  consume-Wakes x nr left (q, w ∷ ws) e = ground arith

  worker_step-consuming :
      (x : Runner S) (nr left : ℕ)
      → consuming nr (suc left) ≡ x.worker
      → Runner.worker_step S x ≡ Runner.consume S nr left x (S.pop 1 x.call_queue)
  unfolding Runner.worker_step
  worker_step-consuming x nr left e = ground arith

  worker_step-Wakes :
      (x : Runner S) (p : WorkerPoint) → p ≡ x.worker → Wakes x (Runner.worker_step S x)
  unfolding Runner.worker_step
  worker_step-Wakes x head e = ground arith
  worker_step-Wakes x blocked e = ground arith
  worker_step-Wakes x looking e = ground arith
  worker_step-Wakes x exited e = ground arith
  worker_step-Wakes x (consuming nr zero) e = ground arith
  worker_step-Wakes x (consuming nr (suc left)) e =
      subst (Wakes x) (sym (worker_step-consuming x nr left e))
        (consume-Wakes x nr left (S.pop 1 x.call_queue) (sym e))

  push_call-Wakes : (x : Runner S) (ws : List W) → ws ≡ x.scheduled → Wakes x (Runner.push_call S x)
  unfolding Runner.push_call
  push_call-Wakes x [] e = ground arith
  push_call-Wakes x (w ∷ ws) e = ground arith

  pub result-Wakes : (x y : Runner S) → Runner.Step S x y → Wakes x y
  unfolding Runner.submit Runner.signal Runner.poll_results Runner.request_stop
  result-Wakes x y (Runner.submits w _ h) = ground arith
  result-Wakes x y (Runner.pushes _ h) = push_call-Wakes x x.scheduled refl
  result-Wakes x y (Runner.signals _ h k) = ground arith
  result-Wakes x y (Runner.polls _ h) = ground (arith, pop-is_empty S queue_size x.result_queue)
  result-Wakes x y (Runner.stops _ h k) = ground arith
  result-Wakes x y (Runner.works _) = worker_step-Wakes x x.worker refl

  pub poll_results-finds :
      (x y : Runner S) (found : Bool)
      → Runner.poll_results S x ≡ (y, found)
      → (found ≡ false → no_result y ≡ true)
        × (owes_wakeup y.worker ≡ owes_wakeup x.worker)
        × (y.wakeups ≡ x.wakeups)
  unfolding Runner.poll_results
  poll_results-finds x y found e = ground (arith, popped-is_empty S queue_size x.result_queue)

  -- The results that wait for the Syscall_poller.
  abbrev pub results : Source
  results = record {
    State = Runner S;
    is_idle = no_result;
    wakeups = λ r. r.wakeups;
    owes = λ r. owes_wakeup r.worker;
    Change = Runner.Step S;
    Look = λ x y found. Runner.poll_results S x ≡ (y, found);
    change-wakes = result-Wakes;
    look-finds = poll_results-finds;
  }
