-- ===== src/Loop/Sleep.antt =====
-- That a CPU does not sleep over work that it was woken for (lib/cpu.cpp, CPU::run).
use miniss.Base.{
  Bool-cases, ℕ, zero, suc, ◌+◌, ◌≤◌, ◌<◌, ◌≡◌, ◌⊎◌, inl, inr, refl, Bool, true, false, ◌||◌, List,
  [], ◌∷◌, length, replicate, arith, is_empty,
}
use miniss.Signal.{
  Word, SignalPoller, poll, is_zero, dispatch_signal, dispatch_all, set_bit, clear_bits,
}
use miniss.Signal.Delivery.{length-set_bit, length-dispatch_all}
use miniss.Idle.{
  start, IdlePoint, running, masked, checked, waiting, leaving, mask, check, wait, return_wait,
  restore, arrive,
}
use miniss.Idle.Sleep.{Good}
use miniss.Loop.{
  Source, LoopState, Stage, at_signals, at_source, at_rest, sigalrm, poll_signals, Step, changes,
  kills, arrives, polls_signals, polls_source, polls_other, runs_batch, goes_idle, checks, enters,
  wakes, restores, Reach, here, next,
}

length-clear_bits : (w s : Word) → length (clear_bits w s) ≡ length w
unfolding clear_bits
length-clear_bits [] s = refl
length-clear_bits (b ∷ w) [] = refl
length-clear_bits (b ∷ w) (c ∷ s) = omega (arith, length-clear_bits w s)

is_zero-set_bit : (i : ℕ) (w : Word) → i < length w → is_zero (set_bit i w) ≡ false
unfolding set_bit is_zero
is_zero-set_bit i [] h = absurd (omega arith)
is_zero-set_bit zero (b ∷ w) h = refl
is_zero-set_bit (suc i) (b ∷ w) h = ground (arith, is_zero-set_bit i w)

is_zero-dispatch : (w : Word) → length w ≡ 64 → is_zero (dispatch_signal sigalrm w) ≡ false
unfolding dispatch_signal
is_zero-dispatch w h = is_zero-set_bit sigalrm w (omega arith)

not-is_zero-set_bit : (i : ℕ) (w : Word) → is_zero w ≡ false → is_zero (set_bit i w) ≡ false
unfolding set_bit is_zero
not-is_zero-set_bit i [] h = h
not-is_zero-set_bit zero (b ∷ w) h = refl
not-is_zero-set_bit (suc i) (b ∷ w) h = ground (arith, not-is_zero-set_bit i w)

not-is_zero-dispatch :
    (i : ℕ) (w : Word) → is_zero w ≡ false → is_zero (dispatch_signal i w) ≡ false
unfolding dispatch_signal
not-is_zero-dispatch i w h = not-is_zero-set_bit i w h

length-dispatch : (i : ℕ) (w : Word) → length (dispatch_signal i w) ≡ length w
unfolding dispatch_signal
length-dispatch i w = length-set_bit i w

length-poll :
    {H : Type 0} (early : List ℕ) (p : SignalPoller H)
    → length (poll early p).0.pending_signals ≡ length p.pending_signals
unfolding poll
length-poll early p = ground (
  arith,
  length-clear_bits (dispatch_all early p.pending_signals) p.pending_signals,
  length-dispatch_all early p.pending_signals,
)

module _ (B : Source) where
  -- Nothing waits, or a wakeup is still to come.
  abbrev pub Covered : LoopState B → Type 0
  Covered s =
      (B.is_idle s.source ≡ true) ⊎ (B.owes s.source ≡ true) ⊎ (s.woken < B.wakeups s.source)

  -- What keeps the CPU from sleeping at each point.
  abbrev pub AwakeAt : LoopState B → IdlePoint → Stage → Type 0
  AwakeAt s running at_signals = Unit {0}
  AwakeAt s running at_source = Unit {0}
  AwakeAt s running at_rest =
      Covered s ⊎ (s.active ≡ true) ⊎ (is_zero s.thread.pending_signals ≡ false)
  AwakeAt s masked g =
      Covered s ⊎ (is_zero s.thread.pending_signals ≡ false) ⊎ (is_empty s.thread.held ≡ false)
  AwakeAt s checked g = Covered s ⊎ (is_empty s.thread.held ≡ false)
  AwakeAt s waiting g = Covered s
  AwakeAt s leaving g = Unit {0}

  pub record Inv (s : LoopState B) : Type 0 where
    pub good : Good s.thread
    pub width : length s.thread.pending_signals ≡ 64
    pub bound : s.woken ≤ B.wakeups s.source
    pub awake : AwakeAt s s.thread.at s.stage

  changes-Covered :
      (s : LoopState B) (x : B.State)
      → B.Change s.source x
      → s.woken ≤ B.wakeups s.source
      → Covered s
      → Covered (record s { source = x })
  changes-Covered s x c b v = ground (arith, B.change-wakes s.source x c)

  changes-Awake :
      (s : LoopState B) (x : B.State) (p : IdlePoint) (g : Stage)
      → B.Change s.source x
      → s.woken ≤ B.wakeups s.source
      → AwakeAt s p g
      → AwakeAt (record s { source = x }) p g
  changes-Awake s x running at_signals c b v = tt
  changes-Awake s x running at_source c b v = tt
  changes-Awake s x running at_rest c b (inl v) = inl (changes-Covered s x c b v)
  changes-Awake s x running at_rest c b (inr v) = inr v
  changes-Awake s x masked g c b (inl v) = inl (changes-Covered s x c b v)
  changes-Awake s x masked g c b (inr v) = inr v
  changes-Awake s x checked g c b (inl v) = inl (changes-Covered s x c b v)
  changes-Awake s x checked g c b (inr v) = inr v
  changes-Awake s x waiting g c b v = changes-Covered s x c b v
  changes-Awake s x leaving g c b v = tt

  kill-Inv :
      (s : LoopState B) (p : IdlePoint) (g : Stage)
      → p ≡ s.thread.at
      → g ≡ s.stage
      → s.woken < B.wakeups s.source
      → Inv s
      → Inv (record s { woken = s.woken + 1; thread = arrive sigalrm s.thread })
  unfolding arrive
  kill-Inv s running at_signals e f k v = ground (
    arith,
    is_zero-dispatch s.thread.pending_signals,
    length-dispatch sigalrm s.thread.pending_signals,
  )
  kill-Inv s running at_source e f k v = ground (
    arith,
    is_zero-dispatch s.thread.pending_signals,
    length-dispatch sigalrm s.thread.pending_signals,
  )
  kill-Inv s running at_rest e f k v = ground (
    arith,
    is_zero-dispatch s.thread.pending_signals,
    length-dispatch sigalrm s.thread.pending_signals,
  )
  kill-Inv s masked g e f k v = ground (arith)
  kill-Inv s checked g e f k v = ground (arith)
  kill-Inv s waiting g e f k v = ground (arith, length-dispatch sigalrm s.thread.pending_signals)
  kill-Inv s leaving g e f k v = ground (arith)

  arrives-Inv :
      (s : LoopState B) (signo : ℕ) (p : IdlePoint) (g : Stage)
      → p ≡ s.thread.at
      → g ≡ s.stage
      → Inv s
      → Inv (record s { thread = arrive signo s.thread })
  unfolding arrive
  arrives-Inv s signo running at_signals e f v =
      ground (arith, length-dispatch signo s.thread.pending_signals)
  arrives-Inv s signo running at_source e f v =
      ground (arith, length-dispatch signo s.thread.pending_signals)
  arrives-Inv s signo running at_rest e f v = ground (
    arith,
    length-dispatch signo s.thread.pending_signals,
    not-is_zero-dispatch signo s.thread.pending_signals,
  )
  arrives-Inv s signo masked g e f v = ground arith
  arrives-Inv s signo checked g e f v = ground arith
  arrives-Inv s signo waiting g e f v =
      ground (arith, length-dispatch signo s.thread.pending_signals)
  arrives-Inv s signo leaving g e f v = ground arith

  polls_other-Inv :
      (s : LoopState B) (found : Bool) (g : Stage)
      → s.thread.at ≡ running
      → g ≡ s.stage
      → Inv s
      → Inv (record s { active = s.active || found })
  polls_other-Inv s found at_signals e f v = ground arith
  polls_other-Inv s found at_source e f v = ground arith
  polls_other-Inv s found at_rest e f v = ground arith

  polls_source-Inv :
      (s : LoopState B) (x : B.State) (found : Bool)
      → s.thread.at ≡ running
      → B.Look s.source x found
      → Inv s
      → Inv (record s { source = x; stage = at_rest; active = s.active || found })
  polls_source-Inv s x found e l v = elim (Bool-cases found) [
    | inl h ↦ ground (arith, B.look-finds s.source x found l)
    | inr h ↦ ground (arith, B.look-finds s.source x found l)
  ]

  wait-Inv :
      (s : LoopState B) (hs : List ℕ)
      → hs ≡ s.thread.held
      → s.thread.at ≡ checked
      → Inv s
      → Inv (record s { thread = wait s.thread })
  unfolding wait
  wait-Inv s [] e c v = ground arith
  wait-Inv s (h ∷ hs) e c v = ground (arith, length-dispatch_all (h ∷ hs) s.thread.pending_signals)

  Step-Inv : {s s' : LoopState B} → Step B s s' → Inv s → Inv s'
  unfolding poll_signals mask check return_wait restore
  Step-Inv {s} (changes x c e) v = rw e (record {
    good = v.good;
    width = v.width;
    bound = omega (arith, v.bound, (B.change-wakes s.source x c).2);
    awake = changes-Awake s x s.thread.at s.stage c v.bound v.awake;
  })
  Step-Inv {s} (kills k e) v = rw e (kill-Inv s s.thread.at s.stage refl refl k v)
  Step-Inv {s} (arrives signo e) v = rw e (arrives-Inv s signo s.thread.at s.stage refl refl v)
  Step-Inv {s} (polls_signals early p a g c k e) v =
      ground (arith, length-poll (replicate early sigalrm) p)
  Step-Inv {s} (polls_source x found a g l e) v = rw e (polls_source-Inv s x found a l v)
  Step-Inv {s} (polls_other found a e) v = rw e (polls_other-Inv s found s.stage a refl v)
  Step-Inv {s} (runs_batch a g e) v = ground arith
  Step-Inv {s} (goes_idle a g i e) v = ground arith
  Step-Inv {s} (checks a e) v = ground arith
  Step-Inv {s} (enters a e) v = rw e (wait-Inv s s.thread.held refl a v)
  Step-Inv {s} (wakes a e) v = ground arith
  Step-Inv {s} (restores a e) v =
      ground (arith, length-dispatch_all s.thread.held s.thread.pending_signals)

  Reach-Inv : {s : LoopState B} → Reach B s → Inv s
  unfolding start
  Reach-Inv (here x) = record { good = (refl, refl); width = refl; bound = omega arith; awake = tt }
  Reach-Inv (next r st) = Step-Inv st (Reach-Inv r)

  -- Whatever the other threads do, and whenever their signals arrive: while the CPU waits in
  -- epoll_pwait, every wakeup has arrived and nobody is about to make one, a poll of the source would
  -- find nothing. So no work that another thread makes visible is slept over.
  pub Reach-sleeps_idle_source :
      {s : LoopState B}
      → Reach B s
      → s.thread.at ≡ waiting
      → s.woken ≡ B.wakeups s.source
      → B.owes s.source ≡ false
      → B.is_idle s.source ≡ true
  Reach-sleeps_idle_source h a k o = ground (arith, Reach-Inv h)
