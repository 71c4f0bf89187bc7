-- ===== src/Start/Signals/Handled.antt =====
-- That SIGALRM always finds its handler (lib/os.cpp, lib/cpu.cpp, lib/io/timer.cpp).
use miniss.Base.{
  Bool-cases, subst, ℕ, zero, suc, ◌<◌, ◌≡◌, ◌⊎◌, inl, inr, refl, sym, Bool, true, false, List, [],
  ◌∷◌, get_elem?, count, arith,
}
use miniss.Start
use miniss.Start.{
  Point, lacks_cpu, is_running, Latches, StartState, Advance, constructs, arrives_constructed,
  passes_constructed, arrives_built, passes_built, arrives_started, passes_started, main_moves,
  moves, spawns, spawned, builds, built,
}
use miniss.Start.Invariant.{Reach-Inv}
use miniss.Start.Safety.{count-is_running, built-all}
use miniss.Start.Signals.{
  unregistered, installed, SignalState, point, satisfies, is_open, begin, install, unblock, send,
  arrive, Step, starts, installs, unblocks, sends, arrives, Reach, here, next,
}

-- The second latch never goes up again.
Advance-keeps :
    (after : Point) (l l' : Latches) (p p' : Point)
    → Advance after l l' p p'
    → l.queue_constructed ≡ 0
    → l'.queue_constructed ≡ 0
Advance-keeps after l l' p p' (constructs e f g) h = ground arith
Advance-keeps after l l' p p' (arrives_constructed e f g) h = ground arith
Advance-keeps after l l' p p' (passes_constructed e k f g) h = ground arith
Advance-keeps after l l' p p' (arrives_built e f g) h = ground arith
Advance-keeps after l l' p p' (passes_built e k f g) h = ground arith
Advance-keeps after l l' p p' (arrives_started e f g) h = ground arith
Advance-keeps after l l' p p' (passes_started e k f g) h = ground arith

Step-keeps :
    (n : ℕ) (s s' : StartState)
    → Start.Step n s s'
    → s.latches.queue_constructed ≡ 0
    → s'.latches.queue_constructed ≡ 0
Step-keeps n s s' (main_moves p l ad e) h =
    ground (arith, Advance-keeps Start.building s.latches l s.main p ad h)
Step-keeps n s s' (moves a b p p' l o ad e) h =
    ground (arith, Advance-keeps Start.at_built s.latches l p p' ad h)
Step-keeps n s s' (spawns a b m o e) h = ground arith
Step-keeps n s s' (spawned m o e) h = ground arith
Step-keeps n s s' (builds m o e) h = ground arith
Step-keeps n s s' (built m o e) h = ground arith

satisfies-count :
    (f : Point → Bool) (ps : List Point) (i : ℕ)
    → count f ps ≡ 0
    → satisfies f (get_elem? ps i) ≡ false
satisfies-count f [] i h = refl
satisfies-count f (p ∷ ps) zero h = ground arith
satisfies-count f (p ∷ ps) (suc i) h = satisfies-count f ps i (omega (arith, h))

record Sound (n : ℕ) (s : SignalState) : Type 0 where
  reached : (k : ℕ) × Start.Reach n k s.threads
  sent : (j : ℕ) → s.pending j ≡ true → s.threads.latches.queue_constructed ≡ 0
  registered : (i : ℕ) → (s.stage i ≡ unregistered) ⊎ (s.handled ≡ true)
  alive : s.killed ≡ false

module _ (n : ℕ) (some_cpu : 0 < n) where
  -- A thread that has left `init` is behind the second latch.
  running-behind :
      (s : SignalState) (i : ℕ)
      → Sound n s
      → satisfies is_running (point s i) ≡ true
      → s.threads.latches.queue_constructed ≡ 0
  running-behind s i v r =
      let inv = Reach-Inv n some_cpu v.reached.1 in
      let ps = s.threads.main ∷ s.threads.others in
      elim (count-is_running s.threads.latches ps (inv.main_passed, inv.others_passed)) [
        | inl h ↦ let other = satisfies-count is_running ps i h in cc
        | inr h ↦ h
      ]

  -- A thread that a signal was sent to has its CPU.
  sent-constructed :
      (s : SignalState) (j : ℕ)
      → Sound n s
      → s.pending j ≡ true
      → satisfies lacks_cpu (point s j) ≡ false
  sent-constructed s j v p =
      let inv = Reach-Inv n some_cpu v.reached.1 in
      let all = built-all n s.threads inv (v.sent j p) in
      satisfies-count lacks_cpu (s.threads.main ∷ s.threads.others) j all.1

  starts-Sound :
      (s : SignalState) (t : StartState)
      → Sound n s
      → Start.Step n s.threads t
      → Sound n (record s { threads = t })
  starts-Sound s t v st = record {
    reached = let (k, r) = v.reached in (suc k, Start.next r st);
    sent = λ j p. Step-keeps n s.threads t st (v.sent j p);
    registered = v.registered;
    alive = v.alive;
  }

  installs-Sound : (s : SignalState) (i : ℕ) → Sound n s → Sound n (install i s)
  unfolding install
  installs-Sound s i v = record {
    reached = v.reached;
    sent = v.sent;
    registered = λ j. inr refl;
    alive = v.alive;
  }

  unblocks-Sound :
      (s : SignalState) (i : ℕ) → s.stage i ≡ installed → Sound n s → Sound n (unblock i s)
  unfolding unblock
  unblocks-Sound s i e v = record {
    reached = v.reached;
    sent = v.sent;
    registered = λ j. let a = v.registered i in let b = v.registered j in ground arith;
    alive = v.alive;
  }

  sends-Sound :
      (s : SignalState) (i j : ℕ)
      → satisfies is_running (point s i) ≡ true
      → Sound n s
      → Sound n (send j s)
  unfolding send
  sends-Sound s i j r v = record {
    reached = v.reached;
    sent = λ k p. running-behind s i v r;
    registered = v.registered;
    alive = v.alive;
  }

  arrives-Sound :
      (s : SignalState) (j : ℕ)
      → s.pending j ≡ true
      → is_open s j ≡ true
      → Sound n s
      → Sound n (arrive j s)
  unfolding arrive is_open
  arrives-Sound s j p o v = record {
    reached = v.reached;
    sent = λ k q. let a = v.sent k in ground arith;
    registered = v.registered;
    alive =
        let a = sent-constructed s j v p in
        let b = v.registered j in let c = v.alive in ground arith;
  }

  Step-Sound : {s s' : SignalState} → Step n s s' → Sound n s → Sound n s'
  Step-Sound {s} (starts t st e) v = subst (Sound n) (sym e) (starts-Sound s t v st)
  Step-Sound {s} (installs i r u e) v = subst (Sound n) (sym e) (installs-Sound s i v)
  Step-Sound {s} (unblocks i h e) v = subst (Sound n) (sym e) (unblocks-Sound s i h v)
  Step-Sound {s} (sends i j r b e) v = subst (Sound n) (sym e) (sends-Sound s i j r v)
  Step-Sound {s} (arrives j p o e) v = subst (Sound n) (sym e) (arrives-Sound s j p o v)

  Reach-Sound : {s : SignalState} → Reach n s → Sound n s
  unfolding begin
  Reach-Sound here = record {
    reached = (0, Start.here);
    sent = λ j p. absurd (ground arith);
    registered = λ i. inl refl;
    alive = refl;
  }
  Reach-Sound (next r st) = Step-Sound st (Reach-Sound r)

-- In every state that the statements of OS::init on all threads, the registrations of the handler by the
-- CPUs that have left it, and the wakeups and timers between them lead to, in any interleaving and with at
-- least one CPU: SIGALRM has never reached a thread while the process had no handler for it, which would
-- end the program. And a signal is under way only to a thread whose CPU is constructed, so that its mask
-- holds the signal back until that CPU has registered the handler.
pub Reach-handled :
    {n : ℕ} {s : SignalState} (j : ℕ)
    → 0 < n
    → Reach n s
    → (s.killed ≡ false) × ((s.pending j ≡ false) ⊎ (satisfies lacks_cpu (point s j) ≡ false))
Reach-handled {n} {s} j h r =
    let v = Reach-Sound n h r in
    (
      v.alive,
      elim (Bool-cases (s.pending j)) [
        | inl p ↦ inr (sent-constructed n h s j v p)
        | inr p ↦ inl p
      ],
    )
