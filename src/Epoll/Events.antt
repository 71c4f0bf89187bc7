-- ===== src/Epoll/Events.antt =====
-- That a CPU does not sleep behind an event of file io (lib/cpu.cpp, lib/io/file_io.cpp).
use miniss.Base.{
  ℕ, ◌≤◌, ◌<◌, ◌≡◌, ◌⊎◌, refl, Bool, true, false, List, [], ◌∷◌, length, take, is_empty, arith,
}
use miniss.FileIo.{IoEvent, max_io, reap_io}
use miniss.Loop
use miniss.Loop.{Source, LoopState}
use miniss.Epoll.{complete, IoState, is_ready, Change, completes, submits, Look, reaps}

nothing_left : {A : Type 0} (xs : List A) → length (take max_io xs) ≡ 0 → xs ≡ []
nothing_left [] h = refl
nothing_left (x ∷ xs) h = absurd (omega arith)

module _ (after_event : ℕ → ℕ) (grows : (c : ℕ) → 0 < after_event c) where
  abbrev pub no_event : IoState → Bool
  no_event s = is_empty s.completed

  pub Change-wakes :
      (x y : IoState)
      → Change after_event x y
      → ((no_event x ≡ true → no_event y ≡ true) ⊎ (is_ready y ≡ true) ⊎ (0 < 0))
        × (is_ready x ≡ true → (is_ready y ≡ true) ⊎ (0 < 0))
        × (0 ≤ 0)
  unfolding complete
  Change-wakes x y (completes e h) = ground (arith, grows x.count)
  Change-wakes x y (submits f h) = ground arith

  pub reap_io-finds :
      (x y : IoState) (found : Bool)
      → Look x y found
      → (found ≡ false → no_event y ≡ true) × (is_ready y ≡ is_ready x) × (◌≡◌ {A = ℕ} 0 0)
  unfolding reap_io
  reap_io-finds x y found (reaps left errno f e h) =
      let none_taken : found ≡ false → length (take max_io x.completed) ≡ 0 = ground arith in
      (λ n. rw (h, nothing_left x.completed (none_taken n)) refl, ground arith, refl)

  -- An epoll_pwait that is not blocked counts as a wakeup on its way.
  abbrev pub events : Source
  events = record {
    State = IoState;
    is_idle = no_event;
    wakeups = λ s. 0;
    owes = is_ready;
    Change = Change after_event;
    Look = Look;
    change-wakes = Change-wakes;
    look-finds = reap_io-finds;
  }

  source-stays_ready :
      (x y : IoState) → Change after_event x y → is_ready x ≡ true → is_ready y ≡ true
  source-stays_ready x y c r = let w = Change-wakes x y c in ground arith

  Step-stays_ready :
      {s s' : LoopState events}
      → Loop.Step events s s'
      → is_ready s.source ≡ true
      → is_ready s'.source ≡ true
  unfolding Loop.poll_signals
  Step-stays_ready {s} {s'} (Loop.changes x c e) r =
      ground (arith, source-stays_ready s.source x c r)
  Step-stays_ready {s} {s'} (Loop.polls_source x found a b l e) r =
      ground (arith, (reap_io-finds s.source x found l).1)
  Step-stays_ready {s} {s'} (Loop.kills w e) r = ground arith
  Step-stays_ready {s} {s'} (Loop.arrives n e) r = ground arith
  Step-stays_ready {s} {s'} (Loop.polls_signals early p a b c d e) r = ground arith
  Step-stays_ready {s} {s'} (Loop.polls_other found a e) r = ground arith
  Step-stays_ready {s} {s'} (Loop.runs_batch a b e) r = ground arith
  Step-stays_ready {s} {s'} (Loop.goes_idle a b c e) r = ground arith
  Step-stays_ready {s} {s'} (Loop.checks a e) r = ground arith
  Step-stays_ready {s} {s'} (Loop.enters a e) r = ground arith
  Step-stays_ready {s} {s'} (Loop.wakes a e) r = ground arith
  Step-stays_ready {s} {s'} (Loop.restores a e) r = ground arith

  -- Every state behind another one.
  pub data Later (s : LoopState events) : LoopState events → Type 0 where
    here : Later s s
    next : {t t' : LoopState events} → Later s t → Loop.Step events t t' → Later s t'

  Later-stays_ready :
      {s t : LoopState events} → Later s t → is_ready s.source ≡ true → is_ready t.source ≡ true
  Later-stays_ready here r = r
  Later-stays_ready (next l st) r = Step-stays_ready st (Later-stays_ready l r)

  -- Once the kernel has completed a request, in no later state, whatever happens between, does epoll_pwait
  -- block, also where nothing is left to do: no statement reads the eventfd, so that its count stays
  -- positive.
  pub complete-never_blocks :
      (e : IoEvent) (s : LoopState events) {t : LoopState events}
      → Later (record s { source = complete after_event e s.source }) t
      → is_ready t.source ≡ true
  unfolding complete
  complete-never_blocks e s l = Later-stays_ready l (ground (arith, grows s.source.count))
