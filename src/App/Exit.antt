-- ===== src/App/Exit.antt =====
-- The program's exit code (lib/app.cpp).
use miniss.Base.{
  negsuc, get_elem?-append, get_elem?-skip, length, subst, ℕ, suc, ◌+◌, ◌*◌, ◌≤◌, ◌≡◌, refl, sym,
  ap, ◌∙◌, inl, inr, ℤ, Option, none, some, List, [], ◌∷◌, ◌++◌, map, get_elem?, Option-cases,
  arith,
}
use miniss.Exceptions.{Outcome, ok, throws}
use miniss.Syscall.{set_value, set_exception, Completion, abort}
use miniss.Coroutine.{Body, Coroutine, enter, resume, resume_times}
use miniss.Coroutine.Resumption.{blocking}
use miniss.Cpu.{Cpu, Poller, Func, batch_size}
use miniss.Cpu.Keeps.{All-append, All, Kept, KeptByPoller, KeptByAll, run-Kept}
use miniss.Cpu.Fairness.{Progress-executed, run-Progress}
use miniss.App.{
  runs, AppTask, main, resumed, finished, other, AppWorld, exit_code, then_exit, with_frame,
  resume_main, scheduled, with_rest, func, poller, all_pollers, idle_rest, begin,
}
use miniss.App.Codes.{
  resume-resume_times, resume_times-pr, codes, codes-append, codes-skip, codes-front,
}

-- A program whose main function ends so exits with the number: the result, or -1 for an exception.
abbrev pub ExitsWith : Completion ℤ → ℤ → Type 0
ExitsWith (set_value code) n = n ≡ code
ExitsWith _ n = n ≡ negsuc 0

exit_code-ExitsWith : (k : Completion ℤ) → ExitsWith k (exit_code k)
exit_code-ExitsWith (set_value code) = refl
exit_code-ExitsWith (set_exception e) = refl
exit_code-ExitsWith abort = refl

module _ {B : Type 0} (task : Body ℤ B) where
  -- The exit code is that of the main function's body when it is read as ordinary code.
  abbrev pub IsCode : ℤ → Type 0
  IsCode = ExitsWith (blocking task)

module _ {U : Type 0} where
  -- The continuation of App::run is among the tasks.
  abbrev pub IsExiting : List (AppTask U) → Type 0
  IsExiting ss = (i : ℕ) × (k : Completion ℤ) × (get_elem? ss i ≡ some (finished k))

  then_exit-IsExiting :
      (ss : List (AppTask U)) (pr : Option (Completion ℤ)) (k : Completion ℤ)
      → pr ≡ some k
      → IsExiting (ss ++ then_exit pr)
  then_exit-IsExiting ss none k e = ground arith
  then_exit-IsExiting ss (some r) k e = (length ss + 0, r, get_elem?-skip ss (finished r ∷ []) 0)

module _ {U B : Type 0} (task : Body ℤ B) where
  abbrev pub IsFrame : List (AppTask U) → Option (Coroutine ℤ B) → Type 0
  IsFrame ss none = Unit {0}
  IsFrame ss (some c) =
      ((n : ℕ) × (c ≡ resume_times n (enter task)))
      × ((k : Completion ℤ) → c.pr ≡ some k → IsExiting ss)

  IsFrame-append :
      (ss us : List (AppTask U)) (f : Option (Coroutine ℤ B)) → IsFrame ss f → IsFrame (ss ++ us) f
  IsFrame-append ss us none h = tt
  IsFrame-append ss us (some c) h =
      (h.0, λ k e. let (i, r, g) = h.1 k e in (i, r, get_elem?-append ss us i (finished r) g))

module _ {U B : Type 0} (task : Body ℤ B) where
  abbrev pub IsSound : AppTask U → Type 0
  IsSound (finished k) = k ≡ blocking task
  IsSound main = Unit {0}
  IsSound resumed = Unit {0}
  IsSound (other u) = Unit {0}

  scheduled-IsSound : (us : List (Option U)) → All IsSound (map scheduled us)
  scheduled-IsSound [] = tt
  scheduled-IsSound (none ∷ us) = (tt, scheduled-IsSound us)
  scheduled-IsSound (some u ∷ us) = (tt, scheduled-IsSound us)

module _ {B : Type 0} (U : Type 0) (task : Body ℤ B) where
  then_exit-IsSound :
      (n : ℕ) (pr : Option (Completion ℤ))
      → (resume_times n (enter task)).pr ≡ pr
      → All (IsSound task) (then_exit {U = U} pr)
  then_exit-IsSound n none e = tt
  then_exit-IsSound n (some k) e = (resume_times-pr task n k e, tt)

module _ {U W B : Type 0} (task : Body ℤ B) where
  -- What has been run, what was scheduled, and the world.
  abbrev pub Related : List (AppTask U) → List (AppTask U) → AppWorld W B → Type 0
  Related ts ss w = (w.exited ≡ codes ts) × All (IsCode task) w.exited × IsFrame task ss w.frame

  abbrev Left : List (AppTask U) → List (AppTask U) → AppWorld W B × List (AppTask U) → Type 0
  Left ts ss (w, us) = Related ts (ss ++ us) w × All (IsSound task) us

  module _ (ts ss us : List (AppTask U)) (w w' : AppWorld W B) (r : Related ts ss w) where
    with_frame-keeps :
        (t : AppTask U) (n : ℕ) (c : Coroutine ℤ B)
        → codes (t ∷ []) ≡ []
        → c ≡ resume_times n (enter task)
        → with_frame w c ≡ ok (w', us)
        → Left (ts ++ t ∷ []) ss (w', us)
    with_frame-keeps t n c h f e =
        let same : (record w { frame = some c }, then_exit c.pr) ≡ (w', us) = ground arith in
        subst (Left (ts ++ t ∷ []) ss) same (
          (r.0 ∙ sym (codes-skip ts t h), r.1, ((n, f), then_exit-IsExiting ss c.pr)),
          then_exit-IsSound U task n c.pr (ap (λ d. d.pr) (sym f)),
        )

    rest-keeps :
        (t : AppTask U) (v : W) (vs : List (Option U))
        → codes (t ∷ []) ≡ []
        → ◌≡◌ {A = AppWorld W B × List (AppTask U)}
            (record w { rest = v }, map scheduled vs)
            (w', us)
        → Left (ts ++ t ∷ []) ss (w', us)
    rest-keeps t v vs h same = subst (Left (ts ++ t ∷ []) ss) same (
      (r.0 ∙ sym (codes-skip ts t h), r.1, IsFrame-append task ss (map scheduled vs) w.frame r.2),
      scheduled-IsSound task vs,
    )

    resumed-keeps :
        (frame : Option (Coroutine ℤ B))
        → IsFrame task ss frame
        → resume_main w frame ≡ ok (w', us)
        → Left (ts ++ resumed ∷ []) ss (w', us)
    resumed-keeps none i e = rest-keeps resumed w.rest [] refl (ground arith)
    resumed-keeps (some c) ((n, f), i) e = elim (Option-cases c.suspended) [
      | inl g ↦ rest-keeps resumed w.rest [] refl (ground arith)
      | inr (s, g) ↦
          let next : with_frame w (resume c) ≡ ok (w', us) = ground arith in
          with_frame-keeps resumed (suc n) (resume c) refl
            (ap resume f ∙ resume-resume_times n (enter task)) next
    ]

    with_rest-keeps :
        (u : U) (o : Outcome (W × List (Option U)))
        → with_rest w o ≡ ok (w', us)
        → Left (ts ++ other u ∷ []) ss (w', us)
    with_rest-keeps u (throws x) e = ground arith
    with_rest-keeps u (ok (v, vs)) e = rest-keeps (other u) v vs refl (ground arith)

    finished-keeps :
        (k : Completion ℤ)
        → k ≡ blocking task
        → ◌≡◌ {A = AppWorld W B × List (AppTask U)}
            (record w { exited = w.exited ++ exit_code k ∷ [] }, [])
            (w', us)
        → Left (ts ++ finished k ∷ []) ss (w', us)
    finished-keeps k q same = subst (Left (ts ++ finished k ∷ []) ss) same (
      (
        ap (λ z. z ++ exit_code k ∷ []) r.0 ∙ sym (codes-append ts (finished k ∷ [])),
        All-append (IsCode task) w.exited (exit_code k ∷ []) r.1
            (subst (λ z. ExitsWith z (exit_code k)) q (exit_code-ExitsWith k), tt),
        IsFrame-append task ss [] w.frame r.2,
      ),
      tt,
    )

  module _ (others : Func (Option U) W) where
    func-keeps :
        (ts ss us : List (AppTask U)) (t : AppTask U) (w w' : AppWorld W B)
        → Related ts ss w
        → IsSound task t
        → func task others t w ≡ ok (w', us)
        → Left (ts ++ t ∷ []) ss (w', us)
    unfolding func
    func-keeps ts ss us main w w' r q e =
        with_frame-keeps ts ss us w w' r main 0 (enter task) refl (unfold resume_times in refl) e
    func-keeps ts ss us resumed w w' r q e = resumed-keeps ts ss us w w' r w.frame r.2 e
    func-keeps ts ss us (finished k) w w' r q e = finished-keeps ts ss us w w' r k q (ground arith)
    func-keeps ts ss us (other u) w w' r q e =
        with_rest-keeps ts ss us w w' r u (others (some u) w.rest) e

  poller-keeps : (poll : Poller (Option U) W) → KeptByPoller Related (IsSound task) (poller poll)
  poller-keeps poll ts ss us w w' found r e = elim (Option-cases (poll w.rest)) [
    | inl f ↦ ground arith
    | inr ((v, vs, b), f) ↦
        let same : ◌≡◌ {A = AppWorld W B × List (AppTask U)}
            (record w { rest = v }, map scheduled vs) (w', us) =
          ground arith in
        subst (Left ts ss) same (
          (r.0, r.1, IsFrame-append task ss (map scheduled vs) w.frame r.2),
          scheduled-IsSound task vs,
        )
  ]

  all_pollers-keep :
      (pollers : List (Poller (Option U) W))
      → KeptByAll Related (IsSound task) (all_pollers pollers)
  all_pollers-keep [] = tt
  all_pollers-keep (p ∷ ps) = (poller-keeps p, all_pollers-keep ps)

module _ {U W B : Type 0} (task : Body ℤ B) (others : Func (Option U) W) (idle : W → W)
    (pollers : List (Poller (Option U) W)) where
  run-Kept_from :
      (n : ℕ) (c c' : Cpu (AppTask U) (AppWorld W B))
      → Kept (Related task) (IsSound task) c
      → runs task others idle pollers n c ≡ some c'
      → Kept (Related task) (IsSound task) c'
  run-Kept_from =
      run-Kept (Related task) (IsSound task) (func task others) (func-keeps task others)
        (idle_rest idle) (all_pollers pollers) (all_pollers-keep task pollers) (λ ts ss v h. h)

  Related-exited :
      (ts ss : List (AppTask U)) (w : AppWorld W B) (j : ℕ) (k : Completion ℤ)
      → Related task ts ss w
      → get_elem? ts j ≡ some (finished k)
      → (n : ℤ) × (x : List ℤ) × (w.exited ≡ n ∷ x) × All (IsCode task) (n ∷ x)
  Related-exited ts ss w j k r h =
      let (n, x, e) = codes-front k ts j h in
      (n, x, r.0 ∙ e, subst (All (IsCode task)) (r.0 ∙ e) r.1)

  -- Behind OS::init, let App::run schedule the main function, and let the loop of CPU 0 run for some rounds,
  -- whatever the other tasks and the pollers do, none of which calls OS::exit. If the main function's future has come true then, and
  -- `8 * m` is at least the length of the queue, then after `m` more rounds, if no exception ends the program
  -- in them, OS::exit has been called. The first call, and each later one, has the result that the main
  -- function's body gives when it is read as ordinary code that blocks at each await, or -1 if that is
  -- an exception.
  pub run-exits :
      (n m : ℕ) (w : W) (c c' : Cpu (AppTask U) (AppWorld W B)) (f : Coroutine ℤ B)
      (k : Completion ℤ)
      → runs task others idle pollers n (begin w) ≡ some c
      → c.world.frame ≡ some f
      → f.pr ≡ some k
      → runs task others idle pollers m c ≡ some c'
      → length c.task_queue ≤ batch_size * m
      → (code : ℤ) × (later : List ℤ) × (c'.world.exited ≡ code ∷ later)
        × All (IsCode task) (code ∷ later)
  unfolding begin
  run-exits n m w c c' f k e g p e' le =
      let before = run-Kept_from n (begin w) c ((refl, tt, tt), (tt, tt)) e in
      let run-Progress_from =
        run-Progress (func task others) (idle_rest idle) (all_pollers pollers) in
      let order = (run-Progress_from n (begin w) c refl e).in_order in
      let framed : IsFrame task c.scheduled (some f) =
        subst (IsFrame task c.scheduled) g before.0.2 in
      let (i, r, at) = framed.1 k p in
      let after = run-Kept_from m c c' before e' in
      Related-exited c'.executed c'.scheduled c'.world i r after.0
        (Progress-executed m i (finished r) c c' order (run-Progress_from m c c' order e') le at)
