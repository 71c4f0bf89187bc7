-- ===== src/Os/Assertions.antt =====
-- That the operations on the queues run on the CPUs that they assert (lib/os.cpp, lib/cross_cpu_queue.cpp).
use miniss.Base.{
  ltb, ltb→lt, ◌<◌, inr, inl, Bool-cases, [], ℕ, ◌≡◌, ◌≢◌, refl, sym, ap, subst, ◌∙◌, Bool, some,
  List, ◌++◌, ◌∷◌, ◌==◌, arith,
}
use miniss.Exceptions.{Outcome}
use miniss.Spsc.{Spsc}
use miniss.Unbounded
use miniss.Unbounded.{capacity}
use miniss.CrossCpu
use miniss.CrossCpu.{CrossCpuQueue, bump}
use miniss.Os.{Queues, put, init_queues, poll_queues, requested, submit_to}
use miniss.Os.Polling.{Placed, WellFormed, round, poll_queues-round, round-WellFormed}

-- `A` is the type of what the submitted functions return.
module _ {I : Type 0} (S : Spsc I capacity) (A : Type 0) (cpu_count : ℕ) where
  -- What the CPUs do to the queues: poll, submit a function to another CPU, or answer an item.
  pub data Step (qs : Queues S) : Queues S → Type 0 where
    polls :
        (cpu : ℕ) {qs' : Queues S} (active : Bool)
        → poll_queues S cpu_count cpu qs ≡ some (qs', active)
        → Step qs qs'
    submits :
        (this_cpu cpu : ℕ) (item : I) (fn : Outcome A) {qs' : Queues S}
        → submit_to S cpu_count this_cpu cpu item fn qs ≡ requested (some qs')
        → Step qs qs'
    responds :
        (i j : ℕ) (item : I) (left : List I) (c : CrossCpuQueue S)
        → CrossCpu.respond S j item left (qs i j) ≡ some c
        → Step qs (put S i j c qs)

  pub data Reach : Queues S → Type 0 where
    here : Reach (init_queues S)
    next : {qs qs' : Queues S} → Reach qs → Step qs qs' → Reach qs'

  put-WellFormed :
      (i j : ℕ) (c : CrossCpuQueue S) (qs : Queues S)
      → Placed S i j c
      → WellFormed S qs
      → WellFormed S (put S i j c qs)
  put-WellFormed i j c qs p w a b = let v = w a b in ground arith

  polls-WellFormed :
      (cpu : ℕ) (qs qs' : Queues S) (active : Bool)
      → poll_queues S cpu_count cpu qs ≡ some (qs', active)
      → WellFormed S qs
      → WellFormed S qs'
  polls-WellFormed cpu qs qs' active e w a b =
      let (s, f, g) = poll_queues-round S cpu_count cpu qs w in
      let same : s.0 ≡ qs' = ground arith in
      let there : qs' a b ≡ round S cpu_count cpu qs a b = ap (λ q. q a b) (sym same) ∙ g a b in
      subst (Placed S a b) (sym there) (round-WellFormed S cpu_count cpu qs w a b)

  submit_to-lands :
      (this_cpu cpu : ℕ) (item : I) (fn : Outcome A) (qs : Queues S)
      → WellFormed S qs
      → this_cpu ≢ cpu
      → cpu < cpu_count
      → (c : CrossCpuQueue S) × (submit_to S cpu_count this_cpu cpu item fn qs
          ≡ requested (some (put S this_cpu cpu c qs)))
        × Placed S this_cpu cpu c
  unfolding submit_to CrossCpu.submit
  submit_to-lands this_cpu cpu item fn qs w ne lt =
      let c = qs this_cpu cpu in
      let p = Unbounded.push S item c.tx in
      (
        record c {
          tx = p.0;
          to_wakeups = bump p.1 c.to_wakeups;
          submitted = c.submitted ++ item ∷ [];
        },
        ground (arith, w this_cpu cpu),
        w this_cpu cpu,
      )

  responds-Placed :
      (i j : ℕ) (item : I) (left : List I) (c d : CrossCpuQueue S)
      → CrossCpu.respond S j item left c ≡ some d
      → Placed S i j c
      → Placed S i j d
  unfolding CrossCpu.respond
  responds-Placed i j item left c d e p = ground arith

  submits-WellFormed :
      (this_cpu cpu : ℕ) (item : I) (fn : Outcome A) (qs qs' : Queues S)
      → submit_to S cpu_count this_cpu cpu item fn qs ≡ requested (some qs')
      → WellFormed S qs
      → WellFormed S qs'
  unfolding submit_to CrossCpu.submit
  submits-WellFormed this_cpu cpu item fn qs qs' e w = elim (Bool-cases (this_cpu == cpu)) [
    | inl h ↦ ground arith
    | inr h ↦ elim (Bool-cases (ltb cpu cpu_count)) [
      | inr beyond ↦ ground arith
      | inl below ↦
          let (c, f, p) =
            submit_to-lands this_cpu cpu item fn qs w (λ k. ground arith)
              (ltb→lt cpu cpu_count below) in
          let same : put S this_cpu cpu c qs ≡ qs' = ground arith in
          subst (WellFormed S) same (put-WellFormed this_cpu cpu c qs p w)
    ]
  ]

  Step-WellFormed : {qs qs' : Queues S} → Step qs qs' → WellFormed S qs → WellFormed S qs'
  Step-WellFormed {qs} {qs'} (polls cpu active e) w = polls-WellFormed cpu qs qs' active e w
  Step-WellFormed {qs} {qs'} (submits this_cpu cpu item fn e) w =
      submits-WellFormed this_cpu cpu item fn qs qs' e w
  Step-WellFormed {qs} (responds i j item left c e) w =
      put-WellFormed i j c qs (responds-Placed i j item left (qs i j) c e (w i j)) w

  Reach-WellFormed : {qs : Queues S} → Reach qs → WellFormed S qs
  unfolding init_queues CrossCpu.init
  Reach-WellFormed here = λ i j. (refl, refl)
  Reach-WellFormed (next r st) = Step-WellFormed st (Reach-WellFormed r)

  responds-lands :
      (i j : ℕ) (item : I) (left : List I) (c : CrossCpuQueue S)
      → Placed S i j c
      → (d : CrossCpuQueue S) × (CrossCpu.respond S j item left c ≡ some d)
  unfolding CrossCpu.respond
  responds-lands i j item left c p =
      let (rx, moved) = Unbounded.push S item c.rx in
      (
        record c {
          rx = rx;
          running = left;
          from_wakeups = bump moved c.from_wakeups;
          responded = c.responded ++ item ∷ [];
        },
        ground arith,
      )

  -- In every state that polls, submissions and answers lead to from the queues that `init` makes, no
  -- assertion of a queue fails next: on any CPU, `poll_queues` returns, `submit_to` to another CPU below
  -- `cpu_count` makes a request, which changes only the queue from the one CPU to the other, and the
  -- continuation of an item from any CPU, which runs on this one, gives its answer.
  pub Reach-no_assertion_fails :
      {qs : Queues S} (this_cpu cpu : ℕ) (item answer : I) (left : List I) (fn : Outcome A)
      → Reach qs
      → this_cpu ≢ cpu
      → cpu < cpu_count
      → ((s : Queues S × Bool) × (poll_queues S cpu_count this_cpu qs ≡ some s))
        × ((c : CrossCpuQueue S) × (submit_to S cpu_count this_cpu cpu item fn qs
              ≡ requested (some (put S this_cpu cpu c qs))))
        × ((c : CrossCpuQueue S) × (CrossCpu.respond S this_cpu answer left (qs cpu this_cpu)
              ≡ some c))
  Reach-no_assertion_fails {qs} this_cpu cpu item answer left fn r ne lt =
      let w = Reach-WellFormed r in
      let (s, polled, _) = poll_queues-round S cpu_count this_cpu qs w in
      let (c, sent, _) = submit_to-lands this_cpu cpu item fn qs w ne lt in
      let answered = responds-lands cpu this_cpu answer left (qs cpu this_cpu) (w cpu this_cpu) in
      ((s, polled), (c, sent), answered)
