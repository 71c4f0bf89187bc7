-- ===== src/App/Codes.antt =====
-- What the tasks of CPU 0 that were run give to OS::exit (lib/app.cpp).
use miniss.Base.{
  append-nil, ℕ, zero, suc, ◌≡◌, refl, ap, ◌∙◌, inl, inr, ℤ, ltb, some, List, [], ◌∷◌, ◌++◌,
  get_elem?, Bool-cases, arith,
}
use miniss.Syscall.{Completion}
use miniss.Coroutine.{Body, Coroutine, enter, resume, resume_times}
use miniss.Coroutine.Resumption.{blocking, waits, resume_times-enter}
use miniss.App.{AppTask, main, resumed, finished, other, exit_code}

module _ {A B : Type 0} where
  pub resume-resume_times :
      (n : ℕ) (c : Coroutine A B) → resume (resume_times n c) ≡ resume_times (suc n) c
  unfolding resume_times
  resume-resume_times zero c = refl
  resume-resume_times (suc n) c = resume-resume_times n (resume c)

  pub resume_times-pr :
      (b : Body A B) (n : ℕ) (k : Completion A)
      → (resume_times n (enter b)).pr ≡ some k
      → k ≡ blocking b
  resume_times-pr b n k e = elim (Bool-cases (ltb n (waits b))) [
    | inl h ↦ let early = (resume_times-enter b n).1 (ground arith) in cc
    | inr h ↦ let late = (resume_times-enter b n).0 (ground arith) in cc
  ]

module _ {U : Type 0} where
  abbrev pub codes : List (AppTask U) → List ℤ
  codes [] = []
  codes (finished k ∷ ts) = exit_code k ∷ codes ts
  codes (main ∷ ts) = codes ts
  codes (resumed ∷ ts) = codes ts
  codes (other u ∷ ts) = codes ts

  pub codes-append : (ts us : List (AppTask U)) → codes (ts ++ us) ≡ codes ts ++ codes us
  codes-append [] us = refl
  codes-append (finished k ∷ ts) us = ap (λ z. exit_code k ∷ z) (codes-append ts us)
  codes-append (main ∷ ts) us = codes-append ts us
  codes-append (resumed ∷ ts) us = codes-append ts us
  codes-append (other u ∷ ts) us = codes-append ts us

  pub codes-skip :
      (ts : List (AppTask U)) (t : AppTask U)
      → codes (t ∷ []) ≡ []
      → codes (ts ++ t ∷ []) ≡ codes ts
  codes-skip ts t h = codes-append ts (t ∷ []) ∙ (ap (λ z. codes ts ++ z) h ∙ append-nil (codes ts))

  pub codes-front :
      (k : Completion ℤ) (ts : List (AppTask U)) (j : ℕ)
      → get_elem? ts j ≡ some (finished k)
      → (n : ℤ) × (x : List ℤ) × (codes ts ≡ n ∷ x)
  codes-front k [] j h = ground arith
  codes-front k (finished r ∷ ts) j h = (exit_code r, codes ts, refl)
  codes-front k (main ∷ ts) zero h = ground arith
  codes-front k (main ∷ ts) (suc j) h = codes-front k ts j h
  codes-front k (resumed ∷ ts) zero h = ground arith
  codes-front k (resumed ∷ ts) (suc j) h = codes-front k ts j h
  codes-front k (other u ∷ ts) zero h = ground arith
  codes-front k (other u ∷ ts) (suc j) h = codes-front k ts j h
