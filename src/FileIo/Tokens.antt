-- ===== src/FileIo/Tokens.antt =====
-- How many requests a File_io can have under way (lib/io/file_io.cpp).
use mathlib.Core.List.{Perm, Permᴰ}
use mathlib.Core.Logic.{∥∥₁_elim}
use native.Mathlib.Nat.{ℕ_set}
use miniss.Base.{
  ℕ, suc, ℤ, pos, ◌+◌, ◌≤◌, ◌≡◌, refl, ap, ◌∙◌, Bool, List, [], ◌∷◌, ◌++◌, length, length-append,
  arith,
}
use miniss.Exceptions.{ok}
use miniss.Semaphore.{Entry, init, wait, release}
use miniss.FileIo.{
  Request, IoEvent, FileIo, start, submit_io, submit_io_impl, reap_io, requests, max_io, Step,
  submits, runs, reaps, Reach, here, next,
}

module _ {A : Type 0} where
  length-permᴰ : {xs ys : List A} → Permᴰ xs ys → length xs ≡ length ys
  length-permᴰ Permᴰ.nil = refl
  length-permᴰ (Permᴰ.cons x p) = ap suc (length-permᴰ p)
  length-permᴰ (Permᴰ.swap x y) = refl
  length-permᴰ (Permᴰ.trans p q) = length-permᴰ p ∙ length-permᴰ q

  pub length-perm : {xs ys : List A} → Perm xs ys → length xs ≡ length ys
  length-perm p = ∥∥₁_elim p (ℕ_set _ _) length-permᴰ

pub length-requests : (es : List IoEvent) → length (requests es) ≡ length es
length-requests [] = refl
length-requests (e ∷ es) = ap suc (length-requests es)

-- Every waiter asks for one token.
abbrev pub Ones : List (Entry Request) → Type 0
Ones [] = Unit {0}
Ones (e ∷ es) = (e.tokens ≡ 1) × Ones es

Ones-append :
    (es : List (Entry Request)) (r : Request)
    → Ones es
    → Ones (es ++ record { tokens = 1; pr = r } ∷ [])
Ones-append [] r h = (refl, tt)
Ones-append (e ∷ es) r h = (h.0, Ones-append es r h.1)

pub record Inv (f : FileIo) : Type 0 where
  pub counted :
      f.aio_available.tokens + (length f.scheduled + (length f.in_kernel + length f.failed))
      ≡ max_io
  pub ones : Ones f.aio_available.waiting_list

submit_io-Inv : (r : Request) (f : FileIo) → Inv f → Inv (submit_io r f)
unfolding submit_io wait
submit_io-Inv r f v =
    ground (arith, Ones-append f.aio_available.waiting_list r, length-append f.scheduled (r ∷ []))

submit_io_impl-Inv :
    (r : ℤ) (f : FileIo) (qs : List Request)
    → qs ≡ f.scheduled
    → Inv f
    → Inv (submit_io_impl r f qs)
unfolding submit_io_impl
submit_io_impl-Inv r f [] e v = v
submit_io_impl-Inv r f (q ∷ qs) e v =
    ground (arith, length-append f.failed (q ∷ []), length-append f.in_kernel (q ∷ []))

reap_io-Inv :
    (n : ℕ) (events : List IoEvent) (left : List Request) (errno : ℤ) (active : Bool)
    (f f' : FileIo) (es : List (Entry Request))
    → es ≡ f.aio_available.waiting_list
    → length f.in_kernel ≡ length events + length left
    → Inv f
    → reap_io (pos n) events left errno f ≡ ok (f', active)
    → Inv f'
unfolding reap_io release
reap_io-Inv n events left errno active f f' [] e l v r = ground arith
reap_io-Inv n events left errno active f f' (w ∷ es) e l v r =
    ground (arith, length-append f.scheduled (w.pr ∷ []))

Step-Inv : {f f' : FileIo} → Step f f' → Inv f → Inv f'
Step-Inv {f} (submits r e) v = rw e (submit_io-Inv r f v)
Step-Inv {f} (runs r e) v = rw e (submit_io_impl-Inv r f f.scheduled refl v)
Step-Inv {f} {f'} (reaps n events left errno active c p e) v =
    reap_io-Inv n events left errno active f f' f.aio_available.waiting_list refl
      (omega (arith, length-perm p, length-append (requests events) left, length-requests events)) v
      e

start-Inv : (eventfd : ℤ) → Inv (start eventfd)
unfolding start init
start-Inv eventfd = omega arith

pub Reach-Inv : {f : FileIo} → Reach f → Inv f
Reach-Inv (here eventfd) = start-Inv eventfd
Reach-Inv (next r st) = Step-Inv st (Reach-Inv r)

-- In every state that a history leads to, the free tokens, the scheduled continuations, the requests in
-- the kernel and the requests whose io_submit failed make up 128. So the kernel never holds more than
-- 128 requests; but each failure costs a token for good, since no `release` answers it.
Reach-tokens :
    {f : FileIo}
    → Reach f
    → (f.aio_available.tokens + (length f.scheduled + (length f.in_kernel + length f.failed))
        ≡ max_io)
      × (length f.in_kernel ≤ max_io)
Reach-tokens h = ground (arith, Reach-Inv h)

impl-failed-grows :
    (r : ℤ) (f : FileIo) (qs : List Request)
    → length f.failed ≤ length (submit_io_impl r f qs).failed
unfolding submit_io_impl
impl-failed-grows r f [] = omega arith
impl-failed-grows r f (q ∷ qs) = ground (arith, length-append f.failed (q ∷ []))

failed-grows : {f f' : FileIo} → Step f f' → length f.failed ≤ length f'.failed
unfolding submit_io reap_io
failed-grows {f} (submits r e) = ground arith
failed-grows {f} (runs r e) = rw e (impl-failed-grows r f f.scheduled)
failed-grows {f} (reaps n events left errno active c p e) = ground arith

-- From any state that a history leads to, whatever the next step is: the requests under way and the
-- failures up to then make up at most 128. So each failure of io_submit lowers for good the number of
-- requests that can be under way, and after 128 of them nothing is submitted any more.
pub Reach-exhausted :
    {f f' : FileIo}
    → Reach f
    → Step f f'
    → length f'.scheduled + (length f'.in_kernel + length f.failed) ≤ max_io
Reach-exhausted h st = omega (arith, (Reach-Inv (next h st)).counted, failed-grows st)
