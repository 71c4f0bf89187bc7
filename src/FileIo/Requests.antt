-- ===== src/FileIo/Requests.antt =====
-- What becomes of each request of a File_io (lib/io/file_io.cpp).
use miniss.Base.{
  count, count-append, count-append_one, count-perm, count-perm, count-append_one, ℕ, ℤ, pos, ◌+◌,
  ◌≡◌, refl, ap, ◌∙◌, Bool, List, [], ◌∷◌, ◌++◌, arith,
}
use miniss.Exceptions.{ok}
use miniss.Semaphore.{Entry, init, wait, release}
use miniss.Semaphore.Usage.{prs, prs-append}
use miniss.FileIo.{
  Request, IoEvent, FileIo, start, submit_io, submit_io_impl, reap_io, requests, Step, submits,
  runs, reaps, Reach, here, next,
}

requests-append : (es fs : List IoEvent) → requests (es ++ fs) ≡ requests es ++ requests fs
requests-append [] fs = refl
requests-append (e ∷ es) fs = ap (◌∷◌ e.request) (requests-append es fs)

module _ (p : Request → Bool) where
  abbrev pub Accounted : FileIo → Type 0
  Accounted f =
      count p f.submitted
      ≡ count p (prs f.aio_available.waiting_list)
        + (count p f.scheduled
            + (count p f.in_kernel + (count p f.failed + count p (requests f.resolved))))

  submit_io-Accounted : (r : Request) (f : FileIo) → Accounted f → Accounted (submit_io r f)
  unfolding submit_io wait
  submit_io-Accounted r f v = ground (
    arith,
    count-append_one p f.submitted r,
    count-append_one p f.scheduled r,
    prs-append f.aio_available.waiting_list (record { tokens = 1; pr = r } ∷ []),
    count-append_one p (prs f.aio_available.waiting_list) r,
  )

  submit_io_impl-Accounted :
      (r : ℤ) (f : FileIo) (qs : List Request)
      → qs ≡ f.scheduled
      → Accounted f
      → Accounted (submit_io_impl r f qs)
  unfolding submit_io_impl
  submit_io_impl-Accounted r f [] e v = v
  submit_io_impl-Accounted r f (q ∷ qs) e v =
      ground (arith, count-append_one p f.failed q, count-append_one p f.in_kernel q)

  reap_io-Accounted :
      (n : ℕ) (events : List IoEvent) (left : List Request) (errno : ℤ) (active : Bool)
      (f f' : FileIo) (es : List (Entry Request))
      → es ≡ f.aio_available.waiting_list
      → count p f.in_kernel ≡ count p (requests events) + count p left
      → Accounted f
      → reap_io (pos n) events left errno f ≡ ok (f', active)
      → Accounted f'
  unfolding reap_io release
  reap_io-Accounted n events left errno active f f' [] e l v r = ground (
    arith,
    requests-append f.resolved events,
    count-append p (requests f.resolved) (requests events),
  )
  reap_io-Accounted n events left errno active f f' (w ∷ es) e l v r = ground (
    arith,
    requests-append f.resolved events,
    count-append p (requests f.resolved) (requests events),
    count-append_one p f.scheduled w.pr,
  )

  Step-Accounted : {f f' : FileIo} → Step f f' → Accounted f → Accounted f'
  Step-Accounted {f} (submits r e) v = rw e (submit_io-Accounted r f v)
  Step-Accounted {f} (runs r e) v = rw e (submit_io_impl-Accounted r f f.scheduled refl v)
  Step-Accounted {f} {f'} (reaps n events left errno active c d e) v =
      reap_io-Accounted n events left errno active f f' f.aio_available.waiting_list refl
        (count-perm p d ∙ count-append p (requests events) left) v e

  start-Accounted : (eventfd : ℤ) → Accounted (start eventfd)
  unfolding start init
  start-Accounted eventfd = omega arith

  -- In every state that a history leads to, whatever set of requests the test `p` picks: as many of
  -- them were submitted as wait for a token, are scheduled, are in the kernel, have failed at io_submit
  -- or have been resolved with an event. So no request is lost, and none is resolved twice.
  pub Reach-Accounted :
      {f : FileIo}
      → Reach f
      → count p f.submitted
        ≡ count p (prs f.aio_available.waiting_list)
          + (count p f.scheduled
              + (count p f.in_kernel + (count p f.failed + count p (requests f.resolved))))
  Reach-Accounted (here eventfd) = start-Accounted eventfd
  Reach-Accounted (next r st) = Step-Accounted st (Reach-Accounted r)
