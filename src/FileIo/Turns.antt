-- ===== src/FileIo/Turns.antt =====
-- That every request of a File_io comes true (lib/io/file_io.cpp), also those that wait for one of the
-- 128 slots.
use mathlib.Core.List.{Perm}
use miniss.Base.{
  ℕ, zero, suc, ℤ, pos, ◌+◌, ◌≤◌, ◌<◌, ◌≡◌, refl, ap, ◌∙◌, ◌⊎◌, inl, inr, Bool, List, [], ◌∷◌, ◌++◌,
  length, length-append, count, min, arith,
}
use miniss.Exceptions.{ok}
use miniss.Semaphore.{Entry, release}
use miniss.Semaphore.Usage.{prs}
use miniss.FileIo.{
  Request, IoEvent, FileIo, submit_io_impl, reap_io, requests, runs, reaps, Reach, next,
}
use miniss.FileIo.Tokens.{Inv, Reach-Inv, length-perm, length-requests}
use miniss.FileIo.Requests.{Reach-Accounted}

-- The oldest continuation of `submit_io_`, if there is one, whose io_submit succeeds, and a call of `reap_io`
-- with any of the events, but at least one if the kernel holds a request.
pub data Turn (f g : FileIo) : Type 0 where
  turn :
      (r : ℕ) (h : FileIo) (events : List IoEvent) (left : List Request) (errno : ℤ) (active : Bool)
      → h ≡ submit_io_impl (pos r) f f.scheduled
      → (0 < length events) ⊎ (h.in_kernel ≡ [])
      → Perm h.in_kernel (requests events ++ left)
      → reap_io (pos (length events)) events left errno h ≡ ok (g, active)
      → Turn f g

pub data Turns : ℕ → FileIo → FileIo → Type 0 where
  done : (f : FileIo) → Turns zero f f
  and : {n : ℕ} {f g h : FileIo} → Turn f g → Turns n g h → Turns (suc n) f h

abbrev pub waiting : FileIo → List Request
waiting f = prs f.aio_available.waiting_list

abbrev pub outstanding : FileIo → ℕ
outstanding f = length (waiting f) + (length f.scheduled + length f.in_kernel)

-- Something is under way, or nothing waits.
abbrev IsGoing : FileIo → Type 0
IsGoing f = (0 < length f.scheduled + length f.in_kernel) ⊎ (length (waiting f) ≡ 0)

submit_io_impl-moves :
    (r : ℕ) (f : FileIo) (qs : List Request)
    → qs ≡ f.scheduled
    → let h = submit_io_impl (pos r) f qs in
      (outstanding h ≡ outstanding f)
      × (length f.scheduled + length f.in_kernel ≡ length h.scheduled + length h.in_kernel)
      × (min 1 (length f.scheduled + length f.in_kernel) ≤ length h.in_kernel)
      × (h.failed ≡ f.failed)
      × (h.submitted ≡ f.submitted)
unfolding submit_io_impl
submit_io_impl-moves r f [] e =
    let none_scheduled = ap length e in (refl, omega arith, omega arith, refl, refl)
submit_io_impl-moves r f (q ∷ qs) e = ground (arith, length-append f.in_kernel (q ∷ []))

reap_io-moves :
    (n : ℕ) (events : List IoEvent) (left : List Request) (errno : ℤ) (active : Bool) (h g : FileIo)
    (es : List (Entry Request))
    → es ≡ h.aio_available.waiting_list
    → Inv h
    → h.failed ≡ []
    → length h.in_kernel ≡ length events + length left
    → reap_io (pos n) events left errno h ≡ ok (g, active)
    → (outstanding g + length events ≡ outstanding h)
      × IsGoing g
      × (g.failed ≡ h.failed)
      × (g.submitted ≡ h.submitted)
unfolding reap_io release
reap_io-moves n events left errno active h g [] e v f l r = ground arith
reap_io-moves n events left errno active h g (w ∷ es) e v f l r =
    ground (arith, length-append h.scheduled (w.pr ∷ []))

length-positive :
    (events : List IoEvent) (qs : List Request)
    → (0 < length events) ⊎ (qs ≡ [])
    → min 1 (length qs) ≤ length events
length-positive events qs (inl k) = omega arith
length-positive events qs (inr e) = let none_held = ap length e in omega arith

record Turned (f g : FileIo) : Type 0 where
  reached : Reach g
  unfailed : g.failed ≡ []
  same : g.submitted ≡ f.submitted
  going : IsGoing g
  less : outstanding g + min 1 (length f.scheduled + length f.in_kernel) ≤ outstanding f

turned : {f g : FileIo} → Turn f g → Reach f → f.failed ≡ [] → Turned f g
turned {f} {g} (turn r h events left errno active e some_event p reap) reach unfailed =
    let moved = submit_io_impl-moves r f f.scheduled refl in
    let reach_h : Reach h = next reach (runs (pos r) e) in
    let moves : (outstanding h ≡ outstanding f)
        × (min 1 (length f.scheduled + length f.in_kernel) ≤ length h.in_kernel)
        × (h.failed ≡ f.failed)
        × (h.submitted ≡ f.submitted) =
      rw e (moved.0, moved.2, moved.3, moved.4) in
    let counted : length h.in_kernel ≡ length events + length left =
      omega (arith, length-perm p, length-append (requests events) left, length-requests events) in
    let reaped =
      reap_io-moves (length events) events left errno active h g h.aio_available.waiting_list refl
        (Reach-Inv reach_h) (moves.2 ∙ unfailed) counted reap in
    record {
      reached = next reach_h (reaps (length events) events left errno active refl p reap);
      unfailed = reaped.2 ∙ (moves.2 ∙ unfailed);
      same = reaped.3 ∙ moves.3;
      going = reaped.1;
      less =
          omega (arith, length-positive events h.in_kernel some_event, moves.0, moves.1, reaped.0);
    }

turns-empty :
    (n : ℕ) {f g : FileIo}
    → Turns n f g
    → Reach f
    → f.failed ≡ []
    → IsGoing f
    → outstanding f ≤ n
    → Reach g × (g.failed ≡ []) × (g.submitted ≡ f.submitted) × (outstanding g ≡ 0)
turns-empty zero (done f) reach unfailed going few = (reach, unfailed, refl, omega arith)
turns-empty (suc n) (and t ts) reach unfailed going few =
    let one = turned t reach unfailed in
    let more =
      turns-empty n ts one.reached one.unfailed one.going (omega (arith, one.less, going)) in
    (more.0, more.1, more.2 ∙ one.same, more.3)

length-zero : (qs : List Request) → length qs ≡ 0 → qs ≡ []
length-zero [] e = refl
length-zero (q ∷ qs) e = absurd (omega arith)

-- Every request comes true, also where more are submitted than the kernel has room for. In any history in
-- which no io_submit has failed, let `n + 1` turns follow, where `n` is at least the number of requests that
-- wait, are scheduled or are in the kernel. A turn is the oldest continuation of `submit_io_`, if there is one,
-- whose io_submit succeeds, and a call of `reap_io`, in which the kernel reports any of the requests that it
-- holds, but at least one. Then, whatever set of requests the test `p` picks, as many of them were resolved as
-- were submitted, so all of them.
pub turns-resolved :
    (p : Request → Bool) (n : ℕ) {f g : FileIo}
    → Reach f
    → f.failed ≡ []
    → outstanding f ≤ n
    → Turns (suc n) f g
    → count p (requests g.resolved) ≡ count p f.submitted
turns-resolved p n {f} {g} reach unfailed few (and t ts) =
    let one = turned t reach unfailed in
    let (end, none_failed, same, none_left) =
      turns-empty n ts one.reached one.unfailed one.going (omega (arith, one.less)) in
    let none_waits = ap (count p) (length-zero (waiting g) (omega arith)) in
    let none_scheduled = ap (count p) (length-zero g.scheduled (omega arith)) in
    let none_held = ap (count p) (length-zero g.in_kernel (omega arith)) in
    omega (
      arith,
      Reach-Accounted p end,
      none_waits,
      none_scheduled,
      none_held,
      ap (count p) none_failed,
      ap (count p) (same ∙ one.same),
    )
