-- ===== src/WhenAll/Completion.antt =====
-- When the future of when_all comes true (include/miniss/future_util.h).
use miniss.Base.{
  ℕ, suc, ◌+◌, ◌≡◌, refl, ap, sym, Bool, none, some, List, [], ◌∷◌, ◌++◌, length, map, ◌==◌,
  if◌then◌else◌, arith, count, count-append,
}
use miniss.WhenAll.{
  Slot, WhenAllState, future_of, drop_pointer, wrap, when_all, finish, run_continuation, Reach,
  here, next,
}

module _ {R : Type 0} where
  abbrev source_of : Slot R → R
  source_of s = s.source

  abbrev live_of : Slot R → Bool
  live_of s = s.live

  -- Its new future has come true exactly if its continuation has run.
  abbrev Sound : List (Slot R) → Type 0
  Sound [] = Unit {0}
  Sound (x ∷ xs) = (x.future ≡ (if x.live then none else some x.source)) × Sound xs

  map-append :
      {B : Type 0} (f : Slot R → B) (xs ys : List (Slot R))
      → map f (xs ++ ys) ≡ map f xs ++ map f ys
  map-append f [] ys = refl
  map-append f (x ∷ xs) ys = ap (◌∷◌ (f x)) (map-append f xs ys)

  finish-Sound :
      (a : List (Slot R)) (x : Slot R) (b : List (Slot R))
      → Sound (a ++ x ∷ b)
      → Sound (a ++ finish x ∷ b)
  unfolding finish
  finish-Sound [] x b h = (refl, h.1)
  finish-Sound (y ∷ a) x b h = (h.0, finish-Sound a x b h.1)

  wrap-Sound :
      (rs : List R)
      → Sound (wrap rs) × (count live_of (wrap rs) ≡ length rs) × (map source_of (wrap rs) ≡ rs)
  unfolding wrap
  wrap-Sound [] = (tt, refl, refl)
  wrap-Sound (r ∷ rs) =
      let rest = wrap-Sound rs in ((refl, rest.0), ground (arith, rest.1), ap (◌∷◌ r) rest.2)

  all_done :
      (xs : List (Slot R))
      → Sound xs
      → count live_of xs ≡ 0
      → map future_of xs ≡ map some (map source_of xs)
  all_done [] h e = refl
  all_done (x ∷ xs) h e = ground (arith, all_done xs)

  -- The state behind `n` continuations.
  record Inv (rs : List R) (n : ℕ) (s : WhenAllState R) : Type 0 where
    sound : Sound s.futures
    sources : map source_of s.futures ≡ rs
    pointers : s.use_count ≡ count live_of s.futures
    steps : n + count live_of s.futures ≡ length rs
    promised : s.promise ≡ (if n == length rs then some (map some rs) else none)

  drop_pointer-Inv :
      (rs : List R) (n : ℕ) (s : WhenAllState R)
      → Sound s.futures
      → map source_of s.futures ≡ rs
      → s.use_count ≡ suc (count live_of s.futures)
      → n + count live_of s.futures ≡ length rs
      → s.promise ≡ none
      → Inv rs n (drop_pointer s)
  unfolding drop_pointer
  drop_pointer-Inv rs n s h k u c p = ground (arith, all_done s.futures)

  Reach-Inv : {rs : List R} {n : ℕ} {s : WhenAllState R} → Reach rs n s → Inv rs n s
  unfolding when_all run_continuation finish
  Reach-Inv {rs} here =
      let w = wrap-Sound rs in
      drop_pointer-Inv rs 0
        (record { futures = wrap rs; use_count = suc (length rs); promise = none }) w.0 w.2
        (ap suc (sym w.1)) (omega (arith, w.1)) (ground (arith, w.1))
  Reach-Inv {rs} (next {n = n} {s = s} before x after r e l) =
      let v = Reach-Inv r in
      let live : count live_of (before ++ x ∷ after)
          ≡ suc (count live_of (before ++ finish x ∷ after)) =
        ground (
          arith,
          count-append live_of before (x ∷ after),
          count-append live_of before (finish x ∷ after),
        ) in
      drop_pointer-Inv rs (suc n) (record s { futures = before ++ finish x ∷ after })
        (finish-Sound before x after (rw (← e) v.sound))
        (ground (
          arith,
          v.sources,
          map-append source_of before (x ∷ after),
          map-append source_of before (finish x ∷ after),
        ))
        (ground (arith, v.pointers, live)) (ground (arith, v.steps, live))
        (ground (arith, v.promised, v.steps, live))

  -- However the continuations of the futures given to `when_all` are ordered: its future comes true
  -- when the last of them has run and not before, with all futures in the order in which they were
  -- given, each come true with what the given one came true with, values and exceptions alike.
  pub Reach-promised :
      {rs : List R} {n : ℕ} {s : WhenAllState R}
      → Reach rs n s
      → (s.promise ≡ (if n == length rs then some (map some rs) else none))
        × (s.use_count + n ≡ length rs)
  Reach-promised h = let v = Reach-Inv h in (v.promised, omega (arith, v.pointers, v.steps))
