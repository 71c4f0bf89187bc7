-- ===== src/Start/Invariant.antt =====
-- That every statement of a thread keeps the invariant of Order (lib/os.cpp).
use miniss.Base.{
  ℕ, zero, suc, ◌+◌, ◌-◌, ◌≤◌, ◌<◌, ◌≡◌, inl, inr, refl, ap, Bool, false, List, ◌∷◌, ◌++◌, length,
  length-append, arith, count, count-append, one_if, replicate,
}
use miniss.Start.{
  Point, unborn, spawning, constructing, building, at_built, is_unborn, Latches, StartState, start,
  Advance, Step, main_moves, moves, spawns, spawned, builds, built, Reach, here, next,
}
use miniss.Start.Order.{
  rank, before_constructed, before_built, before_started, Passed, AllPassed, is_main,
  AllPassed-Falls, AllPassed-replace, AllPassed-at, Advance-Advanced, main_rank, other_kind,
}

pub record Inv (cpu_count : ℕ) (s : StartState) : Type 0 where
  pub size : suc (length s.others) ≡ cpu_count
  pub constructed_count :
      s.latches.cpu_constructed
      ≡ one_if (before_constructed s.main) + count before_constructed s.others
  pub built_count :
      s.latches.queue_constructed ≡ one_if (before_built s.main) + count before_built s.others
  pub started_count :
      s.latches.started ≡ one_if (before_started s.main) + count before_started s.others
  pub main_passed : Passed s.latches s.main
  pub others_passed : AllPassed s.latches s.others
  pub rows_bound : s.rows ≤ cpu_count
  pub rows_built : 4 < rank s.main → s.rows ≡ cpu_count
  pub main_born : is_unborn s.main ≡ false
  pub others_born : 0 < rank s.main → count is_unborn s.others ≡ 0
  pub others_kind : count is_main s.others ≡ 0

module _ (n : ℕ) where
  main_moves-Inv :
      (s : StartState) (p : Point) (l : Latches)
      → Advance building s.latches l s.main p
      → Inv n s
      → Inv n (record s { main = p; latches = l })
  main_moves-Inv s p l ad v =
      let d =
        Advance-Advanced building s.latches l s.main p (count before_constructed s.others)
          (count before_built s.others) (count before_started s.others) (inl refl) ad v.main_passed
          v.constructed_count v.built_count v.started_count in
      record {
        size = v.size;
        constructed_count = d.constructed_left;
        built_count = d.built_left;
        started_count = d.started_left;
        main_passed = d.passed;
        others_passed = AllPassed-Falls s.latches l s.others d.falls v.others_passed;
        rows_bound = v.rows_bound;
        rows_built = λ h. v.rows_built (main_rank s.latches l s.main p ad h);
        main_born = d.alive;
        others_born = λ h. v.others_born d.born;
        others_kind = v.others_kind;
      }

  -- One of the other threads replaced by itself at another point.
  count-replace :
      (f : Point → Bool) (a b : List Point) (p : Point)
      → count f (a ++ p ∷ b) ≡ one_if (f p) + (count f a + count f b)
  count-replace f a b p = omega (arith, count-append f a (p ∷ b))

  moves-Inv :
      (s : StartState) (a b : List Point) (p p' : Point) (l : Latches)
      → s.others ≡ a ++ p ∷ b
      → Advance at_built s.latches l p p'
      → Inv n s
      → Inv n (record s { others = a ++ p' ∷ b; latches = l })
  moves-Inv s a b p p' l e ad v =
      let passed : AllPassed s.latches (a ++ p ∷ b) = rw (← e) v.others_passed in
      let d =
        Advance-Advanced at_built s.latches l p p'
          (one_if (before_constructed s.main)
            + (count before_constructed a + count before_constructed b))
          (one_if (before_built s.main) + (count before_built a + count before_built b))
          (one_if (before_started s.main) + (count before_started a + count before_started b))
          (inr refl) ad (AllPassed-at s.latches a p b passed)
          (omega (
            arith,
            v.constructed_count,
            ap (count before_constructed) e,
            count-replace before_constructed a b p,
          ))
          (omega
            (arith, v.built_count, ap (count before_built) e, count-replace before_built a b p))
          (omega (
            arith,
            v.started_count,
            ap (count before_started) e,
            count-replace before_started a b p,
          )) in
      record {
        size =
            omega (arith, v.size, ap length e, length-append a (p ∷ b), length-append a (p' ∷ b));
        constructed_count =
            omega (arith, d.constructed_left, count-replace before_constructed a b p');
        built_count = omega (arith, d.built_left, count-replace before_built a b p');
        started_count = omega (arith, d.started_left, count-replace before_started a b p');
        main_passed = ground (arith, v.main_passed, d.falls);
        others_passed =
            AllPassed-replace l a p p' b (AllPassed-Falls s.latches l (a ++ p ∷ b) d.falls passed)
              d.passed;
        rows_bound = v.rows_bound;
        rows_built = v.rows_built;
        main_born = v.main_born;
        others_born = λ h. ground (
          arith,
          v.others_born h,
          ap (count is_unborn) e,
          count-replace is_unborn a b p,
          count-replace is_unborn a b p',
          d.alive,
        );
        others_kind = ground (
          arith,
          v.others_kind,
          ap (count is_main) e,
          count-replace is_main a b p,
          count-replace is_main a b p',
          other_kind s.latches l p p' ad,
        );
      }

  spawns-Inv :
      (s : StartState) (a b : List Point)
      → s.main ≡ spawning
      → s.others ≡ a ++ unborn ∷ b
      → Inv n s
      → Inv n (record s { others = a ++ constructing ∷ b })
  spawns-Inv s a b m e v =
      let passed : AllPassed s.latches (a ++ unborn ∷ b) = rw (← e) v.others_passed in
      record {
        size = omega (
          arith,
          v.size,
          ap length e,
          length-append a (unborn ∷ b),
          length-append a (constructing ∷ b),
        );
        constructed_count = omega (
          arith,
          v.constructed_count,
          ap (count before_constructed) e,
          count-replace before_constructed a b unborn,
          count-replace before_constructed a b constructing,
        );
        built_count = omega (
          arith,
          v.built_count,
          ap (count before_built) e,
          count-replace before_built a b unborn,
          count-replace before_built a b constructing,
        );
        started_count = omega (
          arith,
          v.started_count,
          ap (count before_started) e,
          count-replace before_started a b unborn,
          count-replace before_started a b constructing,
        );
        main_passed = v.main_passed;
        others_passed = AllPassed-replace s.latches a unborn constructing b passed (ground arith);
        rows_bound = v.rows_bound;
        rows_built = v.rows_built;
        main_born = v.main_born;
        others_born = λ h. ground arith;
        others_kind = omega (
          arith,
          v.others_kind,
          ap (count is_main) e,
          count-replace is_main a b unborn,
          count-replace is_main a b constructing,
        );
      }

  Step-Inv : {s s' : StartState} → Step n s s' → Inv n s → Inv n s'
  Step-Inv {s} (main_moves p l ad e) v = rw e (main_moves-Inv s p l ad v)
  Step-Inv {s} (moves a b p p' l k ad e) v = rw e (moves-Inv s a b p p' l k ad v)
  Step-Inv {s} (spawns a b m k e) v = rw e (spawns-Inv s a b m k v)
  Step-Inv {s} (spawned m k e) v = ground arith
  Step-Inv {s} (builds m k e) v = ground arith
  Step-Inv {s} (built m k e) v = ground arith

  counts-start :
      (k : ℕ) (l : Latches)
      → (count before_constructed (replicate k unborn) ≡ k)
        × (count before_built (replicate k unborn) ≡ k)
        × (count before_started (replicate k unborn) ≡ k)
        × (count is_main (replicate k unborn) ≡ 0)
        × (length (replicate k unborn) ≡ k)
        × AllPassed l (replicate k unborn)
  counts-start zero l = (refl, refl, refl, refl, refl, tt)
  counts-start (suc k) l = let h = counts-start k l in ground (arith, h)

  start-Inv : 0 < n → Inv n (start n)
  unfolding start
  start-Inv h = let k = counts-start (n - 1) (start n).latches in ground (arith, k)

  pub Reach-Inv : {k : ℕ} {s : StartState} → 0 < n → Reach n k s → Inv n s
  Reach-Inv h here = start-Inv h
  Reach-Inv h (next r st) = Step-Inv st (Reach-Inv h r)
