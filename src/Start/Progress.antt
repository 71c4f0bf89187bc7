-- ===== src/Start/Progress.antt =====
-- That OS::init ends on every thread (lib/os.cpp).
use miniss.Base.{
  ℕ, zero, suc, ◌+◌, ◌-◌, ◌*◌, ◌≤◌, ◌<◌, ◌≡◌, ◌⊎◌, inl, inr, refl, ap, ◌∙◌, false, List, [], ◌∷◌,
  ◌++◌, length, arith, count, one_if, ltb, if◌then◌else◌, replicate, Bool-cases,
}
use miniss.Start.{
  Point, unborn, constructing, building, at_built, running, is_running, Latches, StartState, start,
  Advance, constructs, arrives_constructed, passes_constructed, arrives_built, passes_built,
  arrives_started, passes_started, Step, main_moves, moves, spawns, spawned, builds, built, Reach,
  here, next,
}
use miniss.Start.Order.{rank}
use miniss.Start.Enabled.{not_running, steps}
use miniss.Start.Invariant.{Reach-Inv}

-- The statements that the other threads have behind them, each; they have no queues to construct.
abbrev steps_of : Point → ℕ
steps_of p = if ltb (rank p) 4 then rank p else rank p - 1

abbrev steps_of_all : List Point → ℕ
steps_of_all [] = 0
steps_of_all (p ∷ ps) = steps_of p + steps_of_all ps

abbrev done : StartState → ℕ
done s = rank s.main + steps_of_all s.others + s.rows

steps_of_all-replace :
    (a b : List Point) (p : Point)
    → steps_of_all (a ++ p ∷ b) ≡ steps_of p + (steps_of_all a + steps_of_all b)
steps_of_all-replace [] b p = omega arith
steps_of_all-replace (q ∷ a) b p = omega (arith, steps_of_all-replace a b p)

main-rank : (l l' : Latches) (p p' : Point) → Advance building l l' p p' → rank p' ≡ rank p + 1
main-rank l l' p p' (constructs e f g) = ground arith
main-rank l l' p p' (arrives_constructed e f g) = ground arith
main-rank l l' p p' (passes_constructed e f g m) = ground arith
main-rank l l' p p' (arrives_built e f g) = ground arith
main-rank l l' p p' (passes_built e f g m) = ground arith
main-rank l l' p p' (arrives_started e f g) = ground arith
main-rank l l' p p' (passes_started e f g m) = ground arith

other-steps :
    (l l' : Latches) (p p' : Point) → Advance at_built l l' p p' → steps_of p' ≡ steps_of p + 1
other-steps l l' p p' (constructs e f g) = ground arith
other-steps l l' p p' (arrives_constructed e f g) = ground arith
other-steps l l' p p' (passes_constructed e f g m) = ground arith
other-steps l l' p p' (arrives_built e f g) = ground arith
other-steps l l' p p' (passes_built e f g m) = ground arith
other-steps l l' p p' (arrives_started e f g) = ground arith
other-steps l l' p p' (passes_started e f g m) = ground arith

Step-done : (n : ℕ) {s s' : StartState} → Step n s s' → done s' ≡ suc (done s)
Step-done n {s} (main_moves p l ad e) = rw e (omega (arith, main-rank s.latches l s.main p ad))
Step-done n {s} (moves a b p p' l k ad e) = rw e (
    omega (
      arith,
      other-steps s.latches l p p' ad,
      ap steps_of_all k,
      steps_of_all-replace a b p,
      steps_of_all-replace a b p',
    ))
Step-done n {s} (spawns a b m k e) = rw e (
    omega (
      arith,
      ap steps_of_all k,
      steps_of_all-replace a b unborn,
      steps_of_all-replace a b constructing,
    ))
Step-done n {s} (spawned m k e) = ground arith
Step-done n {s} (builds m k e) = ground arith
Step-done n {s} (built m k e) = ground arith

none_done : (k : ℕ) → steps_of_all (replicate k unborn) ≡ 0
none_done zero = refl
none_done (suc k) = omega (arith, none_done k)

Reach-done : (n : ℕ) {k : ℕ} {s : StartState} → Reach n k s → done s ≡ k
unfolding start
Reach-done n here = omega (arith, none_done (n - 1))
Reach-done n (next r st) = Step-done n st ∙ ap suc (Reach-done n r)

rank_bound : (p : Point) → rank p + one_if (not_running p) ≤ 9
rank_bound unborn = omega arith
rank_bound p = omega arith

steps_bound : (p : Point) → steps_of p + one_if (not_running p) ≤ 8
steps_bound unborn = omega arith
steps_bound p = omega arith

steps_of_all_bound : (ps : List Point) → steps_of_all ps + count not_running ps ≤ 8 * length ps
steps_of_all_bound [] = omega arith
steps_of_all_bound (p ∷ ps) = omega (arith, steps_bound p, steps_of_all_bound ps)

running-rank : (p : Point) → not_running p ≡ false → p ≡ running
running-rank running h = refl
running-rank p h = cc

running-all :
    (ps : List Point)
    → count not_running ps ≡ 0
    → (count is_running ps ≡ length ps) × (steps_of_all ps ≡ 8 * length ps)
running-all [] h = (refl, refl)
running-all (p ∷ ps) h = elim (Bool-cases (not_running p)) [
  | inl k ↦ absurd (omega (arith, ap one_if k))
  | inr k ↦ ground (arith, running-rank p k, running-all ps)
]

-- However the threads' statements interleave from the beginning of `init` with at least one CPU, no
-- deadlock: as long as a thread has not left `init`, some thread can go on. And after exactly nine
-- statements for each CPU, and one, every thread has left `init`; no interleaving is longer.
pub Reach-ends :
    {n k : ℕ} {s : StartState}
    → 0 < n
    → Reach n k s
    → ((count is_running (s.main ∷ s.others) ≡ n) × (k ≡ 9 * n + 1))
      ⊎ ((k < 9 * n + 1) × ((s' : StartState) × Step n s s'))
Reach-ends {n} {k} {s} h r =
    let v = Reach-Inv n h r in
    let d = Reach-done n r in
    elim (Bool-cases (ltb 0 (count not_running (s.main ∷ s.others)))) [
      | inl more ↦ inr (
        ground (arith, v.size, v.rows_bound, rank_bound s.main, steps_of_all_bound s.others),
        steps n s v (ground arith),
      )
      | inr none_left ↦
          let zero_left : count not_running (s.main ∷ s.others) ≡ 0 = ground arith in
          let (all, each) = running-all (s.main ∷ s.others) zero_left in
          inl (all ∙ v.size, ground (arith, v.size, v.rows_built, each, zero_left, d))
    ]
