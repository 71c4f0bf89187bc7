-- ===== src/Start/Safety.antt =====
-- That no CPU runs before all CPUs and queues are there (lib/os.cpp, OS::init).
use miniss.Base.{◌≢◌, ℕ, ◌≤◌, ◌<◌, ◌≡◌, ◌⊎◌, inl, refl, true, List, [], ◌∷◌, arith, count, one_if}
use miniss.Start.{
  Point, unborn, spawning, constructing, building, running, lacks_cpu, is_running, Latches,
  StartState, Reach,
}
use miniss.Start.Order.{rank, before_constructed, AllPassed}
use miniss.Start.Invariant.{Inv, Reach-Inv}

lacks_cpu-rank : (p : Point) → one_if (lacks_cpu p) ≤ one_if (before_constructed p)
lacks_cpu-rank unborn = omega arith
lacks_cpu-rank spawning = omega arith
lacks_cpu-rank constructing = omega arith
lacks_cpu-rank p = omega arith

is_running-rank : (p : Point) → is_running p ≡ true → 6 < rank p
is_running-rank running h = omega arith
is_running-rank p h = ground arith

count-lacks_cpu : (ps : List Point) → count lacks_cpu ps ≤ count before_constructed ps
count-lacks_cpu [] = omega arith
count-lacks_cpu (p ∷ ps) = omega (arith, lacks_cpu-rank p, count-lacks_cpu ps)

-- A thread that runs is behind the second latch.
pub count-is_running :
    (l : Latches) (ps : List Point)
    → AllPassed l ps
    → (count is_running ps ≡ 0) ⊎ (l.queue_constructed ≡ 0)
count-is_running l [] h = inl refl
count-is_running l (p ∷ ps) h = ground (arith, is_running-rank p, count-is_running l ps)

-- Behind the second latch everything is constructed.
pub built-all :
    (n : ℕ) (s : StartState)
    → Inv n s
    → s.latches.queue_constructed ≡ 0
    → (s.rows ≡ n) × (count lacks_cpu (s.main ∷ s.others) ≡ 0)
built-all n s v h = ground (arith, v.rows_built, v.main_passed, count-lacks_cpu (s.main ∷ s.others))

-- In every state that the threads' statements lead to, in any interleaving, from the beginning of `init`
-- with at least one CPU: if a thread has left `init`, all rows of the queues and all CPUs are constructed;
-- and while the main thread constructs the queues, all CPUs are there, so its assertion holds.
pub Reach-run_after_init :
    {n k : ℕ} {s : StartState}
    → 0 < n
    → Reach n k s
    → ((count is_running (s.main ∷ s.others) ≡ 0)
        ⊎ ((s.rows ≡ n) × (count lacks_cpu (s.main ∷ s.others) ≡ 0)))
      × ((rank s.main ≢ rank building) ⊎ (count lacks_cpu (s.main ∷ s.others) ≡ 0))
Reach-run_after_init {n} {k} {s} h r =
    let v = Reach-Inv n h r in
    (
      ground (
        arith,
        count-is_running s.latches (s.main ∷ s.others),
        built-all n s v,
        v.main_passed,
        v.others_passed,
      ),
      ground (arith, v.main_passed, v.constructed_count, count-lacks_cpu (s.main ∷ s.others)),
    )
