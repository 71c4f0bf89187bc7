-- ===== src/Semaphore/Tests.antt =====
-- Runs of a semaphore whose promises are numbers.
use miniss.Base.{ℕ, ◌+◌, ◌≡◌, refl, ◌++◌, [], ◌∷◌, arith}
use miniss.Semaphore.{init, wait, release}
use miniss.Semaphore.Usage.{
  Usage, Reach, here, next, waits, releases, start, use_wait, use_release, prs,
  Reach-conserved_in_order,
}

abbrev one_waits : Usage ℕ
one_waits = use_wait 8 2 (use_wait 7 2 (start 4))

one_waits-Reach : Reach (start 4) one_waits
one_waits-Reach = next (next here (waits 7 2 (start 4))) (waits 8 2 (use_wait 7 2 (start 4)))

abbrev handed_on : Usage ℕ
handed_on = use_release 1 one_waits

handed_on_run : handed_on.granted ≡ 7 ∷ 8 ∷ []
unfolding wait release init
handed_on_run = refl

handed_on-Reach : Reach (start 4) handed_on
unfolding wait init
handed_on-Reach = next one_waits-Reach (releases 1 one_waits (omega arith))

Reach-conserved_in_order_example :
    (handed_on.sem.tokens + handed_on.held ≡ 4)
    × (handed_on.granted ++ prs handed_on.sem.waiting_list ≡ handed_on.issued)
Reach-conserved_in_order_example = Reach-conserved_in_order (omega arith) handed_on-Reach
