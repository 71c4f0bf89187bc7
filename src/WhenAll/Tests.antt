-- ===== src/WhenAll/Tests.antt =====
-- Two futures, of which the second comes true first.
use miniss.Base.{ℕ, ◌+◌, ◌≡◌, refl, true, none, some, [], ◌∷◌}
use miniss.WhenAll.{Slot, WhenAllState, when_all, run_continuation, finish, Reach, here, next}
use miniss.WhenAll.Completion.{Reach-promised}

abbrev slot : ℕ → Slot ℕ
slot r = record { source = r; live = true; future = none }

abbrev one_run : WhenAllState ℕ
one_run = run_continuation (slot 5 ∷ []) (slot 6) [] (when_all (5 ∷ 6 ∷ []))

abbrev both_run : WhenAllState ℕ
both_run = run_continuation [] (slot 5) (finish (slot 6) ∷ []) one_run

both_run-Reach : Reach (5 ∷ 6 ∷ []) 2 both_run
unfolding when_all run_continuation
both_run-Reach =
    next [] (slot 5) (finish (slot 6) ∷ []) (next (slot 5 ∷ []) (slot 6) [] here refl refl) refl
      refl

Reach-promised_example :
    (both_run.promise ≡ some (some 5 ∷ some 6 ∷ [])) × (both_run.use_count + 2 ≡ 2)
Reach-promised_example = Reach-promised both_run-Reach
