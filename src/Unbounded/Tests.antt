-- ===== src/Unbounded/Tests.antt =====
-- Runs over the list queue.
use miniss.Base.{ℕ, ◌≡◌, refl, true, [], ◌∷◌}
use miniss.Spsc.{Spsc, list_spsc}
use miniss.Unbounded.{Unbounded, capacity, flush_loop, flush, push}

abbrev numbers : Spsc ℕ capacity
numbers = list_spsc ℕ capacity

abbrev seven : Unbounded numbers
seven = record { queue_buffer = 1 ∷ 2 ∷ 3 ∷ 4 ∷ 5 ∷ 6 ∷ 7 ∷ []; queue = [] }

pushes_eighth : (push numbers 8 seven).1 ≡ true
unfolding push flush flush_loop
pushes_eighth = refl
