-- ===== src/Semaphore.antt =====
-- include/miniss/util/semaphore.h and lib/util/semaphore.cpp.
-- `P` is the type of the promises of future.h; a fresh one is an argument of `wait`, and the calls
-- of the futures library (make_ready_future, get_future, set_value) are in the results.
pub mod Usage
pub mod Progress
mod Tests
use miniss.Base.{
  ℕ, ◌+◌, ◌-◌, Bool, ◌&&◌, Option, none, some, List, [], ◌∷◌, ◌++◌, ltb, if◌then◌else◌, is_empty,
  add_u64,
}

pub record Entry (P : Type 0) : Type 0 where
  pub tokens : ℕ
  pub pr : P

pub record Semaphore (P : Type 0) : Type 0 where
  pub tokens : ℕ
  pub waiting_list : List (Entry P)

-- The future that `wait` returns: a ready one, or that of the promise in the waiting list.
pub data Future (P : Type 0) : Type 0 where
  ready : Future P
  pending : P → Future P

module _ {P : Type 0} where
  unfoldable pub init : ℕ → Semaphore P
  init token = record { tokens = token; waiting_list = [] }

  unfoldable pub wait : P → ℕ → Semaphore P → Semaphore P × Future P
  wait pr n s =
      if ltb n s.tokens && is_empty s.waiting_list
      then (record s { tokens = s.tokens - n }, ready)
      else (record s { waiting_list = s.waiting_list ++ entry ∷ [] }, pending pr)
    where
      entry : Entry P
      entry = record { tokens = n; pr = pr }

  -- The part of `release` behind `tokens_ += tokens`. The result is the promise that is set.
  unfoldable pub wake_front : ℕ → List (Entry P) → Semaphore P × Option P
  wake_front t [] = (record { tokens = t; waiting_list = [] }, none)
  wake_front t (e ∷ rest) =
      if ltb t e.tokens
      then (record { tokens = t; waiting_list = e ∷ rest }, none)
      else (record { tokens = t - e.tokens; waiting_list = rest }, some e.pr)

  unfoldable pub release : ℕ → Semaphore P → Semaphore P × Option P
  unfolding wake_front
  release n s = wake_front (add_u64 s.tokens n) s.waiting_list
