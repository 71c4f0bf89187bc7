-- ===== src/WhenAll.antt =====
-- when_all and When_all_state of include/miniss/future_util.h. `R` is the type of what a future comes
-- true with: a value or an exception.
pub mod Completion
mod Tests
use miniss.Base.{
  ℕ, zero, suc, ◌-◌, ◌≡◌, Bool, true, false, Option, none, some, List, [], ◌∷◌, ◌++◌, length, map,
  ◌==◌, if◌then◌else◌,
}

-- A future of `futures_`: what the one that it wraps comes true with, whether the continuation that
-- `then_wrapped` attached is still there, and the new future that stands in its place.
pub record Slot (R : Type 0) : Type 0 where
  pub source : R
  pub live : Bool
  pub future : Option R

-- `use_count` is the count of the shared pointers to the state.
pub record WhenAllState (R : Type 0) : Type 0 where
  pub futures : List (Slot R)
  pub use_count : ℕ
  pub promise : Option (List (Option R))

module _ {R : Type 0} where
  abbrev pub future_of : Slot R → Option R
  future_of s = s.future

  -- A shared pointer goes; behind the last one the destructor sets the promise.
  unfoldable pub drop_pointer : WhenAllState R → WhenAllState R
  drop_pointer s =
      if s.use_count == 1
      then record s { use_count = 0; promise = some (map future_of s.futures) }
      else record s { use_count = s.use_count - 1 }

  unfoldable pub wrap : List R → List (Slot R)
  wrap [] = []
  wrap (r ∷ rs) = record { source = r; live = true; future = none } ∷ wrap rs

  -- `when_all`: each continuation has a pointer, and its own goes when it returns.
  unfoldable pub when_all : List R → WhenAllState R
  unfolding wrap drop_pointer
  when_all rs =
      drop_pointer (record { futures = wrap rs; use_count = suc (length rs); promise = none })

  -- A continuation hands on what it got and is destroyed, with its pointer.
  unfoldable pub finish : Slot R → Slot R
  finish x = record x { live = false; future = some x.source }

  unfoldable pub run_continuation :
      List (Slot R) → Slot R → List (Slot R) → WhenAllState R → WhenAllState R
  unfolding finish drop_pointer
  run_continuation before x after s =
      drop_pointer (record s { futures = before ++ finish x ∷ after })

  -- The continuations of the futures run in any order; `Reach rs n` is `n` of them.
  pub data Reach (rs : List R) : ℕ → WhenAllState R → Type 0 where
    here : Reach rs 0 (when_all rs)
    next :
        {n : ℕ} {s : WhenAllState R} (before : List (Slot R)) (x : Slot R) (after : List (Slot R))
        → Reach rs n s
        → s.futures ≡ before ++ x ∷ after
        → x.live ≡ true
        → Reach rs (suc n) (run_continuation before x after s)
