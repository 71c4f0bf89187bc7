-- ===== src/Start/Order.antt =====
-- What the latches of OS::init keep apart (lib/os.cpp).
use miniss.Base.{ℕ, ◌+◌, ◌<◌, ◌≡◌, ◌⊎◌, Bool, true, false, List, [], ◌∷◌, ◌++◌, arith, one_if, ltb}
use miniss.Start.{
  Point, unborn, spawning, constructing, constructed, waits_constructed, building, at_built,
  waits_built, at_started, waits_started, running, is_unborn, Latches, Advance, constructs,
  arrives_constructed, passes_constructed, arrives_built, passes_built, arrives_started,
  passes_started,
}

-- How many statements of its own the main thread has behind it, without those of the inner loops.
abbrev pub rank : Point → ℕ
rank unborn = 0
rank spawning = 0
rank constructing = 1
rank constructed = 2
rank waits_constructed = 3
rank building = 4
rank at_built = 5
rank waits_built = 6
rank at_started = 7
rank waits_started = 8
rank running = 9

-- Whether a thread has yet to arrive at each latch.
abbrev pub before_constructed : Point → Bool
before_constructed p = ltb (rank p) 3

abbrev pub before_built : Point → Bool
before_built p = ltb (rank p) 6

abbrev pub before_started : Point → Bool
before_started p = ltb (rank p) 8

-- A thread is behind a latch only if its count is zero.
abbrev pub Passed : Latches → Point → Type 0
Passed l p =
    (3 < rank p → l.cpu_constructed ≡ 0)
    × (6 < rank p → l.queue_constructed ≡ 0)
    × (8 < rank p → l.started ≡ 0)

abbrev pub AllPassed : Latches → List Point → Type 0
AllPassed l [] = Unit {0}
AllPassed l (p ∷ ps) = Passed l p × AllPassed l ps

-- What only the main thread does.
abbrev pub is_main : Point → Bool
is_main spawning = true
is_main building = true
is_main _ = false

-- A count of zero stays zero.
abbrev pub Falls : Latches → Latches → Type 0
Falls l l' =
    (l.cpu_constructed ≡ 0 → l'.cpu_constructed ≡ 0)
    × (l.queue_constructed ≡ 0 → l'.queue_constructed ≡ 0)
    × (l.started ≡ 0 → l'.started ≡ 0)

pub AllPassed-Falls :
    (l l' : Latches) (ps : List Point) → Falls l l' → AllPassed l ps → AllPassed l' ps
AllPassed-Falls l l' [] f h = tt
AllPassed-Falls l l' (p ∷ ps) f h = (ground arith, AllPassed-Falls l l' ps f h.1)

pub AllPassed-replace :
    (l : Latches) (a : List Point) (p p' : Point) (b : List Point)
    → AllPassed l (a ++ p ∷ b)
    → Passed l p'
    → AllPassed l (a ++ p' ∷ b)
AllPassed-replace l [] p p' b h k = (k, h.1)
AllPassed-replace l (q ∷ a) p p' b h k = (h.0, AllPassed-replace l a p p' b h.1 k)

pub AllPassed-at :
    (l : Latches) (a : List Point) (p : Point) (b : List Point)
    → AllPassed l (a ++ p ∷ b)
    → Passed l p
AllPassed-at l [] p b h = h.0
AllPassed-at l (q ∷ a) p b h = AllPassed-at l a p b h.1

-- What one statement of a thread's own does to the counts, where `i`, `j` and `k` other threads have yet
-- to arrive.
pub record Advanced (l l' : Latches) (p p' : Point) (i j k : ℕ) : Type 0 where
  pub falls : Falls l l'
  pub passed : Passed l' p'
  pub constructed_left : l'.cpu_constructed ≡ one_if (before_constructed p') + i
  pub built_left : l'.queue_constructed ≡ one_if (before_built p') + j
  pub started_left : l'.started ≡ one_if (before_started p') + k
  pub born : 0 < rank p
  pub alive : is_unborn p' ≡ false

pub Advance-Advanced :
    (after : Point) (l l' : Latches) (p p' : Point) (i j k : ℕ)
    → (after ≡ building) ⊎ (after ≡ at_built)
    → Advance after l l' p p'
    → Passed l p
    → l.cpu_constructed ≡ one_if (before_constructed p) + i
    → l.queue_constructed ≡ one_if (before_built p) + j
    → l.started ≡ one_if (before_started p) + k
    → Advanced l l' p p' i j k
Advance-Advanced after l l' p p' i j k w (constructs e f g) h x y z = ground arith
Advance-Advanced after l l' p p' i j k w (arrives_constructed e f g) h x y z = ground arith
Advance-Advanced after l l' p p' i j k w (passes_constructed e f g m) h x y z = ground arith
Advance-Advanced after l l' p p' i j k w (arrives_built e f g) h x y z = ground arith
Advance-Advanced after l l' p p' i j k w (passes_built e f g m) h x y z = ground arith
Advance-Advanced after l l' p p' i j k w (arrives_started e f g) h x y z = ground arith
Advance-Advanced after l l' p p' i j k w (passes_started e f g m) h x y z = ground arith

pub main_rank :
    (l l' : Latches) (p p' : Point) → Advance building l l' p p' → 4 < rank p' → 4 < rank p
main_rank l l' p p' (constructs e f g) h = ground arith
main_rank l l' p p' (arrives_constructed e f g) h = ground arith
main_rank l l' p p' (passes_constructed e f g m) h = ground arith
main_rank l l' p p' (arrives_built e f g) h = ground arith
main_rank l l' p p' (passes_built e f g m) h = ground arith
main_rank l l' p p' (arrives_started e f g) h = ground arith
main_rank l l' p p' (passes_started e f g m) h = ground arith

pub other_kind : (l l' : Latches) (p p' : Point) → Advance at_built l l' p p' → is_main p' ≡ false
other_kind l l' p p' (constructs e f g) = cc
other_kind l l' p p' (arrives_constructed e f g) = cc
other_kind l l' p p' (passes_constructed e f g m) = cc
other_kind l l' p p' (arrives_built e f g) = cc
other_kind l l' p p' (passes_built e f g m) = cc
other_kind l l' p p' (arrives_started e f g) = cc
other_kind l l' p p' (passes_started e f g m) = cc
