-- ===== src/Timer/Agenda.antt =====
-- The map of a Timer_service as an agenda of tasks by deadline (lib/io/timer.cpp).
use miniss.Base.{
  ℕ, ◌≤◌, ◌<◌, ◌≡◌, refl, ap, List, [], ◌∷◌, ◌++◌, append_assoc, ltb, leb, if◌then◌else◌, arith,
}
use miniss.Timer.{Slot, push_back, due, from_upper_bound}

-- The specification: the tasks with their deadlines, the next one first.
abbrev pub Agenda : Type 0 → Type 0
Agenda T = List (ℕ × T)

module _ {T : Type 0} where
  -- Deadlines rise, and lie above `d`.
  abbrev pub Above : ℕ → List (Slot T) → Type 0
  Above d [] = Unit {0}
  Above d (s ∷ rest) = (d < s.deadline) × Above s.deadline rest

  abbrev pub IsSorted : List (Slot T) → Type 0
  IsSorted [] = Unit {0}
  IsSorted (s ∷ rest) = Above s.deadline rest

  abbrev pub tag : ℕ → List T → Agenda T
  tag d [] = []
  tag d (t ∷ ts) = (d, t) ∷ tag d ts

  abbrev pub agenda : List (Slot T) → Agenda T
  agenda [] = []
  agenda (s ∷ rest) = tag s.deadline s.tasks ++ agenda rest

  -- A new task goes behind all those that are due no later.
  unfoldable pub enter : ℕ → T → Agenda T → Agenda T
  enter d t [] = (d, t) ∷ []
  enter d t ((e, u) ∷ a) = if ltb d e then (d, t) ∷ (e, u) ∷ a else (e, u) ∷ enter d t a

  unfoldable pub due_tasks : ℕ → Agenda T → List T
  due_tasks now [] = []
  due_tasks now ((e, u) ∷ a) = if leb e now then u ∷ due_tasks now a else due_tasks now a

  unfoldable pub not_due : ℕ → Agenda T → Agenda T
  not_due now [] = []
  not_due now ((e, u) ∷ a) = if leb e now then not_due now a else (e, u) ∷ not_due now a

  Above-le : (d e : ℕ) (ss : List (Slot T)) → e ≤ d → Above d ss → Above e ss
  Above-le d e [] h a = tt
  Above-le d e (s ∷ ss) h a = (omega arith, a.1)

  push_back-Above :
      (b d : ℕ) (t : T) (ss : List (Slot T)) → b < d → Above b ss → Above b (push_back d t ss)
  unfolding push_back
  push_back-Above b d t [] h a = (h, tt)
  push_back-Above b d t (s ∷ ss) h a = ground (arith, push_back-Above s.deadline d t ss)

  pub push_back-IsSorted :
      (d : ℕ) (t : T) (ss : List (Slot T)) → IsSorted ss → IsSorted (push_back d t ss)
  unfolding push_back
  push_back-IsSorted d t [] a = tt
  push_back-IsSorted d t (s ∷ ss) a = ground (arith, push_back-Above s.deadline d t ss)

  from_upper_bound-Above :
      (now b : ℕ) (ss : List (Slot T)) → Above b ss → Above b (from_upper_bound now ss)
  unfolding from_upper_bound
  from_upper_bound-Above now b [] a = tt
  from_upper_bound-Above now b (s ∷ ss) a = ground (
    arith,
    from_upper_bound-Above now s.deadline ss,
    Above-le s.deadline b (from_upper_bound now ss),
  )

  enter-tag_later :
      (d e : ℕ) (t : T) (ts : List T) (a : Agenda T)
      → e ≤ d
      → enter d t (tag e ts ++ a) ≡ tag e ts ++ enter d t a
  unfolding enter
  enter-tag_later d e t [] a h = refl
  enter-tag_later d e t (u ∷ ts) a h = ground (arith, enter-tag_later d e t ts a)

  tag-append : (d : ℕ) (ts us : List T) → tag d (ts ++ us) ≡ tag d ts ++ tag d us
  tag-append d [] us = refl
  tag-append d (t ∷ ts) us = ap (◌∷◌ (d, t)) (tag-append d ts us)

  enter-tag_front :
      (d e : ℕ) (t : T) (ts : List T) (a : Agenda T)
      → d < e
      → enter d t a ≡ (d, t) ∷ a
      → enter d t (tag e ts ++ a) ≡ (d, t) ∷ (tag e ts ++ a)
  unfolding enter
  enter-tag_front d e t [] a h k = k
  enter-tag_front d e t (u ∷ ts) a h k = ground arith

  enter-agenda_front :
      (b d : ℕ) (t : T) (ss : List (Slot T))
      → d ≤ b
      → Above b ss
      → enter d t (agenda ss) ≡ (d, t) ∷ agenda ss
  unfolding enter
  enter-agenda_front b d t [] h a = refl
  enter-agenda_front b d t (s ∷ ss) h a =
      enter-tag_front d s.deadline t s.tasks (agenda ss) (omega arith)
        (enter-agenda_front s.deadline d t ss (omega arith) a.1)

  Above-IsSorted : (b : ℕ) (ss : List (Slot T)) → Above b ss → IsSorted ss
  Above-IsSorted b [] a = tt
  Above-IsSorted b (s ∷ ss) a = a.1

  pub agenda-push_back :
      (d : ℕ) (t : T) (ss : List (Slot T))
      → IsSorted ss
      → agenda (push_back d t ss) ≡ enter d t (agenda ss)
  unfolding push_back enter
  agenda-push_back d t [] a = refl
  agenda-push_back d t (s ∷ ss) a = ground (
    arith,
    enter-agenda_front d d t (s ∷ ss),
    enter-agenda_front s.deadline d t ss,
    enter-tag_later d s.deadline t s.tasks (agenda ss),
    Above-IsSorted s.deadline ss,
    agenda-push_back d t ss,
    tag-append s.deadline s.tasks (t ∷ []),
    append_assoc (tag s.deadline s.tasks) ((d, t) ∷ []) (agenda ss),
  )

  due_tasks-tag :
      (now e : ℕ) (ts : List T) (a : Agenda T)
      → due_tasks now (tag e ts ++ a)
        ≡ (if ltb now e then due_tasks now a else ts ++ due_tasks now a)
  unfolding due_tasks
  due_tasks-tag now e [] a = ground arith
  due_tasks-tag now e (t ∷ ts) a = ground (arith, due_tasks-tag now e ts a)

  not_due-tag :
      (now e : ℕ) (ts : List T) (a : Agenda T)
      → not_due now (tag e ts ++ a)
        ≡ (if ltb now e then tag e ts ++ not_due now a else not_due now a)
  unfolding not_due
  not_due-tag now e [] a = ground arith
  not_due-tag now e (t ∷ ts) a = ground (arith, not_due-tag now e ts a)

  none_due :
      (now b : ℕ) (ss : List (Slot T))
      → now ≤ b
      → Above b ss
      → (due_tasks now (agenda ss) ≡ []) × (not_due now (agenda ss) ≡ agenda ss)
  unfolding due_tasks not_due
  none_due now b [] h a = (refl, refl)
  none_due now b (s ∷ ss) h a = ground (
    arith,
    due_tasks-tag now s.deadline s.tasks (agenda ss),
    not_due-tag now s.deadline s.tasks (agenda ss),
    none_due now s.deadline ss,
  )

  due-agenda :
      (now b : ℕ) (ss : List (Slot T))
      → Above b ss
      → (due now ss ≡ due_tasks now (agenda ss))
        × (agenda (from_upper_bound now ss) ≡ not_due now (agenda ss))
  unfolding due from_upper_bound due_tasks not_due
  due-agenda now b [] a = (refl, refl)
  due-agenda now b (s ∷ ss) a = ground (
    arith,
    due_tasks-tag now s.deadline s.tasks (agenda ss),
    not_due-tag now s.deadline s.tasks (agenda ss),
    none_due now s.deadline ss,
    due-agenda now s.deadline ss,
  )

  pub due-agenda-IsSorted :
      (now : ℕ) (ss : List (Slot T))
      → IsSorted ss
      → (due now ss ≡ due_tasks now (agenda ss))
        × (agenda (from_upper_bound now ss) ≡ not_due now (agenda ss))
        × IsSorted (from_upper_bound now ss)
  unfolding due from_upper_bound due_tasks not_due
  due-agenda-IsSorted now [] a = (refl, refl, tt)
  due-agenda-IsSorted now (s ∷ ss) a = ground (
    arith,
    due_tasks-tag now s.deadline s.tasks (agenda ss),
    not_due-tag now s.deadline s.tasks (agenda ss),
    none_due now s.deadline ss,
    due-agenda now s.deadline ss,
    from_upper_bound-Above now s.deadline ss,
    Above-IsSorted s.deadline (from_upper_bound now ss),
  )
