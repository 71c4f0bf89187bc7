-- ===== src/Start/Enabled.antt =====
-- That some thread can go on as long as one has not left OS::init (lib/os.cpp).
use miniss.Base.{
  ℕ, ◌+◌, ◌-◌, ◌<◌, ◌≡◌, ◌⊎◌, inl, inr, refl, ap, ◌∙◌, Bool, true, false, List, [], ◌∷◌, ◌++◌,
  arith, count, one_if, ltb, Bool-cases,
}
use miniss.Start.{
  Point, unborn, spawning, constructing, constructed, waits_constructed, building, at_built,
  waits_built, at_started, waits_started, running, is_unborn, Latches, StartState, Advance,
  constructs, arrives_constructed, passes_constructed, arrives_built, passes_built, arrives_started,
  passes_started, Step, main_moves, moves, spawns, spawned, builds, built,
}
use miniss.Start.Order.{rank, before_constructed, before_built, before_started, is_main}
use miniss.Start.Invariant.{Inv}

-- A thread that waits at no latch that is still up, and has something left to do.
abbrev Ready : Latches → Point → Type 0
Ready l p =
    (rank p < 9)
    × (rank p ≡ 3 → l.cpu_constructed ≡ 0)
    × (rank p ≡ 6 → l.queue_constructed ≡ 0)
    × (rank p ≡ 8 → l.started ≡ 0)

-- It has a statement of its own, unless it is one of the main thread's, or is not created.
own_step :
    (after : Point) (l : Latches) (p : Point)
    → Ready l p
    → is_main p ≡ false
    → is_unborn p ≡ false
    → (l' : Latches) × (p' : Point) × Advance after l l' p p'
own_step after l unborn h m u = cc
own_step after l spawning h m u = cc
own_step after l constructing h m u = (l, constructed, constructs refl refl refl)
own_step after l constructed h m u = (
  record l { cpu_constructed = l.cpu_constructed - 1 },
  waits_constructed,
  arrives_constructed refl refl refl,
)
own_step after l waits_constructed h m u = (l, after, passes_constructed refl (h.1 refl) refl refl)
own_step after l building h m u = cc
own_step after l at_built h m u = (
  record l { queue_constructed = l.queue_constructed - 1 },
  waits_built,
  arrives_built refl refl refl,
)
own_step after l waits_built h m u = (l, at_started, passes_built refl (h.2 refl) refl refl)
own_step after l at_started h m u =
    (record l { started = l.started - 1 }, waits_started, arrives_started refl refl refl)
own_step after l waits_started h m u = (l, running, passes_started refl (h.3 refl) refl refl)
own_step after l running h m u = absurd (omega (arith, h.0))

-- A thread that a test picks.
find :
    (f : Point → Bool) (ps : List Point)
    → (count f ps ≡ 0)
      ⊎ ((a : List Point) × (p : Point) × (b : List Point) × (ps ≡ a ++ p ∷ b) × (f p ≡ true))
find f [] = inl refl
find f (p ∷ ps) = elim (Bool-cases (f p)) [
  | inl h ↦ inr ([], p, ps, refl, h)
  | inr h ↦ elim (find f ps) [
    | inl k ↦ inl (omega (arith, ap one_if h))
    | inr (a, q, b, e, k) ↦ inr (p ∷ a, q, b, ap (◌∷◌ p) e, k)
  ]
]

find_one :
    (f : Point → Bool) (ps : List Point)
    → 0 < count f ps
    → (a : List Point) × (p : Point) × (b : List Point) × (ps ≡ a ++ p ∷ b) × (f p ≡ true)
find_one f ps h = elim (find f ps) [ inl k ↦ absurd (omega arith) | inr found ↦ found ]

abbrev pub not_running : Point → Bool
not_running p = ltb (rank p) 9

module _ (n : ℕ) (s : StartState) (v : Inv n s) where
  abbrev pub Moves : Type 0
  Moves = (s' : StartState) × Step n s s'

  spawn_one :
      (a b : List Point) (p : Point)
      → s.main ≡ spawning
      → s.others ≡ a ++ p ∷ b
      → p ≡ unborn
      → Moves
  spawn_one a b p m e u =
      (record s { others = a ++ constructing ∷ b }, spawns a b m (e ∙ ap (λ q. a ++ q ∷ b) u) refl)

  is_unborn-eq : (p : Point) → is_unborn p ≡ true → p ≡ unborn
  is_unborn-eq unborn h = refl
  is_unborn-eq p h = cc

  main_spawning : s.main ≡ spawning → Moves
  main_spawning m = elim (find is_unborn s.others) [
    | inl h ↦ (record s { main = constructing }, spawned m h refl)
    | inr (a, p, b, e, h) ↦ spawn_one a b p m e (is_unborn-eq p h)
  ]

  main_building : s.main ≡ building → Moves
  main_building m = elim (Bool-cases (ltb s.rows n)) [
    | inl h ↦ (record s { rows = s.rows + 1 }, builds m (ground arith) refl)
    | inr h ↦ (record s { main = at_built }, built m (ground (arith, v.rows_bound)) refl)
  ]

  main_own : Ready s.latches s.main → is_main s.main ≡ false → Moves
  main_own h m =
      let (l, p, ad) = own_step building s.latches s.main h m v.main_born in
      (record s { main = p; latches = l }, main_moves p l ad refl)

  is_main-eq : (p : Point) → is_main p ≡ true → (p ≡ spawning) ⊎ (p ≡ building)
  is_main-eq spawning h = inl refl
  is_main-eq building h = inr refl
  is_main-eq p h = cc

  main_steps : Ready s.latches s.main → Moves
  main_steps h = elim (Bool-cases (is_main s.main)) [
    | inl m ↦ elim (is_main-eq s.main m) [ inl e ↦ main_spawning e | inr e ↦ main_building e ]
    | inr m ↦ main_own h m
  ]

  count-split :
      (f : Point → Bool) (a b : List Point) (p : Point) → f p ≡ true → 0 < count f (a ++ p ∷ b)
  count-split f [] b p h = omega (arith, ap one_if h)
  count-split f (q ∷ a) b p h = omega (arith, count-split f a b p h)

  rank_zero : (p : Point) → is_unborn p ≡ false → rank p ≡ 0 → p ≡ spawning
  rank_zero unborn u h = cc
  rank_zero spawning u h = refl
  rank_zero p u h = absurd (omega arith)

  -- A thread that is not created yet is created next, since the main thread is still at it.
  other_unborn : (a b : List Point) (p : Point) → s.others ≡ a ++ p ∷ b → is_unborn p ≡ true → Moves
  other_unborn a b p e u =
      spawn_one a b p
        (rank_zero s.main v.main_born
          (ground (arith, v.others_born, ap (count is_unborn) e, count-split is_unborn a b p u)))
        e (is_unborn-eq p u)

  other_steps : (a b : List Point) (p : Point) → s.others ≡ a ++ p ∷ b → Ready s.latches p → Moves
  other_steps a b p e h = elim (Bool-cases (is_unborn p)) [
    | inl u ↦ other_unborn a b p e u
    | inr u ↦ elim (Bool-cases (is_main p)) [
      | inl m ↦
          absurd (omega (arith, v.others_kind, ap (count is_main) e, count-split is_main a b p m))
      | inr m ↦
          let (l, p', ad) = own_step at_built s.latches p h m u in
          (record s { others = a ++ p' ∷ b; latches = l }, moves a b p p' l e ad refl)
    ]
  ]

  -- Of the threads that a test picks one can go on, if the test picks only threads that can.
  picked_steps :
      (f : Point → Bool)
      → ((p : Point) → f p ≡ true → Ready s.latches p)
      → 0 < one_if (f s.main) + count f s.others
      → Moves
  picked_steps f ready h = elim (Bool-cases (f s.main)) [
    | inl m ↦ main_steps (ready s.main m)
    | inr m ↦
        let (a, p, b, e, k) = find_one f s.others (omega (arith, ap one_if m)) in
        other_steps a b p e (ready p k)
  ]

  pub steps : (0 < count not_running (s.main ∷ s.others)) → Moves
  steps h = elim (Bool-cases (ltb 0 s.latches.cpu_constructed)) [
    | inl x ↦
        picked_steps before_constructed (λ p k. ground arith) (ground (arith, v.constructed_count))
    | inr x ↦ elim (Bool-cases (ltb 0 s.latches.queue_constructed)) [
      | inl y ↦ picked_steps before_built (λ p k. ground arith) (ground (arith, v.built_count))
      | inr y ↦ elim (Bool-cases (ltb 0 s.latches.started)) [
        | inl z ↦
            picked_steps before_started (λ p k. ground arith) (ground (arith, v.started_count))
        | inr z ↦ picked_steps not_running (λ p k. ground arith) h
      ]
    ]
  ]
