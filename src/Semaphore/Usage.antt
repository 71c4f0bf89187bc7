-- ===== src/Semaphore/Usage.antt =====
-- A semaphore in the hands of its clients (lib/util/semaphore.cpp): who was granted, and how much.
use miniss.Base.{
  ℕ, ◌+◌, ◌-◌, ◌^◌, ◌≤◌, ◌<◌, ◌≡◌, refl, Option, none, some, List, [], ◌∷◌, ◌++◌, append-nil,
  append_assoc, arith,
}
use miniss.Semaphore.{Entry, Semaphore, Future, ready, pending, init, wait, release}

module _ {P : Type 0} where
  abbrev pub prs : List (Entry P) → List P
  prs [] = []
  prs (e ∷ es) = e.pr ∷ prs es

  pub prs-append : (es fs : List (Entry P)) → prs (es ++ fs) ≡ prs es ++ prs fs
  prs-append [] fs = refl
  prs-append (e ∷ es) fs = λ i. e.pr ∷ prs-append es fs i

  -- What the waiter at the front asked for.
  abbrev pub front_tokens : List (Entry P) → ℕ
  front_tokens [] = 0
  front_tokens (e ∷ es) = e.tokens

-- `held` counts the tokens that clients hold; `issued` and `granted` are the promises of the calls
-- of `wait`, in the order of the calls and in the order in which they came true.
pub record Usage (P : Type 0) : Type 0 where
  pub sem : Semaphore P
  pub held : ℕ
  pub issued : List P
  pub granted : List P

module _ {P : Type 0} where
  abbrev pub start : ℕ → Usage P
  start total = record { sem = init total; held = 0; issued = []; granted = [] }

  abbrev waited : P → ℕ → Usage P → Semaphore P × Future P → Usage P
  waited pr n u (s, ready) = record {
    sem = s;
    held = u.held + n;
    issued = u.issued ++ pr ∷ [];
    granted = u.granted ++ pr ∷ [];
  }
  waited pr n u (s, pending _) = record {
    sem = s;
    held = u.held;
    issued = u.issued ++ pr ∷ [];
    granted = u.granted;
  }

  abbrev released : ℕ → Usage P → Semaphore P × Option P → Usage P
  released n u (s, none) = record u { sem = s; held = u.held - n }
  released n u (s, some pr) = record u {
    sem = s;
    held = u.held - n + front_tokens u.sem.waiting_list;
    granted = u.granted ++ pr ∷ [];
  }

  abbrev pub use_wait : P → ℕ → Usage P → Usage P
  use_wait pr n u = waited pr n u (wait pr n u.sem)

  abbrev pub use_release : ℕ → Usage P → Usage P
  use_release n u = released n u (release n u.sem)

  pub record Inv (total : ℕ) (u : Usage P) : Type 0 where
    pub conserved : u.sem.tokens + u.held ≡ total
    pub in_order : u.granted ++ prs u.sem.waiting_list ≡ u.issued

  snoc :
      (g : List P) (e : Entry P) (es : List (Entry P))
      → (g ++ e.pr ∷ []) ++ prs es ≡ g ++ prs (e ∷ es)
  snoc g e es = append_assoc g (e.pr ∷ []) (prs es)

  wait-Inv :
      {total : ℕ} (pr : P) (n : ℕ) (u : Usage P) (es : List (Entry P))
      → es ≡ u.sem.waiting_list
      → Inv total u
      → Inv total (use_wait pr n u)
  unfolding wait
  wait-Inv pr n u [] e v = ground (arith, append-nil u.granted, append-nil (u.granted ++ pr ∷ []))
  wait-Inv pr n u (w ∷ es) e v = ground (
    arith,
    prs-append (w ∷ es) (record { tokens = n; pr = pr } ∷ []),
    append_assoc u.granted (prs (w ∷ es)) (pr ∷ []),
  )

  release-Inv :
      {total : ℕ} (n : ℕ) (u : Usage P) (es : List (Entry P))
      → es ≡ u.sem.waiting_list
      → total < 2 ^ 64
      → n ≤ u.held
      → Inv total u
      → Inv total (use_release n u)
  unfolding release
  release-Inv n u [] e b h v = ground arith
  release-Inv n u (w ∷ es) e b h v = ground (arith, snoc u.granted w es)

  -- A client waits with a fresh promise, or gives back tokens that it holds.
  pub data Step : Usage P → Usage P → Type 0 where
    waits : (pr : P) (n : ℕ) (u : Usage P) → Step u (use_wait pr n u)
    releases : (n : ℕ) (u : Usage P) → n ≤ u.held → Step u (use_release n u)

  pub data Reach (u : Usage P) : Usage P → Type 0 where
    here : Reach u u
    next : {v w : Usage P} → Reach u v → Step v w → Reach u w

  Step-Inv : {total : ℕ} {u v : Usage P} → total < 2 ^ 64 → Step u v → Inv total u → Inv total v
  Step-Inv b (waits pr n u) v = wait-Inv pr n u u.sem.waiting_list refl v
  Step-Inv b (releases n u h) v = release-Inv n u u.sem.waiting_list refl b h v

  start-Inv : (total : ℕ) → Inv total (start total)
  unfolding init
  start-Inv total = ground arith

  Reach-Inv : {total : ℕ} {v : Usage P} → total < 2 ^ 64 → Reach (start total) v → Inv total v
  Reach-Inv {total} b here = start-Inv total
  Reach-Inv b (next r st) = Step-Inv b st (Reach-Inv b r)

  -- In every state that calls of `wait` and `release` lead to from a new semaphore of `total` tokens,
  -- where clients give back at most what they hold and `total` fits in 64 bits, the free tokens and
  -- the held ones make up `total`; and the calls that came true, followed by those in the waiting
  -- list, are all the calls of `wait` in the order in which they were made.
  pub Reach-conserved_in_order :
      {total : ℕ} {u : Usage P}
      → total < 2 ^ 64
      → Reach (start total) u
      → (u.sem.tokens + u.held ≡ total) × (u.granted ++ prs u.sem.waiting_list ≡ u.issued)
  Reach-conserved_in_order b r = ground (arith, Reach-Inv b r)
