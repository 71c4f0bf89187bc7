-- ===== src/Spsc.antt =====
-- boost::lockfree::spsc_queue<T, capacity<cap>> of Boost, which is not part of the repository: the
-- calls that the code makes, with what Boost documents of them, and a list that has these laws.
use miniss.Base.{
  zero, suc, suc, ◌∙◌, sym, length-drop, length-take, length-append, ap, take-append-drop, ◌+◌, ℕ,
  ◌-◌, ◌≤◌, ◌<◌, ◌≡◌, refl, Bool, true, false, List, [], ◌∷◌, ◌++◌, length, take, drop, arith, ltb,
  if◌then◌else◌,
}

-- `contents` is what the queue holds, oldest first. `push` tells whether there was room, `pop n`
-- takes up to `n` elements, `write_available` is the room left.
pub record Spsc (A : Type 0) (cap : ℕ) : Type 1 where
  pub Queue : Type 0
  pub contents : Queue → List A
  pub empty : Queue
  pub push : A → Queue → Queue × Bool
  pub pop : ℕ → Queue → Queue × List A
  pub write_available : Queue → ℕ
  pub contents-empty : contents empty ≡ []
  pub push-room :
      (a : A) (q : Queue)
      → length (contents q) < cap
      → ((push a q).1 ≡ true) × (contents (push a q).0 ≡ contents q ++ a ∷ [])
  pub push-full :
      (a : A) (q : Queue)
      → cap ≤ length (contents q)
      → ((push a q).1 ≡ false) × (contents (push a q).0 ≡ contents q)
  pub pop_lem :
      (n : ℕ) (q : Queue)
      → ((pop n q).1 ≡ take n (contents q)) × (contents (pop n q).0 ≡ drop n (contents q))
  pub write_available_lem : (q : Queue) → write_available q ≡ cap - length (contents q)

-- The laws in the form that the proofs about clients use.
module _ {A : Type 0} {cap : ℕ} (S : Spsc A cap) where
  pub length-push :
      (a : A) (q : S.Queue)
      → length (S.contents q) < cap
      → length (S.contents (S.push a q).0) ≡ length (S.contents q) + 1
  length-push a q h =
      omega (arith, ap length ((S.push-room a q h).1), length-append (S.contents q) (a ∷ []))

  pub length-pop :
      (n : ℕ) (q : S.Queue)
      → length (S.pop n q).1 + length (S.contents (S.pop n q).0) ≡ length (S.contents q)
  length-pop n q = omega (
    arith,
    ap length ((S.pop_lem n q).0),
    ap length ((S.pop_lem n q).1),
    length-take n (S.contents q),
    length-drop n (S.contents q),
  )

  pub length-pop_le : (n : ℕ) (q : S.Queue) → length (S.pop n q).1 ≤ n
  length-pop_le n q = omega (arith, ap length ((S.pop_lem n q).0), length-take n (S.contents q))

  take-nil_suc : (n : ℕ) (xs : List A) → 0 < n → take n xs ≡ [] → xs ≡ []
  take-nil_suc n [] h e = refl
  take-nil_suc zero (x ∷ xs) h e = absurd (omega arith)
  take-nil_suc (suc n) (x ∷ xs) h e = cc

  -- A pop that finds nothing sees an empty queue, and an empty queue stays so.
  pub pop-nil : (n : ℕ) (q : S.Queue) → 0 < n → (S.pop n q).1 ≡ [] → S.contents q ≡ []
  pop-nil n q h e = take-nil_suc n (S.contents q) h (sym ((S.pop_lem n q).0) ∙ e)

  pub pop_one-nil : (q : S.Queue) → (S.pop 1 q).1 ≡ [] → S.contents q ≡ []
  pop_one-nil q e = pop-nil 1 q (omega arith) e

  pub append-pop : (n : ℕ) (q : S.Queue) → (S.pop n q).1 ++ S.contents (S.pop n q).0 ≡ S.contents q
  append-pop n q = rw ((S.pop_lem n q).0, (S.pop_lem n q).1) (take-append-drop n (S.contents q))

-- A list of at most `cap` elements, to run the model with.
module _ (A : Type 0) (cap : ℕ) where
  abbrev pub list_push : A → List A → List A × Bool
  list_push a q = if ltb (length q) cap then (q ++ a ∷ [], true) else (q, false)

  pub list_push-room :
      (a : A) (q : List A)
      → length q < cap
      → ((list_push a q).1 ≡ true) × ((list_push a q).0 ≡ q ++ a ∷ [])
  list_push-room a q h = ground arith

  pub list_push-full :
      (a : A) (q : List A) → cap ≤ length q → ((list_push a q).1 ≡ false) × ((list_push a q).0 ≡ q)
  list_push-full a q h = ground arith

  abbrev pub list_spsc : Spsc A cap
  list_spsc = record {
    Queue = List A;
    contents = λ q. q;
    empty = [];
    push = list_push;
    pop = λ n q. (drop n q, take n q);
    write_available = λ q. cap - length q;
    contents-empty = refl;
    push-room = list_push-room;
    push-full = list_push-full;
    pop_lem = λ n q. (refl, refl);
    write_available_lem = λ q. refl;
  }
