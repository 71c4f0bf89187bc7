-- ===== src/Os/Matrix.antt =====
-- A round over one row and one column of a matrix, as in OS::poll_queues (lib/os.cpp).
use miniss.Base.{
  ◌∙◌, not, ℕ, suc, ◌≡◌, ◌≢◌, Bool, ◌&&◌, ltb, ◌==◌, if◌then◌else◌, arith, inl, inr, Bool-cases,
}

-- Where `cpu` is the sender of a queue whose receiver is another CPU below `n`.
abbrev pub sends : ℕ → ℕ → ℕ → ℕ → Bool
sends n cpu a b = (a == cpu) && (ltb b n && not (b == cpu))

module _ {C : Type 0} (sender receiver : C → C) where
  abbrev pub round_with : ℕ → ℕ → (ℕ → ℕ → C) → ℕ → ℕ → C
  round_with n cpu qs a b =
      if sends n cpu a b
      then sender (qs a b)
      else if sends n cpu b a
      then receiver (qs a b)
      else qs a b

  abbrev pub PairedWith : ℕ → ℕ → (ℕ → ℕ → C) → (ℕ → ℕ → C) → Type 0
  PairedWith cpu i qs qs' =
      (a b : ℕ)
      → qs' a b ≡ (
          if (cpu == a) && (i == b)
          then sender (qs cpu i)
          else if (i == a) && (cpu == b)
          then receiver (qs i cpu)
          else qs a b)

  pub round_with-zero : (cpu a b : ℕ) (qs : ℕ → ℕ → C) → qs a b ≡ round_with 0 cpu qs a b
  round_with-zero cpu a b qs = ground arith

  pub round_with-skip :
      (n cpu a b : ℕ) (qs : ℕ → ℕ → C)
      → n ≡ cpu
      → round_with n cpu qs a b ≡ round_with (suc n) cpu qs a b
  round_with-skip n cpu a b qs e = ground arith

  pub round_with-fresh :
      (n cpu : ℕ) (qs : ℕ → ℕ → C)
      → n ≢ cpu
      → (round_with n cpu qs cpu n ≡ qs cpu n) × (round_with n cpu qs n cpu ≡ qs n cpu)
  round_with-fresh n cpu qs ne = ground arith

  pub round_with-suc :
      (n cpu a b : ℕ) (qs s t : ℕ → ℕ → C)
      → n ≢ cpu
      → ((a b : ℕ) → s a b ≡ round_with n cpu qs a b)
      → PairedWith cpu n s t
      → t a b ≡ round_with (suc n) cpu qs a b
  round_with-suc n cpu a b qs s t ne f g =
      let fresh = round_with-fresh n cpu qs ne in
      let out : s cpu n ≡ qs cpu n = f cpu n ∙ fresh.0 in
      let back : s n cpu ≡ qs n cpu = f n cpu ∙ fresh.1 in
      let after = g a b in
      let before = f a b in
      elim (Bool-cases ((cpu == a) && (n == b))) [
        | inl h ↦ let e : cpu ≡ a = ground arith in let k : n ≡ b = ground arith in ground arith
        | inr h ↦ ground arith
      ]
