-- ===== src/Semaphore/Progress.antt =====
-- Which calls of `wait` and `release` let a waiter go (lib/util/semaphore.cpp).
use miniss.Base.{
  ℕ, zero, suc, ◌+◌, ◌-◌, ◌^◌, ◌≤◌, ◌<◌, ◌≡◌, ◌↔◌, Option, none, some, List, [], ◌∷◌, length, take,
  drop, arith,
}
use miniss.Semaphore.{Entry, Semaphore, ready, pending, init, wait, release}
use miniss.Semaphore.Usage.{prs}

module _ {P : Type 0} where
  -- `wait` is granted at once exactly when it leaves a token over and nobody waits.
  pub wait-ready_iff :
      (pr : P) (n : ℕ) (s : Semaphore P)
      → ((wait pr n s).1 ≡ ready) ↔ ((n < s.tokens) × (s.waiting_list ≡ []))
  unfolding wait
  wait-ready_iff pr n s = ground arith

  -- A semaphore with room for `n` tokens, fewer than 2^64, and no waiter, asked for all `n`, queues
  -- the call; the next `release`, though it gives nothing back, lets that call go.
  wait_for_all-pending :
      (pr : P) (n : ℕ)
      → n < 2 ^ 64
      → ((wait pr n (init n)).1 ≡ pending pr)
        × ((release 0 (wait pr n (init n)).0).1 ≡ some pr)
        × ((release 0 (wait pr n (init n)).0).0 ≡ init 0)
  unfolding wait release init
  wait_for_all-pending pr n h = ground arith

  -- One `release`, where the tokens fit in 64 bits, lets only the front waiter go when the tokens
  -- would do for the first two: the second one stays in the list though the tokens that are left
  -- would do for it.
  pub release-wakes_one :
      (n : ℕ) (s : Semaphore P) (d e : Entry P) (es : List (Entry P))
      → s.waiting_list ≡ d ∷ e ∷ es
      → s.tokens + n < 2 ^ 64
      → d.tokens + e.tokens ≤ s.tokens + n
      → let (s', o) = release n s in
        (o ≡ some d.pr) × (s'.waiting_list ≡ e ∷ es) × (e.tokens ≤ s'.tokens)
  unfolding release
  release-wakes_one n s d e es w b h = ground arith

  -- The tokens that the first `k` waiters ask for.
  abbrev pub demand : ℕ → List (Entry P) → ℕ
  demand zero es = 0
  demand (suc k) [] = 0
  demand (suc k) (e ∷ es) = e.tokens + demand k es

  abbrev cons_some : Option P → List P → List P
  cons_some none ps = ps
  cons_some (some p) ps = p ∷ ps

  -- `k` calls of `release(0)`, as a poller makes them when nothing came back.
  pub idle_releases : ℕ → Semaphore P → Semaphore P × List P
  idle_releases zero s = (s, [])
  idle_releases (suc k) s =
      let (s', o) = release 0 s in let (s'', ps) = idle_releases k s' in (s'', cons_some o ps)

  idle_step :
      (t : ℕ) (e : Entry P) (es : List (Entry P))
      → t < 2 ^ 64
      → e.tokens ≤ t
      → release 0 (record { tokens = t; waiting_list = e ∷ es })
        ≡ (record { tokens = t - e.tokens; waiting_list = es }, some e.pr)
  unfolding release
  idle_step t e es b h = ground arith

  -- Where there are at least `k` waiters and the free tokens, fewer than 2^64, do for the first `k`
  -- of them, `k` calls of `release(0)` let exactly those go, in order, and take their tokens.
  pub idle_releases_lem :
      (k t : ℕ) (es : List (Entry P))
      → t < 2 ^ 64
      → k ≤ length es
      → demand k es ≤ t
      → idle_releases k (record { tokens = t; waiting_list = es })
        ≡ (record { tokens = t - demand k es; waiting_list = drop k es }, prs (take k es))
  unfolding idle_releases
  idle_releases_lem zero t es b l h = ground arith
  idle_releases_lem (suc k) t [] b l h = absurd (omega arith)
  idle_releases_lem (suc k) t (e ∷ es) b l h =
      ground (arith, idle_step t e es, idle_releases_lem k (t - e.tokens) es)
