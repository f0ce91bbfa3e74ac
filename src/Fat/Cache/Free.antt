-- ===== src/Fat/Cache/Free.antt =====
-- components/drivers/fatdriver/src/disk.rs: a hash table with fewer slots than cells has a free cell.
use idos_nx.Base.{
  ℕ, zero, suc, ◌≤◌, ◌<◌, ◌≡◌, sym, ap, ◌∙◌, ◌≢◌, ◌⊎◌, inl, inr, Bool, true, false, arith, ltb,
  ◌==◌, if◌then◌else◌, ltb→lt, ==_iff, Bool-cases,
}

-- Past one index.
abbrev skip : ℕ → ℕ → ℕ
skip j i = if ltb i j then i else suc i

last_below :
    (n : ℕ) (test : ℕ → Bool)
    → ((i : ℕ) → i < n → test i ≡ false)
    → test n ≡ false
    → (i : ℕ) → i < suc n
    → test i ≡ false
last_below n test never e i lt = elim (Bool-cases (i == n)) [
  | inl at ↦ ap test ((==_iff i n).0 at) ∙ e
  | inr other ↦ never i (ground (arith, other, lt))
]

skip-lt : (j i n : ℕ) → i < n → skip j i < suc n
skip-lt j i n lt = ground (arith, lt)

skip-ne : (j i : ℕ) → skip j i ≢ j
skip-ne j i = elim (Bool-cases (ltb i j)) [
  | inl e ↦ rw e (λ eq. absurd (omega (arith, ltb→lt i j e)))
  | inr e ↦ rw e (λ eq. ground (arith, e, eq))
]

skip-injective : (j i k : ℕ) → skip j i ≡ skip j k → i ≡ k
skip-injective j i k eq = ground (arith, eq)

-- A test holds at an index below a bound, or at none.
pub some_below :
    (n : ℕ) (test : ℕ → Bool)
    → ((i : ℕ) × (i < n) × (test i ≡ true)) ⊎ ((i : ℕ) → i < n → test i ≡ false)
some_below zero test = inr (λ i lt. absurd (omega arith))
some_below (suc n) test = elim (some_below n test) [
  | inl (i, lt, e) ↦ inl (i, omega arith, e)
  | inr never ↦ elim (Bool-cases (test n)) [
    | inl e ↦ inl (n, omega arith, e)
    | inr e ↦ inr (λ i lt. last_below n test never e i lt)
  ]
]

pub pigeonhole :
    (m n : ℕ) (f : ℕ → ℕ)
    → ((i : ℕ) → i < n → f i < m)
    → ((i j : ℕ) → i < n → j < n → f i ≡ f j → i ≡ j)
    → n ≤ m
pigeonhole zero zero f small inj = omega arith
pigeonhole zero (suc n) f small inj = let bad = small 0 (omega arith) in absurd (omega arith)
pigeonhole (suc m) zero f small inj = omega arith
pigeonhole (suc m) (suc n) f small inj = elim (some_below (suc n) (λ i. f i == m)) [
  | inl (j, lt, e) ↦
      let le : n ≤ m =
        pigeonhole m n (λ i. f (skip j i))
          (λ i i_lt.
            let a = small (skip j i) (skip-lt j i n i_lt) in
            let ne : f (skip j i) ≢ m = λ eq.
              skip-ne j i
                (inj (skip j i) j (skip-lt j i n i_lt) lt (eq ∙ sym ((==_iff (f j) m).0 e))) in
            ground (arith, a, ne))
          (λ i k i_lt k_lt eq.
            skip-injective j i k
              (inj (skip j i) (skip j k) (skip-lt j i n i_lt) (skip-lt j k n k_lt) eq)) in
      omega arith
  | inr never ↦
      let le : suc n ≤ m =
        pigeonhole m (suc n) f
          (λ i i_lt. let a = small i i_lt in let b = never i i_lt in ground (arith, a, b)) inj in
      omega arith
]
