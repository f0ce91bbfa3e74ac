-- ===== src/Command/Environment/Buffer.antt =====
-- components/programs/command/src/env.rs: the searches for separators in the current directory.
use idos_nx.Base.{
  ℕ, zero, suc, ◌+◌, ◌≤◌, ◌<◌, ◌≡◌, refl, subst, ap, ◌∙◌, true, false, some, List, [], ◌∷◌, ◌++◌,
  arith, ◌==◌, length, get_or, take,
}
use idos_nx.Command.Environment.{separator_below, through_separator}
use idos_nx.Files.Path.{separator}
use idos_nx.Files.Path.Names.{LacksSeparator}

pub get_or-behind :
    (before rest : List ℕ) (i : ℕ) → get_or (before ++ rest) (length before + i) 0 ≡ get_or rest i 0
get_or-behind [] rest i = let e : 0 + i ≡ i = omega arith in ap (λ n. get_or rest n 0) e
get_or-behind (ch ∷ before) rest i =
    let e : suc (length before) + i ≡ suc (length before + i) = omega arith in
    ap (λ n. get_or (ch ∷ (before ++ rest)) n 0) e ∙ get_or-behind before rest i

pub get_or-LacksSeparator :
    (name rest : List ℕ) (i : ℕ)
    → LacksSeparator name
    → i < length name
    → (get_or (name ++ rest) i 0 == separator) ≡ false
get_or-LacksSeparator [] rest i l lt = absurd (omega arith)
get_or-LacksSeparator (ch ∷ name) rest zero (e, l) lt = e
get_or-LacksSeparator (ch ∷ name) rest (suc i) (e, l) lt =
    get_or-LacksSeparator name rest i l (omega arith)

-- The search stops at a separator with none above it.
pub separator_below-at :
    (cwd : List ℕ) (n k : ℕ)
    → (get_or cwd n 0 == separator) ≡ true
    → ((j : ℕ) → j < k → (get_or cwd (n + suc j) 0 == separator) ≡ false)
    → separator_below cwd (n + k) ≡ n
unfolding separator_below
separator_below-at cwd zero zero at above = refl
separator_below-at cwd (suc n) zero at above =
    let e : suc n + 0 ≡ suc n = omega arith in rw (e, at) refl
separator_below-at cwd n (suc k) at above =
    let e : n + suc k ≡ suc (n + k) = omega arith in
    let here : (get_or cwd (suc (n + k)) 0 == separator) ≡ false =
      subst (λ i. (get_or cwd i 0 == separator) ≡ false) e (above k (omega arith)) in
    rw (e, here) (separator_below-at cwd n k at (λ j lt. above j (omega arith)))

-- With no separator it comes down to the start.
pub separator_below-zero :
    (cwd : List ℕ) (i : ℕ)
    → ((j : ℕ) → j ≤ i → (get_or cwd j 0 == separator) ≡ false)
    → separator_below cwd i ≡ 0
unfolding separator_below
separator_below-zero cwd zero none_at = refl
separator_below-zero cwd (suc i) none_at =
    rw (none_at (suc i) (omega arith))
      (separator_below-zero cwd i (λ j le. none_at j (omega arith)))

pub through_separator-LacksSeparator :
    (name rest : List ℕ)
    → LacksSeparator name
    → through_separator (name ++ (separator ∷ rest)) ≡ some (name ++ (separator ∷ []))
unfolding through_separator
through_separator-LacksSeparator [] rest l = refl
through_separator-LacksSeparator (ch ∷ name) rest (e, l) =
    rw (e, through_separator-LacksSeparator name rest l) refl

pub take-through :
    (before : List ℕ) (ch : ℕ) (rest : List ℕ)
    → take (length before + 1) (before ++ (ch ∷ rest)) ≡ before ++ (ch ∷ [])
take-through [] ch rest = refl
take-through (x ∷ before) ch rest =
    let e : suc (length before) + 1 ≡ suc (length before + 1) = omega arith in
    ap (λ n. take n (x ∷ (before ++ (ch ∷ rest)))) e
    ∙ ap (λ xs. x ∷ xs) (take-through before ch rest)
