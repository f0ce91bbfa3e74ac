-- ===== src/Command/Batch/Expansion.antt =====
-- components/programs/command/src/batch.rs: `substitute_params` against an expansion without a bound.
use idos_nx.Base.{
  ℕ, zero, suc, ◌-◌, ◌≡◌, refl, sym, ap, ◌∙◌, inl, inr, ◌&&◌, List, [], ◌∷◌, ◌++◌, arith, ◌==◌,
  if◌then◌else◌, Bool-cases, length, take,
}
use idos_nx.Command.Batch.{is_digit, replacement, substitute_params}

unfoldable pub expansion : List ℕ → List (List ℕ) → List ℕ → List ℕ
expansion [] args path = []
expansion (ch ∷ []) args path = ch ∷ []
expansion (ch ∷ digit ∷ rest) args path =
    let behind = expansion rest args path in
    let further = expansion (digit ∷ rest) args path in
    if ch == b'%' && is_digit digit then replacement args path digit ++ behind else ch ∷ further

take-nil : (room : ℕ) → take {A = ℕ} room [] ≡ []
take-nil zero = refl
take-nil (suc room) = refl

take-append-fit :
    (room : ℕ) (bytes behind : List ℕ)
    → take room bytes ++ take (room - length (take room bytes)) behind ≡ take room (bytes ++ behind)
take-append-fit zero bytes behind = refl
take-append-fit (suc room) [] behind =
    let e : suc room - 0 ≡ suc room = omega arith in ap (λ n. take n behind) e
take-append-fit (suc room) (ch ∷ bytes) behind =
    let e : suc room - suc (length (take room bytes)) ≡ room - length (take room bytes) =
      omega arith in
    ap (λ n. ch ∷ (take room bytes ++ take n behind)) e
    ∙ ap (λ xs. ch ∷ xs) (take-append-fit room bytes behind)

-- Writing the expanded line into a buffer gives as much of the expansion as the buffer has room for.
pub substitute_params-eq-take :
    (line : List ℕ) (args : List (List ℕ)) (path : List ℕ) (room : ℕ)
    → substitute_params line args path room ≡ take room (expansion line args path)
unfolding substitute_params expansion
substitute_params-eq-take line args path zero = refl
substitute_params-eq-take [] args path (suc room) = refl
substitute_params-eq-take (ch ∷ []) args path (suc room) = ap (λ xs. ch ∷ xs) (sym (take-nil room))
substitute_params-eq-take (ch ∷ digit ∷ rest) args path (suc room) =
    elim (Bool-cases (ch == b'%' && is_digit digit)) [
      | inl e ↦
          rw
            (
              e,
              substitute_params-eq-take rest args path
                  (suc room - length (take (suc room) (replacement args path digit))),
            )
            (take-append-fit (suc room) (replacement args path digit) (expansion rest args path))
      | inr e ↦ rw (e, substitute_params-eq-take (digit ∷ rest) args path room) refl
    ]
