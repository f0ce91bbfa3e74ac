-- ===== src/Command/Environment/Prompt/Codes.antt =====
-- components/programs/command/src/env.rs: the codes of a prompt as the comment above `expand_prompt` lists
-- them, and what a buffer gets of them.
use idos_nx.Base.{
  ℕ, zero, suc, ◌-◌, ◌≡◌, refl, sym, ap, ◌∙◌, inl, inr, Bool, true, false, ◌||◌, List, [], ◌∷◌,
  ◌++◌, arith, ltb, leb, ◌==◌, if◌then◌else◌, leb→le, ltb→le, Bool-cases, length, take, take-of_ge,
}
use idos_nx.Command.Batch.{lower}
use idos_nx.Command.Environment.Prompt.{write_code}

-- Bytes that may be cut off where the buffer ends, or that are written as a whole or not at all.
pub data Piece : Type 0 where
  cut whole : List ℕ → Piece

-- The two spellings of each code.
abbrev pub documented : List ℕ → List (ℕ × ℕ × Piece)
documented cwd =
    (b'P', b'p', cut cwd)
    ∷ (b'G', b'g', cut (b'>' ∷ []))
    ∷ (b'L', b'l', cut (b'<' ∷ []))
    ∷ (b'N', b'n', cut (take 1 cwd))
    ∷ (b'$', b'$', cut (b'$' ∷ []))
    ∷ (b'E', b'e', cut (27 ∷ []))
    ∷ (b'_', b'_', whole (13 ∷ 10 ∷ []))
    ∷ (b'H', b'h', cut (8 ∷ []))
    ∷ (b'B', b'b', cut (b'|' ∷ []))
    ∷ (b'Q', b'q', cut (b'=' ∷ []))
    ∷ (b'S', b's', cut (b' ' ∷ []))
    ∷ []

-- What stands beside a code, and nothing for what is no code.
abbrev pub meaning : List (ℕ × ℕ × Piece) → ℕ → Piece
meaning [] code = cut []
meaning ((upper, small, piece) ∷ rows) code =
    let further = meaning rows code in if code == upper || code == small then piece else further

-- A dollar sign and its code are a piece, and so is any other byte.
abbrev pub pieces : List ℕ → List ℕ → List Piece
pieces cwd [] = []
pieces cwd (ch ∷ []) = cut (ch ∷ []) ∷ []
pieces cwd (ch ∷ code ∷ fmt) =
    let behind = pieces cwd fmt in
    let further = pieces cwd (code ∷ fmt) in
    if ch == b'$' then meaning (documented cwd) code ∷ behind else cut (ch ∷ []) ∷ further

abbrev pub fill_piece : ℕ → Piece → List ℕ
fill_piece room (cut bytes) = take room bytes
fill_piece room (whole bytes) = if leb (length bytes) room then bytes else []

-- The pieces one after the other in what is left of the buffer.
abbrev pub fill : ℕ → List Piece → List ℕ
fill room [] = []
fill room (piece ∷ rest) =
    fill_piece room piece ++ fill (room - length (fill_piece room piece)) rest

end_of_line-fits :
    (room : ℕ)
    → (if ltb room 2 then [] else take room (13 ∷ 10 ∷ [])) ≡ fill_piece room (whole (13 ∷ 10 ∷ []))
end_of_line-fits room = elim (Bool-cases (ltb room 2)) [
  | inl e ↦ let small : leb 2 room ≡ false = ground (arith, e) in rw (e, small) refl
  | inr e ↦
      let big : leb 2 room ≡ true = ground (arith, e) in
      rw (e, big) (take-of_ge room (13 ∷ 10 ∷ []) (omega (arith, ltb→le, leb→le 2 room big)))
]

pub take-nil : (room : ℕ) → take {A = ℕ} room [] ≡ []
take-nil zero = refl
take-nil (suc room) = refl

-- Two functions agree at every number of a list.
abbrev AgreeAt : (ℕ → List ℕ) → (ℕ → List ℕ) → List ℕ → Type 0
AgreeAt f g [] = Unit {0}
AgreeAt f g (v ∷ vs) = (f v ≡ g v) × AgreeAt f g vs

abbrev among : ℕ → List ℕ → Bool
among n [] = false
among n (v ∷ vs) = n == v || among n vs

agree :
    (f g : ℕ → List ℕ) (n : ℕ) (vs : List ℕ)
    → AgreeAt f g vs
    → (among n vs ≡ false → f n ≡ g n)
    → f n ≡ g n
agree f g n [] a other = other refl
agree f g n (v ∷ vs) (here, a) other = elim (Bool-cases (n == v)) [
  | inl e ↦ let at : n ≡ v = ground (arith, e) in ap f at ∙ here ∙ sym (ap g at)
  | inr e ↦ agree f g n vs a (λ no_more. other (rw (e, no_more) refl))
]

abbrev spellings : List (ℕ × ℕ × Piece) → List ℕ
spellings [] = []
spellings ((upper, small, piece) ∷ rows) = upper ∷ small ∷ spellings rows

meaning-other :
    (rows : List (ℕ × ℕ × Piece)) (code : ℕ)
    → among code (spellings rows) ≡ false
    → meaning rows code ≡ cut []
meaning-other [] code no_row = refl
meaning-other ((upper, small, piece) ∷ rows) code no_row =
    let up : (code == upper) ≡ false = ground (arith, no_row) in
    let low : (code == small) ≡ false = ground (arith, no_row) in
    let rest : among code (spellings rows) ≡ false = ground (arith, no_row) in
    rw (up, low) (meaning-other rows code rest)

abbrev keys : List ℕ
keys = b'p' ∷ b'g' ∷ b'l' ∷ b'n' ∷ b'$' ∷ b'e' ∷ b'_' ∷ b'h' ∷ b'b' ∷ b'q' ∷ b's' ∷ []

write_code-other :
    (cwd : List ℕ) (key room : ℕ) → among key keys ≡ false → write_code cwd key room ≡ []
write_code-other cwd key zero other = ground (arith, other)
write_code-other cwd key (suc room) other = ground (arith, other)

lower-among :
    (cwd : List ℕ) (code : ℕ)
    → among code (spellings (documented cwd)) ≡ false
    → among (lower code) keys ≡ false
lower-among cwd code other = ground (arith, other)

pub write_code-documented :
    (cwd : List ℕ) (code room : ℕ)
    → write_code cwd (lower code) room ≡ fill_piece room (meaning (documented cwd) code)
write_code-documented cwd code room =
    agree (λ n. write_code cwd (lower n) room) (λ n. fill_piece room (meaning (documented cwd) n))
      code (spellings (documented cwd))
      (
        refl,
        (
          refl,
          (
            refl,
            (
              refl,
              (
                refl,
                (
                  refl,
                  (
                    refl,
                    (
                      refl,
                      (
                        refl,
                        (
                          refl,
                          (
                            refl,
                            (
                              refl,
                              (
                                end_of_line-fits room,
                                (
                                  end_of_line-fits room,
                                  (
                                    refl,
                                    (refl, (refl, (refl, (refl, (refl, (refl, (refl, tt))))))),
                                  ),
                                ),
                              ),
                            ),
                          ),
                        ),
                      ),
                    ),
                  ),
                ),
              ),
            ),
          ),
        ),
      )
      (λ other.
        write_code-other cwd (lower code) room (lower-among cwd code other)
        ∙ sym (take-nil room)
        ∙ ap (fill_piece room) (sym (meaning-other (documented cwd) code other)))
