-- ===== src/Command/Environment/Prompt/Filled.antt =====
-- components/programs/command/src/env.rs: the prompt as its pieces in the buffer.
use idos_nx.Base.{
  ℕ, zero, suc, ◌-◌, ◌≤◌, ◌≡◌, refl, sym, subst, ap, ◌∙◌, inl, inr, true, false, List, [], ◌∷◌,
  ◌++◌, arith, leb, ◌==◌, leb→le, Bool-cases, length, length-append, length-take,
}
use idos_nx.Command.Batch.{lower}
use idos_nx.Command.Environment.{Environment}
use idos_nx.Command.Environment.Prompt.{write_code, expand_from, expand_prompt}
use idos_nx.Command.Environment.Prompt.Codes.{
  Piece, cut, whole, documented, meaning, pieces, fill_piece, fill, write_code-documented, take-nil,
}

fill-zero : (all : List Piece) → fill 0 all ≡ []
fill-zero [] = refl
fill-zero (cut bytes ∷ rest) = fill-zero rest
fill-zero (whole [] ∷ rest) = fill-zero rest
fill-zero (whole (ch ∷ bytes) ∷ rest) =
    let long : leb (length (ch ∷ bytes)) 0 ≡ false = ground arith in rw long (fill-zero rest)

-- One byte is written.
fill-byte :
    (ch room : ℕ) (rest : List Piece) → ch ∷ fill room rest ≡ fill (suc room) (cut (ch ∷ []) ∷ rest)
fill-byte ch room rest =
    let e : suc room - 1 ≡ room = omega arith in
    ap (λ n. ch ∷ fill n rest) (sym e)
    ∙ ap (λ xs. (ch ∷ xs) ++ fill (suc room - length (ch ∷ xs)) rest) (sym (take-nil room))

expand_from-code :
    (cwd fmt : List ℕ) (ch code room : ℕ)
    → (ch == b'$') ≡ true
    → expand_from cwd (ch ∷ code ∷ fmt) (suc room)
      ≡ write_code cwd (lower code) (suc room)
        ++ expand_from cwd fmt (suc room - length (write_code cwd (lower code) (suc room)))
unfolding expand_from
expand_from-code cwd fmt ch code room e = rw e refl

expand_from-byte :
    (cwd fmt : List ℕ) (ch code room : ℕ)
    → (ch == b'$') ≡ false
    → expand_from cwd (ch ∷ code ∷ fmt) (suc room) ≡ ch ∷ expand_from cwd (code ∷ fmt) room
unfolding expand_from
expand_from-byte cwd fmt ch code room e = rw e refl

pieces-code :
    (cwd fmt : List ℕ) (ch code : ℕ)
    → (ch == b'$') ≡ true
    → pieces cwd (ch ∷ code ∷ fmt) ≡ meaning (documented cwd) code ∷ pieces cwd fmt
pieces-code cwd fmt ch code e = rw e refl

pieces-byte :
    (cwd fmt : List ℕ) (ch code : ℕ)
    → (ch == b'$') ≡ false
    → pieces cwd (ch ∷ code ∷ fmt) ≡ cut (ch ∷ []) ∷ pieces cwd (code ∷ fmt)
pieces-byte cwd fmt ch code e = rw e refl

expand_from-fill :
    (cwd fmt : List ℕ) (room : ℕ) → expand_from cwd fmt room ≡ fill room (pieces cwd fmt)
unfolding expand_from
expand_from-fill cwd fmt zero = sym (fill-zero (pieces cwd fmt))
expand_from-fill cwd [] (suc room) = refl
expand_from-fill cwd (ch ∷ []) (suc room) = fill-byte ch room []
expand_from-fill cwd (ch ∷ code ∷ fmt) (suc room) = elim (Bool-cases (ch == b'$')) [
  | inl e ↦
      let bytes : List ℕ = fill_piece (suc room) (meaning (documented cwd) code) in
      expand_from-code cwd fmt ch code room e
      ∙ ap (λ xs. xs ++ expand_from cwd fmt (suc room - length xs))
          (write_code-documented cwd code (suc room))
      ∙ ap (λ xs. bytes ++ xs) (expand_from-fill cwd fmt (suc room - length bytes))
      ∙ ap (fill (suc room)) (sym (pieces-code cwd fmt ch code e))
  | inr e ↦
      expand_from-byte cwd fmt ch code room e
      ∙ ap (λ xs. ch ∷ xs) (expand_from-fill cwd (code ∷ fmt) room)
      ∙ fill-byte ch room (pieces cwd (code ∷ fmt))
      ∙ ap (fill (suc room)) (sym (pieces-byte cwd fmt ch code e))
]

length-fill_piece : (room : ℕ) (piece : Piece) → length (fill_piece room piece) ≤ room
length-fill_piece room (cut bytes) = let e = length-take room bytes in omega arith
length-fill_piece room (whole bytes) = elim (Bool-cases (leb (length bytes) room)) [
  | inl e ↦ rw e (leb→le (length bytes) room e)
  | inr e ↦ rw e (omega arith)
]

length-fill : (room : ℕ) (all : List Piece) → length (fill room all) ≤ room
length-fill room [] = omega arith
length-fill room (piece ∷ rest) =
    let first : List ℕ = fill_piece room piece in
    let fits = length-fill_piece room piece in
    let more = length-fill (room - length first) rest in
    let e = length-append first (fill (room - length first) rest) in omega arith

-- For every format and every buffer, `expand_prompt` writes the pieces of the format one after the other
-- while there is room, and never more bytes than the buffer has. A dollar sign and a code, in upper or lower
-- case, are what the comment of the source lists for the code, and nothing for what is no code; any
-- other byte, and a dollar sign at the end, stand for themselves. A piece is cut off at the end of the
-- buffer, but the two bytes of the end of a line are written both or not at all.
pub expand_prompt_lem :
    (env : Environment) (room : ℕ)
    → (expand_prompt env room ≡ fill room (pieces env.cwd env.prompt_fmt))
      × (length (expand_prompt env room) ≤ room)
expand_prompt_lem env room =
    let e = expand_from-fill env.cwd env.prompt_fmt room in
    (e, subst (λ xs. length xs ≤ room) (sym e) (length-fill room (pieces env.cwd env.prompt_fmt)))
