-- ===== src/Command/Lexer/Words.antt =====
-- components/programs/command/src/lexer.rs: how words, gaps and signs are read.
use idos_nx.Base.{ℕ, ◌<◌, ◌≡◌, refl, ap, ◌∙◌, true, false, List, [], ◌∷◌, ◌++◌, arith, ◌==◌, length}
use idos_nx.Command.Lexer.{
  argument, redirect_output_overwrite, end, is_whitespace, ends_argument, eat_whitespace,
  get_argument, after_greater, token_at, next_token,
}

abbrev pub IsGap : List ℕ → Type 0
IsGap [] = Unit {0}
IsGap (ch ∷ rest) = (is_whitespace ch ≡ true) × IsGap rest

abbrev pub Plain : List ℕ → Type 0
Plain [] = Unit {0}
Plain (ch ∷ rest) = (ends_argument ch ≡ false) × Plain rest

-- At least one byte, none of which ends an argument.
abbrev pub IsWord : List ℕ → Type 0
IsWord word = (0 < length word) × Plain word

-- What follows a word, so that it is not longer.
abbrev pub Stops : List ℕ → Type 0
Stops [] = Unit {0}
Stops (ch ∷ rest) = ends_argument ch ≡ true

pub eat_whitespace-gap :
    (gap rest : List ℕ) → IsGap gap → eat_whitespace (gap ++ rest) ≡ eat_whitespace rest
unfolding eat_whitespace
eat_whitespace-gap [] rest g = refl
eat_whitespace-gap (ch ∷ gap) rest (e, g) = rw e (eat_whitespace-gap gap rest g)

pub get_argument-word :
    (word rest : List ℕ) → Plain word → Stops rest → get_argument (word ++ rest) ≡ (word, rest)
unfolding get_argument
get_argument-word [] [] w s = refl
get_argument-word [] (ch ∷ rest) w s = rw s refl
get_argument-word (ch ∷ word) rest (e, w) s = rw (e, get_argument-word word rest w s) refl

pub next_token-word :
    (gap word rest : List ℕ)
    → IsGap gap
    → IsWord word
    → Stops rest
    → next_token (gap ++ (word ++ rest)) ≡ (argument word, rest)
unfolding next_token eat_whitespace
next_token-word gap [] rest g (pos, w) s = absurd (omega arith)
next_token-word gap (ch ∷ word) rest g (pos, (e, w)) s =
    let space : is_whitespace ch ≡ false = ground (arith, e) in
    let bar : (ch == b'|') ≡ false = ground (arith, e) in
    let less : (ch == b'<') ≡ false = ground (arith, e) in
    let greater : (ch == b'>') ≡ false = ground (arith, e) in
    ap token_at (eat_whitespace-gap gap (ch ∷ (word ++ rest)) g)
    ∙ rw (space, get_argument-word (ch ∷ word) rest (e, w) s, bar, less, greater) refl

pub next_token-end : (input : List ℕ) → eat_whitespace input ≡ [] → next_token input ≡ (end, [])
unfolding next_token
next_token-end input e = rw e refl

pub Stops-gap : (gap rest : List ℕ) → IsGap gap → Stops rest → Stops (gap ++ rest)
Stops-gap [] rest g s = s
Stops-gap (ch ∷ gap) rest (e, g) s = ground (arith, e)

pub eat_whitespace-IsGap : (gap : List ℕ) → IsGap gap → eat_whitespace gap ≡ []
unfolding eat_whitespace
eat_whitespace-IsGap [] g = refl
eat_whitespace-IsGap (ch ∷ gap) (e, g) = rw (e, eat_whitespace-IsGap gap g) refl

pub Stops-IsGap : (gap : List ℕ) → IsGap gap → Stops gap
Stops-IsGap [] g = tt
Stops-IsGap (ch ∷ gap) (e, g) = ground (arith, e)

-- A file's name is not read as the second half of the sign.
pub after_greater-file :
    (gap word rest : List ℕ)
    → IsGap gap
    → IsWord word
    → after_greater (gap ++ (word ++ rest)) ≡ (redirect_output_overwrite, gap ++ (word ++ rest))
after_greater-file [] [] rest g (pos, w) = absurd (omega arith)
after_greater-file [] (ch ∷ word) rest g (pos, (e, w)) = ground (arith, e)
after_greater-file (ch ∷ gap) word rest (e, g) w = ground (arith, e)

pub next_token-greater :
    (gap rest : List ℕ) → IsGap gap → next_token (gap ++ (b'>' ∷ rest)) ≡ after_greater rest
unfolding next_token eat_whitespace get_argument
next_token-greater gap rest g = ap token_at (eat_whitespace-gap gap (b'>' ∷ rest) g)
