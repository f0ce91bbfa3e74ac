-- ===== src/Command/Lexer.antt =====
-- components/programs/command/src/lexer.rs: the tokens of a command line. The lexer is what is left of
-- its input.
pub mod Words
use idos_nx.Base.{ℕ, Bool, ◌||◌, List, [], ◌∷◌, ◌==◌, if◌then◌else◌}

pub data Token : Type 0 where
  argument : List ℕ → Token
  redirect_input redirect_output_overwrite redirect_output_append pipe invalid end : Token

abbrev pub is_whitespace : ℕ → Bool
is_whitespace ch = ch == b' ' || ch == 9 || ch == 10 || ch == 13

unfoldable pub eat_whitespace : List ℕ → List ℕ
eat_whitespace [] = []
eat_whitespace (cur ∷ rest) =
    let further = eat_whitespace rest in if is_whitespace cur then further else cur ∷ rest

-- The end of an argument.
abbrev pub ends_argument : ℕ → Bool
ends_argument cur = is_whitespace cur || cur == b'>' || cur == b'<' || cur == b'|'

-- The bytes of the argument, and what is left.
unfoldable pub get_argument : List ℕ → List ℕ × List ℕ
get_argument [] = ([], [])
get_argument (cur ∷ rest) =
    let more = get_argument rest in
    if ends_argument cur then ([], cur ∷ rest) else (cur ∷ more.0, more.1)

-- The token behind a `>`.
abbrev pub after_greater : List ℕ → Token × List ℕ
after_greater [] = (redirect_output_overwrite, [])
after_greater (cur ∷ rest) =
    if cur == b'>' then (redirect_output_append, rest) else (redirect_output_overwrite, cur ∷ rest)

abbrev pub token_at : List ℕ → Token × List ℕ
token_at [] = (end, [])
token_at (cur ∷ rest) =
    let (bytes, left) = get_argument (cur ∷ rest) in
    if cur == b'|'
    then (pipe, rest)
    else if cur == b'<'
    then (redirect_input, rest)
    else if cur == b'>'
    then after_greater rest
    else (argument bytes, left)

unfoldable pub next_token : List ℕ → Token × List ℕ
unfolding eat_whitespace get_argument
next_token input = token_at (eat_whitespace input)
