-- ===== src/Command/Parser/RoundTrip.antt =====
-- components/programs/command/src/parser.rs: a command that is written out is parsed as it was.
use idos_nx.Base.{
  ℕ, suc, ◌+◌, ◌<◌, ◌≡◌, refl, sym, subst, ap, ◌∙◌, Bool, some, List, [], ◌∷◌, ◌++◌, arith, length,
}
use idos_nx.Base.Results.{done}
use idos_nx.Command.Parser.{
  RedirectOutput, none_there, overwrite, append, executable, Parser, new, parse_input,
}
use idos_nx.Command.Lexer.Words.{
  IsGap, IsWord, Stops, next_token-word, Stops-gap, Stops-IsGap, eat_whitespace-IsGap,
  after_greater-file, next_token-greater,
}
use idos_nx.Command.Parser.Tokens.{
  Yields, new-At, All, RedirectIs, redirect_tokens, tokens_of, parse_input-tokens,
}

abbrev pub IsWords : List (List ℕ × List ℕ) → Type 0
IsWords [] = Unit {0}
IsWords ((gap, word) ∷ rest) = (0 < length gap) × IsGap gap × IsWord word × IsWords rest

-- The words, each behind its gap, before a tail.
abbrev pub words_text : List (List ℕ × List ℕ) → List ℕ → List ℕ
words_text [] tail = tail
words_text ((gap, word) ∷ rest) tail = gap ++ (word ++ words_text rest tail)

abbrev pub words_of : List (List ℕ × List ℕ) → List (List ℕ)
words_of [] = []
words_of ((gap, word) ∷ rest) = word ∷ words_of rest

abbrev pub IsFile : RedirectOutput → Type 0
IsFile none_there = Unit {0}
IsFile (overwrite file) = IsWord file
IsFile (append file) = IsWord file

-- The redirection between two gaps, before a tail.
abbrev pub redirect_text : RedirectOutput → List ℕ → List ℕ → List ℕ → List ℕ
redirect_text none_there before between tail = tail
redirect_text (overwrite file) before between tail = before ++ (b'>' ∷ (between ++ (file ++ tail)))
redirect_text (append file) before between tail =
    before ++ (b'>' ∷ b'>' ∷ (between ++ (file ++ tail)))

Stops-redirect :
    (r : RedirectOutput) (before between tail : List ℕ)
    → IsGap before
    → IsGap tail
    → Stops (redirect_text r before between tail)
Stops-redirect none_there before between tail b t = Stops-IsGap tail t
Stops-redirect (overwrite file) before between tail b t =
    Stops-gap before (b'>' ∷ (between ++ (file ++ tail))) b refl
Stops-redirect (append file) before between tail b t =
    Stops-gap before (b'>' ∷ b'>' ∷ (between ++ (file ++ tail))) b refl

Stops-words :
    (words : List (List ℕ × List ℕ)) (tail : List ℕ)
    → IsWords words
    → Stops tail
    → Stops (words_text words tail)
Stops-words [] tail w s = s
Stops-words (([], word) ∷ rest) tail (pos, g, w, ws) s = absurd (omega arith)
Stops-words ((ch ∷ gap, word) ∷ rest) tail (pos, (e, g), w, ws) s = ground (arith, e)

redirect_text-Yields :
    (r : RedirectOutput) (before between tail : List ℕ)
    → IsFile r
    → IsGap before
    → IsGap between
    → IsGap tail
    → Yields (redirect_text r before between tail) (redirect_tokens r)
redirect_text-Yields none_there before between tail f b m t = eat_whitespace-IsGap tail t
redirect_text-Yields (overwrite file) before between tail f b m t = (
  between ++ (file ++ tail),
  next_token-greater before (between ++ (file ++ tail)) b
      ∙ after_greater-file between file tail m f,
  (tail, next_token-word between file tail m f (Stops-IsGap tail t), eat_whitespace-IsGap tail t),
)
redirect_text-Yields (append file) before between tail f b m t = (
  between ++ (file ++ tail),
  next_token-greater before (b'>' ∷ (between ++ (file ++ tail))) b,
  (tail, next_token-word between file tail m f (Stops-IsGap tail t), eat_whitespace-IsGap tail t),
)

words_text-Yields :
    (words : List (List ℕ × List ℕ)) (r : RedirectOutput) (before between tail : List ℕ)
    → IsWords words
    → IsFile r
    → IsGap before
    → IsGap between
    → IsGap tail
    → Yields (words_text words (redirect_text r before between tail)) (tokens_of (words_of words) r)
words_text-Yields [] r before between tail w f b m t =
    redirect_text-Yields r before between tail f b m t
words_text-Yields ((gap, word) ∷ rest) r before between tail (pos, g, w, ws) f b m t =
    let text : List ℕ = words_text rest (redirect_text r before between tail) in
    (
      text,
      next_token-word gap word text g w (
          Stops-words rest (redirect_text r before between tail) ws
            (Stops-redirect r before between tail b t)),
      words_text-Yields rest r before between tail ws f b m t,
    )

length-words_of : (words : List (List ℕ × List ℕ)) → length (words_of words) ≡ length words
length-words_of [] = refl
length-words_of ((gap, word) ∷ rest) = ap suc (length-words_of rest)

-- A command line is a name, arguments each behind at least one white space, and perhaps a redirection to a
-- file, with white space anywhere between and around them. When no word has white space or a sign in it and
-- all are UTF-8, parsing it ends without a panic within two rounds more than it has arguments, and its tree
-- is the one component with that name, those arguments and that redirection.
pub parse_input_lem :
    (rounds : ℕ) (is_utf8 : List ℕ → Bool) (lead name : List ℕ) (words : List (List ℕ × List ℕ))
    (r : RedirectOutput) (before between tail : List ℕ)
    → 1 + length words < rounds
    → All is_utf8 (name ∷ words_of words)
    → RedirectIs is_utf8 r
    → IsGap lead
    → IsWord name
    → IsWords words
    → IsFile r
    → IsGap before
    → IsGap between
    → IsGap tail
    → (p : Parser) × (parse_input rounds is_utf8
          (new (lead ++ (name ++ words_text words (redirect_text r before between tail))))
        ≡ some (done p))
      × (p.tree ≡ executable name (words_of words) r ∷ [])
parse_input_lem rounds is_utf8 lead name words r before between tail n u v l w ws f b m t =
    let rest : List ℕ = words_text words (redirect_text r before between tail) in
    let y : Yields (lead ++ (name ++ rest)) (tokens_of (name ∷ words_of words) r) = (
      rest,
      next_token-word lead name rest l w (
          Stops-words words (redirect_text r before between tail) ws
            (Stops-redirect r before between tail b t)),
      words_text-Yields words r before between tail ws f b m t,
    ) in
    parse_input-tokens rounds is_utf8 (new (lead ++ (name ++ rest))) name (words_of words) r
      (subst (λ n. 1 + n < rounds) (sym (length-words_of words)) n) u v
      (new-At (lead ++ (name ++ rest)) (tokens_of (name ∷ words_of words) r) y)
