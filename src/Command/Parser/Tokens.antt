-- ===== src/Command/Parser/Tokens.antt =====
-- components/programs/command/src/parser.rs: the parser on the tokens of one command.
use idos_nx.Base.{
  ℕ, zero, suc, ◌+◌, ◌<◌, ◌≡◌, refl, ap, ◌∙◌, Bool, true, some, List, [], ◌∷◌, ◌++◌, arith, length,
}
use idos_nx.Base.Results.{done}
use idos_nx.Command.Lexer.{
  Token, argument, redirect_output_overwrite, redirect_output_append, end, eat_whitespace,
  next_token,
}
use idos_nx.Command.Parser.{
  RedirectOutput, none_there, overwrite, append, CommandComponent, executable, Parser, new,
  advance_token, argument_string, parse_redirect, parse_segment, parse_input,
}
use idos_nx.Command.Lexer.Words.{next_token-end}

-- The input is read as these tokens, and then as nothing.
abbrev pub Yields : List ℕ → List Token → Type 0
Yields input [] = eat_whitespace input ≡ []
Yields input (token ∷ tokens) =
    (left : List ℕ) × (next_token input ≡ (token, left)) × Yields left tokens

-- The parser has these tokens before it.
abbrev pub At : Parser → List Token → Type 0
At p [] = (p.current ≡ end) × (p.next ≡ end) × Yields p.lexer []
At p (t ∷ []) = (p.current ≡ t) × (p.next ≡ end) × Yields p.lexer []
At p (t ∷ u ∷ tokens) = (p.current ≡ t) × (p.next ≡ u) × Yields p.lexer tokens

pub advance-At :
    (p : Parser) (t : Token) (tokens : List Token) → At p (t ∷ tokens) → At (advance_token p) tokens
unfolding eat_whitespace
advance-At p t [] (c, n, y) = rw (next_token-end p.lexer y) (n, refl, refl)
advance-At p t (u ∷ []) (c, n, y) = rw (next_token-end p.lexer y) (n, refl, refl)
advance-At p t (u ∷ v ∷ tokens) (c, n, (left, e, y)) = rw e (n, refl, y)

pub new-At : (input : List ℕ) (tokens : List Token) → Yields input tokens → At (new input) tokens
unfolding eat_whitespace
new-At input [] y = rw (next_token-end input y, next_token-end [] refl) (refl, refl, refl)
new-At input (t ∷ []) (left, e, y) = rw (e, next_token-end left y) (refl, refl, refl)
new-At input (t ∷ u ∷ tokens) (left, e, (left', e', y)) = rw (e, e') (refl, refl, y)

abbrev pub All : (List ℕ → Bool) → List (List ℕ) → Type 0
All test [] = Unit {0}
All test (word ∷ words) = (test word ≡ true) × All test words

abbrev pub RedirectIs : (List ℕ → Bool) → RedirectOutput → Type 0
RedirectIs test none_there = Unit {0}
RedirectIs test (overwrite file) = test file ≡ true
RedirectIs test (append file) = test file ≡ true

abbrev pub redirect_tokens : RedirectOutput → List Token
redirect_tokens none_there = []
redirect_tokens (overwrite file) = redirect_output_overwrite ∷ argument file ∷ []
redirect_tokens (append file) = redirect_output_append ∷ argument file ∷ []

-- The tokens of the arguments and of the redirection.
abbrev pub tokens_of : List (List ℕ) → RedirectOutput → List Token
tokens_of [] r = redirect_tokens r
tokens_of (word ∷ words) r = argument word ∷ tokens_of words r

pub At-current : (p : Parser) (t : Token) (ts : List Token) → At p (t ∷ ts) → p.current ≡ t
At-current p t [] a = a.0
At-current p t (u ∷ ts) a = a.0

pub argument_string-redirect :
    (rounds : ℕ) (is_utf8 : List ℕ → Bool) (p : Parser) (r : RedirectOutput)
    → At p (redirect_tokens r)
    → argument_string (suc rounds) is_utf8 p ≡ some (done ([], p))
unfolding argument_string
argument_string-redirect rounds is_utf8 p none_there a = rw a.0 refl
argument_string-redirect rounds is_utf8 p (overwrite file) a = rw a.0 refl
argument_string-redirect rounds is_utf8 p (append file) a = rw a.0 refl

pub argument_string-step :
    (rounds : ℕ) (is_utf8 : List ℕ → Bool) (p p' : Parser) (arg : List ℕ) (args : List (List ℕ))
    → p.current ≡ argument arg
    → is_utf8 arg ≡ true
    → argument_string rounds is_utf8 (advance_token p) ≡ some (done (args, p'))
    → argument_string (suc rounds) is_utf8 p ≡ some (done (arg ∷ args, p'))
unfolding argument_string
argument_string-step rounds is_utf8 p p' arg args c u e = rw (argument_string, c, u, e) refl

pub argument_string-tokens_of :
    (rounds : ℕ) (is_utf8 : List ℕ → Bool) (p : Parser) (args : List (List ℕ)) (r : RedirectOutput)
    → length args < rounds
    → All is_utf8 args
    → At p (tokens_of args r)
    → (p' : Parser) × (argument_string rounds is_utf8 p ≡ some (done (args, p')))
      × At p' (redirect_tokens r)
      × (p'.tree ≡ p.tree)
argument_string-tokens_of zero is_utf8 p args r lt u a = absurd (omega arith)
argument_string-tokens_of (suc rounds) is_utf8 p [] r lt u a =
    (p, argument_string-redirect rounds is_utf8 p r a, a, refl)
argument_string-tokens_of (suc rounds) is_utf8 p (arg ∷ args) r lt (u, us) a =
    let (p', e, a', t) =
      argument_string-tokens_of rounds is_utf8 (advance_token p) args r (omega arith) us
        (advance-At p (argument arg) (tokens_of args r) a) in
    (
      p',
      argument_string-step rounds is_utf8 p p' arg args
          (At-current p (argument arg) (tokens_of args r) a) u e,
      a',
      t,
    )

pub parse_redirect-tokens :
    (is_utf8 : List ℕ → Bool) (p : Parser) (r : RedirectOutput)
    → RedirectIs is_utf8 r
    → At p (redirect_tokens r)
    → (p' : Parser) × (parse_redirect is_utf8 p ≡ done (r, p')) × At p' [] × (p'.tree ≡ p.tree)
parse_redirect-tokens is_utf8 p none_there u a = (p, rw a.0 refl, a, refl)
parse_redirect-tokens is_utf8 p (overwrite file) u a =
    let b : At (advance_token p) (argument file ∷ []) =
      advance-At p redirect_output_overwrite (argument file ∷ []) a in
    (
      advance_token (advance_token p),
      rw (a.0, b.0, u) refl,
      advance-At (advance_token p) (argument file) [] b,
      refl,
    )
parse_redirect-tokens is_utf8 p (append file) u a =
    let b : At (advance_token p) (argument file ∷ []) =
      advance-At p redirect_output_append (argument file ∷ []) a in
    (
      advance_token (advance_token p),
      rw (a.0, b.0, u) refl,
      advance-At (advance_token p) (argument file) [] b,
      refl,
    )

pub parse_segment-steps :
    (rounds : ℕ) (is_utf8 : List ℕ → Bool) (p p1 p2 : Parser) (name : List ℕ) (args : List (List ℕ))
    (r : RedirectOutput)
    → p.current ≡ argument name
    → is_utf8 name ≡ true
    → argument_string rounds is_utf8 (advance_token p) ≡ some (done (args, p1))
    → parse_redirect is_utf8 p1 ≡ done (r, p2)
    → parse_segment rounds is_utf8 p ≡ some (done (executable name args r, p2))
unfolding parse_segment
parse_segment-steps rounds is_utf8 p p1 p2 name args r c u e1 e2 =
    rw (parse_segment, c, u, e1, e2) refl

pub parse_segment-tokens :
    (rounds : ℕ) (is_utf8 : List ℕ → Bool) (p : Parser) (name : List ℕ) (args : List (List ℕ))
    (r : RedirectOutput)
    → length args < rounds
    → All is_utf8 (name ∷ args)
    → RedirectIs is_utf8 r
    → At p (tokens_of (name ∷ args) r)
    → (p' : Parser) × (parse_segment rounds is_utf8 p ≡ some (done (executable name args r, p')))
      × At p' []
      × (p'.tree ≡ p.tree)
parse_segment-tokens rounds is_utf8 p name args r lt (u, us) v a =
    let (p1, e1, a1, t1) =
      argument_string-tokens_of rounds is_utf8 (advance_token p) args r lt us
        (advance-At p (argument name) (tokens_of args r) a) in
    let (p2, e2, a2, t2) = parse_redirect-tokens is_utf8 p1 r v a1 in
    let c : p.current ≡ argument name = At-current p (argument name) (tokens_of args r) a in
    (p2, parse_segment-steps rounds is_utf8 p p1 p2 name args r c u e1 e2, a2, t2 ∙ t1)

-- One segment is all the input.
pub parse_input-segment :
    (rounds : ℕ) (is_utf8 : List ℕ → Bool) (p p' : Parser) (name : List ℕ) (c : CommandComponent)
    → p.current ≡ argument name
    → parse_segment (suc (suc rounds)) is_utf8 p ≡ some (done (c, p'))
    → p'.current ≡ end
    → parse_input (suc (suc rounds)) is_utf8 p
      ≡ some (done (record p' { tree = p'.tree ++ (c ∷ []) }))
unfolding parse_input
parse_input-segment rounds is_utf8 p p' name c e f g =
    rw (parse_input, e, f, g)
      (ap (λ token. some (done (record p' { tree = p'.tree ++ (c ∷ []); current = token }))) g)

pub parse_input-tokens :
    (rounds : ℕ) (is_utf8 : List ℕ → Bool) (p : Parser) (name : List ℕ) (args : List (List ℕ))
    (r : RedirectOutput)
    → 1 + length args < rounds
    → All is_utf8 (name ∷ args)
    → RedirectIs is_utf8 r
    → At p (tokens_of (name ∷ args) r)
    → (p' : Parser) × (parse_input rounds is_utf8 p ≡ some (done p'))
      × (p'.tree ≡ p.tree ++ (executable name args r ∷ []))
parse_input-tokens zero is_utf8 p name args r lt us v a = absurd (omega arith)
parse_input-tokens (suc zero) is_utf8 p name args r lt us v a = absurd (omega arith)
parse_input-tokens (suc (suc rounds)) is_utf8 p name args r lt us v a =
    let (p', e, a', t) =
      parse_segment-tokens (suc (suc rounds)) is_utf8 p name args r (omega arith) us v a in
    (
      record p' { tree = p'.tree ++ (executable name args r ∷ []) },
      parse_input-segment rounds is_utf8 p p' name (executable name args r)
          (At-current p (argument name) (tokens_of args r) a) e a'.0,
      ap (λ tree. tree ++ (executable name args r ∷ [])) t,
    )
