-- ===== src/Command/Parser.antt =====
-- components/programs/command/src/parser.rs: command lines into components. A string is its bytes, which
-- are UTF-8 when the kernel passes them on; other bytes end the program. The tree is the list of the
-- inserted components, whose identifiers count them from 0.
pub mod RoundTrip
pub mod Tokens
use idos_nx.Base.{ℕ, zero, suc, Bool, Option, none, some, List, [], ◌∷◌, ◌++◌, if◌then◌else◌}
use idos_nx.Base.Results.{Outcome, done, panic, ◌>>=◌}
use idos_nx.Command.Lexer.{
  Token, argument, redirect_input, redirect_output_overwrite, redirect_output_append, pipe, invalid,
  end, next_token,
}

pub data RedirectOutput : Type 0 where
  none_there : RedirectOutput
  overwrite append : List ℕ → RedirectOutput

pub data CommandComponent : Type 0 where
  change_drive filename : List ℕ → CommandComponent
  executable : List ℕ → List (List ℕ) → RedirectOutput → CommandComponent

pub record Parser : Type 0 where
  pub lexer : List ℕ
  pub tree : List CommandComponent
  pub current : Token
  pub next : Token

abbrev pub advance_token : Parser → Parser
advance_token p =
    let (token, left) = next_token p.lexer in
    record { lexer = left; tree = p.tree; current = p.next; next = token }

abbrev pub new : List ℕ → Parser
new input =
    advance_token
      (advance_token (record { lexer = input; tree = []; current = invalid; next = invalid }))

-- `from_utf8` and `unwrap` on the bytes of a token.
abbrev pub text_of : (List ℕ → Bool) → List ℕ → Outcome (List ℕ)
text_of is_utf8 bytes = if is_utf8 bytes then done bytes else panic

-- The loop of `parse_argument_string`, for at most so many tokens.
unfoldable pub argument_string :
    ℕ → (List ℕ → Bool) → Parser → Option (Outcome (List (List ℕ) × Parser))
argument_string zero is_utf8 p = none
argument_string (suc rounds) is_utf8 p = elim p.current [
  | argument bytes ↦ elim (text_of is_utf8 bytes) [
    | panic ↦ some panic
    | done arg ↦ elim (argument_string rounds is_utf8 (advance_token p)) [
      | none ↦ none
      | some panic ↦ some panic
      | some (done (args, p')) ↦ some (done (arg ∷ args, p'))
    ]
  ]
  | _ ↦ some (done ([], p))
]

-- The file of a redirection, behind its sign.
abbrev pub redirect_file :
    (List ℕ → Bool) → (List ℕ → RedirectOutput) → Parser → Outcome (RedirectOutput × Parser)
redirect_file is_utf8 kind p = elim p.current [
  | argument bytes ↦ text_of is_utf8 bytes >>= (λ name. done (kind name, advance_token p))
  | _ ↦ done (none_there, p)
]

abbrev pub parse_redirect : (List ℕ → Bool) → Parser → Outcome (RedirectOutput × Parser)
parse_redirect is_utf8 p = elim p.current [
  | redirect_output_overwrite ↦ redirect_file is_utf8 overwrite (advance_token p)
  | redirect_output_append ↦ redirect_file is_utf8 append (advance_token p)
  | _ ↦ done (none_there, p)
]

-- The segment that the current token starts.
unfoldable pub parse_segment :
    ℕ → (List ℕ → Bool) → Parser → Option (Outcome (CommandComponent × Parser))
unfolding argument_string
parse_segment rounds is_utf8 p = elim p.current [
  | argument bytes ↦ elim (text_of is_utf8 bytes) [
    | panic ↦ some panic
    | done name ↦ elim (argument_string rounds is_utf8 (advance_token p)) [
      | none ↦ none
      | some panic ↦ some panic
      | some (done (args, p1)) ↦
          some (parse_redirect is_utf8 p1 >>= (λ (r, p2). done (executable name args r, p2)))
    ]
  ]
  | _ ↦ some panic
]

unfoldable pub parse_input : ℕ → (List ℕ → Bool) → Parser → Option (Outcome Parser)
unfolding parse_segment
parse_input zero is_utf8 p = none
parse_input (suc rounds) is_utf8 p = elim p.current [
  | end ↦ some (done p)
  | invalid ↦ some (done p)
  | redirect_input ↦ some panic
  | _ ↦ elim (parse_segment (suc rounds) is_utf8 p) [
    | none ↦ none
    | some panic ↦ some panic
    | some (done (component, p')) ↦
        parse_input rounds is_utf8 (record p' { tree = p'.tree ++ (component ∷ []) })
  ]
]
