-- ===== src/Command/Tests.antt =====
-- Tests of the command interpreter's models.
use idos_nx.Base.{
  length, ◌≤◌, ℕ, ◌≡◌, refl, Bool, true, ◌&&◌, none, some, false, List, [], take, ◌∷◌, arith, ltb,
}
use idos_nx.Base.Results.{done, panic}
use idos_nx.Command.Batch.{
  batch_lines, exec_batch, substitute_params, ascii_eq_ignore_case, trim_trailing, eq_ignore_case,
  trim_leading_whitespace, starts_with_keyword, next_line, strip_return,
}
use idos_nx.Command.Batch.Expansion.{expansion, substitute_params-eq-take}
use idos_nx.Command.Batch.Jumps.{goto_lem, Arrives}
use idos_nx.Command.Batch.Lines.{exec_batch_lem, lines_of, commands_of, after_label}
use idos_nx.Command.Environment.{Environment}
use idos_nx.Command.Environment.Directories.{text}
use idos_nx.Command.Environment.Moves.{MovesTo, moved, cd_lem}
use idos_nx.Command.Environment.Prompt.{expand_from, expand_prompt}
use idos_nx.Command.Environment.Prompt.Codes.{fill, pieces}
use idos_nx.Command.Environment.Prompt.Filled.{expand_prompt_lem}
use idos_nx.Command.Environment.Names.{full_file_path}
use idos_nx.Command.Environment.Names.Located.{located, full_file_path_lem}
use idos_nx.Files.Path.{separator, split}
use idos_nx.Command.Lexer.{next_token}
use idos_nx.Command.Parser.{executable, overwrite, append, none_there, Parser, new, parse_input}
use idos_nx.Command.Parser.RoundTrip.{parse_input_lem}

abbrev ascii : List ℕ → Bool
ascii [] = true
ascii (ch ∷ rest) = ltb ch 128 && ascii rest

-- ` copy a >>b `
abbrev line : List ℕ
line = 32 ∷ 99 ∷ 111 ∷ 112 ∷ 121 ∷ 32 ∷ 97 ∷ 32 ∷ 62 ∷ 62 ∷ 98 ∷ 32 ∷ []

abbrev copy : List ℕ
copy = 99 ∷ 111 ∷ 112 ∷ 121 ∷ []

parse_input_lem_example :
    (p : Parser) × (parse_input 3 ascii (new line) ≡ some (done p))
    × (p.tree ≡ executable copy ((97 ∷ []) ∷ []) (append (98 ∷ [])) ∷ [])
parse_input_lem_example =
    parse_input_lem 3 ascii (32 ∷ []) copy ((32 ∷ [], 97 ∷ []) ∷ []) (append (98 ∷ [])) (32 ∷ []) []
      (32 ∷ []) (omega arith) (refl, (refl, tt)) refl (refl, tt)
      (omega arith, (refl, (refl, (refl, (refl, tt)))))
      (omega arith, (refl, tt), (omega arith, (refl, tt)), tt) (omega arith, (refl, tt)) (refl, tt)
      tt (refl, tt)

-- `a | b` ends the program.
parse_input-pipe : parse_input 9 ascii (new (97 ∷ 32 ∷ 124 ∷ 32 ∷ 98 ∷ [])) ≡ some panic
unfolding parse_input next_token
parse_input-pipe = refl

-- `a > f b` is two components.
parse_input-redirect_first :
    (p : Parser) × (parse_input 9 ascii (new (97 ∷ 62 ∷ 102 ∷ 32 ∷ 98 ∷ [])) ≡ some (done p))
    × (p.tree
        ≡ executable (97 ∷ []) [] (overwrite (102 ∷ [])) ∷ executable (98 ∷ []) [] none_there ∷ [])
unfolding parse_input next_token
parse_input-redirect_first = (_, refl, refl)

abbrev batch_args : List (List ℕ)
batch_args = (b'b' ∷ []) ∷ []

abbrev batch_path : List ℕ
batch_path = b'x' ∷ 46 ∷ b'b' ∷ b'a' ∷ b't' ∷ []

-- A remark, a command with a parameter in it, and a label.
abbrev plain_file : List ℕ
plain_file = b'r' ∷ b'e' ∷ b'm' ∷ 13 ∷ 10 ∷ 32 ∷ b'd' ∷ 32 ∷ b'%' ∷ b'1' ∷ 10 ∷ b':' ∷ b'e' ∷ []

exec_batch_lem_example :
    exec_batch 4 plain_file batch_args batch_path
    ≡ some (record {
      rest = [];
      goto_target = none;
      executed = commands_of batch_args batch_path (lines_of plain_file);
    })
unfolding lines_of trim_leading_whitespace strip_return starts_with_keyword substitute_params
exec_batch_lem_example = exec_batch_lem 4 plain_file batch_args batch_path (omega arith) (refl, tt)

commands_of-plain_file :
    commands_of batch_args batch_path (lines_of plain_file) ≡ (b'd' ∷ 32 ∷ b'b' ∷ []) ∷ []
unfolding lines_of trim_leading_whitespace strip_return starts_with_keyword substitute_params
commands_of-plain_file = refl

-- A jump to a label, and what it jumps over.
abbrev jump_file : List ℕ
jump_file = b'g' ∷ b'o' ∷ b't' ∷ b'o' ∷ 32 ∷ b'e' ∷ 10 ∷ b'd' ∷ 10 ∷ b':' ∷ b'E' ∷ 10 ∷ b'f' ∷ []

goto_lem_example :
    Arrives jump_file [] batch_path
      (b'e' ∷ [])
      []
      5
      4
      (batch_lines 6 jump_file [] batch_path
        (record { rest = jump_file; goto_target = none; executed = [] }))
      (after_label (b'e' ∷ []) (lines_of jump_file))
unfolding lines_of next_line trim_leading_whitespace strip_return starts_with_keyword
    substitute_params
goto_lem_example =
    goto_lem 5 jump_file [] batch_path b'g'
      (b'o' ∷ b't' ∷ b'o' ∷ 32 ∷ b'e' ∷ 10 ∷ b'd' ∷ 10 ∷ b':' ∷ b'E' ∷ 10 ∷ b'f' ∷ []) []
      (b'g' ∷ b'o' ∷ b't' ∷ b'o' ∷ 32 ∷ b'e' ∷ []) b'e' [] (omega arith) refl refl refl refl

-- White space behind the word of a jump keeps it from its label.
goto-blank_behind : ascii_eq_ignore_case (b'e' ∷ []) (b'e' ∷ 32 ∷ []) ≡ false
unfolding trim_trailing eq_ignore_case
goto-blank_behind = refl

substitute_params-eq-take_example :
    substitute_params (b'%' ∷ b'1' ∷ b'%' ∷ b'0' ∷ []) batch_args batch_path 4
    ≡ take 4 (expansion (b'%' ∷ b'1' ∷ b'%' ∷ b'0' ∷ []) batch_args batch_path)
substitute_params-eq-take_example =
    substitute_params-eq-take (b'%' ∷ b'1' ∷ b'%' ∷ b'0' ∷ []) batch_args batch_path 4

abbrev drive_c : List ℕ
drive_c = b'C' ∷ b':' ∷ []

-- `..\e` from `C:\a\b\`.
cd_lem_example :
    MovesTo drive_c
      ((b'b' ∷ []) ∷ (b'a' ∷ []) ∷ [])
      []
      (some (b'.' ∷ b'.' ∷ 92 ∷ b'e' ∷ []))
      (moved drive_c ((b'b' ∷ []) ∷ (b'a' ∷ []) ∷ []) (some (b'.' ∷ b'.' ∷ 92 ∷ b'e' ∷ [])))
unfolding text
cd_lem_example =
    cd_lem drive_c ((b'b' ∷ []) ∷ (b'a' ∷ []) ∷ []) [] (some (b'.' ∷ b'.' ∷ 92 ∷ b'e' ∷ []))
      ((refl, (refl, tt)), ((refl, tt), ((refl, tt), tt)), omega arith) (omega arith, omega arith)

full_file_path_lem_example :
    full_file_path (text drive_c ((b'b' ∷ []) ∷ (b'a' ∷ []) ∷ [])) (b'.' ∷ b'.' ∷ 92 ∷ b'e' ∷ [])
    ≡ some (
        located drive_c
          ((b'b' ∷ []) ∷ (b'a' ∷ []) ∷ [])
          (split (b'.' ∷ b'.' ∷ 92 ∷ b'e' ∷ []) separator))
full_file_path_lem_example =
    full_file_path_lem (b'C' ∷ []) ((b'b' ∷ []) ∷ (b'a' ∷ []) ∷ []) (b'.' ∷ b'.' ∷ 92 ∷ b'e' ∷ [])
      ((refl, tt), ((refl, tt), tt)) (refl, (refl, (refl, (refl, tt))))

-- A name that starts with a separator is looked up below the current directory.
full_file_path-leading_separator :
    full_file_path (b'C' ∷ b':' ∷ 92 ∷ b'a' ∷ 92 ∷ []) (92 ∷ b'e' ∷ [])
    ≡ some (b'C' ∷ b':' ∷ 92 ∷ b'a' ∷ 92 ∷ b'e' ∷ [])
unfolding full_file_path
full_file_path-leading_separator = refl

abbrev here : Environment
here = record {
  cwd = b'C' ∷ b':' ∷ 92 ∷ b'a' ∷ 92 ∷ [];
  prompt_fmt = b'$' ∷ b'P' ∷ b'$' ∷ b'G' ∷ [];
}

expand_prompt_lem_example :
    (expand_prompt here 4 ≡ fill 4 (pieces here.cwd here.prompt_fmt))
    × (length (expand_prompt here 4) ≤ 4)
expand_prompt_lem_example = expand_prompt_lem here 4

expand_prompt-here : expand_prompt here 6 ≡ b'C' ∷ b':' ∷ 92 ∷ b'a' ∷ 92 ∷ b'>' ∷ []
unfolding expand_from
expand_prompt-here = refl
