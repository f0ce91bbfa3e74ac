-- ===== src/Command/Batch/Lines.antt =====
-- components/programs/command/src/batch.rs: the run of a batch file, line by line.
use idos_nx.Base.{
  ℕ, zero, suc, ◌<◌, ◌≡◌, refl, sym, subst, ap, ◌∙◌, inl, inr, Bool, true, false, ◌&&◌, ◌||◌,
  Option, none, some, List, [], ◌∷◌, ◌++◌, append-nil, append_assoc, arith, ◌==◌, if◌then◌else◌,
  Bool-cases, length,
}
use idos_nx.Command.Batch.{
  trim_leading_whitespace, starts_with_keyword, ascii_eq_ignore_case, substitute_params, next_line,
  trimmed_line, rem, goto, run_line, batch_line, batch_lines, exec_batch,
}

abbrev prepend : ℕ → List (List ℕ) → List (List ℕ)
prepend ch [] = (ch ∷ []) ∷ []
prepend ch (line ∷ lines) = (ch ∷ line) ∷ lines

-- What stands between the ends of lines.
unfoldable pub lines_of : List ℕ → List (List ℕ)
lines_of [] = []
lines_of (ch ∷ rest) =
    let further = lines_of rest in if ch == 10 then [] ∷ further else prepend ch further

pub lines_of-next_line :
    (ch : ℕ) (rest : List ℕ)
    → lines_of (ch ∷ rest) ≡ (next_line (ch ∷ rest)).0 ∷ lines_of (next_line (ch ∷ rest)).1
unfolding lines_of next_line
lines_of-next_line ch [] = elim (Bool-cases (ch == 10)) [ inl e ↦ rw e refl | inr e ↦ rw e refl ]
lines_of-next_line ch (next ∷ rest) = elim (Bool-cases (ch == 10)) [
  | inl e ↦ rw e refl
  | inr e ↦ rw e (ap (prepend ch) (lines_of-next_line next rest))
]

-- No line after it runs.
abbrev pub is_skipped : List ℕ → Bool
is_skipped [] = true
is_skipped (first ∷ after) = first == b':' || starts_with_keyword (first ∷ after) rem

abbrev pub is_label : List ℕ → List ℕ → Bool
is_label target [] = false
is_label target (first ∷ label) =
    first == b':' && ascii_eq_ignore_case (trim_leading_whitespace label) target

-- What is passed on for a trimmed line, unless it is a jump.
abbrev pub command_of : List (List ℕ) → List ℕ → List ℕ → List (List ℕ)
command_of args path line =
    if is_skipped line then [] else substitute_params line args path 512 ∷ []

abbrev pub commands_of : List (List ℕ) → List ℕ → List (List ℕ) → List (List ℕ)
commands_of args path [] = []
commands_of args path (line ∷ lines) =
    command_of args path (trimmed_line line) ++ commands_of args path lines

abbrev pub NoJump : List (List ℕ) → Type 0
NoJump [] = Unit {0}
NoJump (command ∷ commands) = (starts_with_keyword command goto ≡ false) × NoJump commands

NoJump-append : (xs ys : List (List ℕ)) → NoJump (xs ++ ys) → NoJump xs × NoJump ys
NoJump-append [] ys n = (tt, n)
NoJump-append (x ∷ xs) ys (e, n) = let (a, b) = NoJump-append xs ys n in ((e, a), b)

run_line-command_of :
    (file : List ℕ) (args : List (List ℕ)) (path line rest : List ℕ) (executed : List (List ℕ))
    → NoJump (command_of args path line)
    → run_line file args path line (record { rest = rest; goto_target = none; executed = executed })
      ≡ record { rest = rest; goto_target = none; executed = executed ++ command_of args path line }
run_line-command_of file args path [] rest executed n =
    ap (λ xs. record { rest = rest; goto_target = none; executed = xs }) (sym (append-nil executed))
run_line-command_of file args path (first ∷ after) rest executed n =
    elim (Bool-cases (is_skipped (first ∷ after))) [
      | inl e ↦ rw e (
          ap (λ xs. record { rest = rest; goto_target = none; executed = xs })
            (sym (append-nil executed)))
      | inr e ↦
          let m : NoJump (substitute_params (first ∷ after) args path 512 ∷ []) =
            subst
              (λ b. NoJump (if b then [] else substitute_params (first ∷ after) args path 512 ∷ []))
              e n in
          rw (e, m.0) refl
    ]

batch_lines-next :
    (rounds : ℕ) (file : List ℕ) (args : List (List ℕ)) (path : List ℕ) (ch : ℕ) (rest : List ℕ)
    (executed : List (List ℕ))
    → NoJump (command_of args path (trimmed_line (next_line (ch ∷ rest)).0))
    → batch_lines
        (suc rounds)
        file
        args
        path
        (record { rest = ch ∷ rest; goto_target = none; executed = executed })
      ≡ batch_lines rounds file args path (record {
        rest = (next_line (ch ∷ rest)).1;
        goto_target = none;
        executed = executed ++ command_of args path (trimmed_line (next_line (ch ∷ rest)).0);
      })
unfolding batch_lines batch_line
batch_lines-next rounds file args path ch rest executed n = ap (batch_lines rounds file args path) (
    run_line-command_of file args path (trimmed_line (next_line (ch ∷ rest)).0)
      (next_line (ch ∷ rest)).1 executed n)

-- When no line is a jump, the loop ends with every command passed on, in order.
batch_lines-commands_of :
    (rounds : ℕ) (file : List ℕ) (args : List (List ℕ)) (path rest : List ℕ)
    (executed : List (List ℕ))
    → length (lines_of rest) < rounds
    → NoJump (commands_of args path (lines_of rest))
    → batch_lines rounds file args path
        (record { rest = rest; goto_target = none; executed = executed })
      ≡ some (record {
        rest = [];
        goto_target = none;
        executed = executed ++ commands_of args path (lines_of rest);
      })
unfolding batch_lines lines_of
batch_lines-commands_of zero file args path rest executed lt n = absurd (omega arith)
batch_lines-commands_of (suc rounds) file args path [] executed lt n =
    ap (λ xs. some (record { rest = []; goto_target = none; executed = xs }))
      (sym (append-nil executed))
batch_lines-commands_of (suc rounds) file args path (ch ∷ rest) executed lt n =
    let line : List ℕ = (next_line (ch ∷ rest)).0 in
    let more : List ℕ = (next_line (ch ∷ rest)).1 in
    let e : lines_of (ch ∷ rest) ≡ line ∷ lines_of more = lines_of-next_line ch rest in
    let (here, behind) =
      NoJump-append (command_of args path (trimmed_line line))
        (commands_of args path (lines_of more))
        (subst (λ lines. NoJump (commands_of args path lines)) e n) in
    let fewer : length (line ∷ lines_of more) < suc rounds =
      subst (λ lines. length lines < suc rounds) e lt in
    batch_lines-next rounds file args path ch rest executed here
    ∙ batch_lines-commands_of rounds file args path more
        (executed ++ command_of args path (trimmed_line line)) (omega arith) behind
    ∙ ap (λ xs. some (record { rest = []; goto_target = none; executed = xs }))
        (append_assoc executed (command_of args path (trimmed_line line))
            (commands_of args path (lines_of more))
          ∙ ap (λ lines. executed ++ commands_of args path lines) (sym e))

-- When no line of a batch file is a jump once its parameters are in place, running the file ends after at
-- most one round more than it has lines, and passes on for execution, in their order, the lines that are
-- not empty, no label and no remark, trimmed and with their parameters in place.
pub exec_batch_lem :
    (rounds : ℕ) (file : List ℕ) (args : List (List ℕ)) (path : List ℕ)
    → length (lines_of file) < rounds
    → NoJump (commands_of args path (lines_of file))
    → exec_batch rounds file args path
      ≡ some (record {
        rest = [];
        goto_target = none;
        executed = commands_of args path (lines_of file);
      })
exec_batch_lem rounds file args path lt n =
    batch_lines-commands_of rounds file args path file [] lt n

-- What follows the first label of this name.
unfoldable pub after_label : List ℕ → List (List ℕ) → Option (List (List ℕ))
after_label target [] = none
after_label target (line ∷ lines) =
    let further = after_label target lines in
    if is_label target (trimmed_line line) then some lines else further
