-- ===== src/Command/Batch/Jumps.antt =====
-- components/programs/command/src/batch.rs: jumps in a batch file.
use idos_nx.Base.{
  ℕ, zero, suc, ◌+◌, ◌<◌, ◌≡◌, refl, sym, subst, ap, inl, inr, true, false, Option, none, some,
  List, [], ◌∷◌, arith, if◌then◌else◌, Bool-cases, length, take, drop,
}
use idos_nx.Command.Batch.{
  trim_leading_whitespace, starts_with_keyword, substitute_params, next_line, trimmed_line, Batch,
  goto, search_line, run_line, batch_line, batch_lines,
}
use idos_nx.Command.Batch.Lines.{lines_of, lines_of-next_line, is_skipped, is_label, after_label}

-- The search for a label in a file, when these commands have been passed on.
module _ (file : List ℕ) (args : List (List ℕ)) (path target : List ℕ)
    (executed : List (List ℕ)) where
  abbrev pub searching : List ℕ → Batch
  searching rest = record { rest = rest; goto_target = some target; executed = executed }

  abbrev pub running : List ℕ → Batch
  running rest = record { rest = rest; goto_target = none; executed = executed }

  abbrev pub lines_run : ℕ → Batch → Option Batch
  lines_run rounds s = batch_lines rounds file args path s

  -- The state behind a line that was searched.
  abbrev pub searched : List ℕ → List ℕ → Batch
  searched line rest = record {
    rest = rest;
    goto_target = if is_label target line then none else some target;
    executed = executed;
  }

  search_line-searched :
      (line rest : List ℕ) → search_line target line (searching rest) ≡ searched line rest
  search_line-searched [] rest = refl
  search_line-searched (first ∷ label) rest = elim (Bool-cases (is_label target (first ∷ label))) [
    | inl e ↦ rw e refl
    | inr e ↦ rw e refl
  ]

  lines_run-searching :
      (rounds ch : ℕ) (rest : List ℕ)
      → lines_run (suc rounds) (searching (ch ∷ rest))
        ≡ lines_run rounds
            (searched (trimmed_line (next_line (ch ∷ rest)).0) (next_line (ch ∷ rest)).1)
  unfolding batch_lines batch_line
  lines_run-searching rounds ch rest =
      ap (lines_run rounds)
        (search_line-searched (trimmed_line (next_line (ch ∷ rest)).0) (next_line (ch ∷ rest)).1)

  -- What a search comes to with so many rounds and lines before it: the end of the file with nothing
  -- passed on, or the lines behind the label, one round for each line up to it.
  abbrev pub Arrives : ℕ → ℕ → Option Batch → Option (List (List ℕ)) → Type 0
  Arrives rounds count outcome none = outcome ≡ some (searching [])
  Arrives rounds count outcome (some lines) =
      (behind : List ℕ) × (left : ℕ) × (lines_of behind ≡ lines)
      × (rounds + length lines ≡ left + count)
      × (outcome ≡ lines_run left (running behind))

  Arrives-later :
      (rounds count : ℕ) (outcome : Option Batch) (at : Option (List (List ℕ)))
      → Arrives rounds count outcome at
      → Arrives (suc rounds) (suc count) outcome at
  Arrives-later rounds count outcome none a = a
  Arrives-later rounds count outcome (some lines) (b, l, e, n, o) = (b, l, e, omega arith, o)

  -- One line of the search.
  Arrives-line :
      (rounds : ℕ) (line rest : List ℕ)
      → Arrives rounds
          (length (lines_of rest))
          (lines_run rounds (searching rest))
          (after_label target (lines_of rest))
      → Arrives
          (suc rounds)
          (length (line ∷ lines_of rest))
          (lines_run rounds (searched (trimmed_line line) rest))
          (after_label target (line ∷ lines_of rest))
  unfolding after_label
  Arrives-line rounds line rest a = elim (Bool-cases (is_label target (trimmed_line line))) [
    | inl e ↦ rw e (rest, rounds, refl, omega arith, refl)
    | inr e ↦ rw e (
        Arrives-later rounds (length (lines_of rest)) (lines_run rounds (searching rest))
          (after_label target (lines_of rest)) a)
  ]

  searching-Arrives :
      (rounds : ℕ) (rest : List ℕ)
      → length (lines_of rest) < rounds
      → Arrives rounds
          (length (lines_of rest))
          (lines_run rounds (searching rest))
          (after_label target (lines_of rest))
  unfolding batch_lines after_label lines_of
  searching-Arrives zero rest lt = absurd (omega arith)
  searching-Arrives (suc rounds) [] lt = refl
  searching-Arrives (suc rounds) (ch ∷ rest) lt =
      let line : List ℕ = (next_line (ch ∷ rest)).0 in
      let more : List ℕ = (next_line (ch ∷ rest)).1 in
      let e : lines_of (ch ∷ rest) ≡ line ∷ lines_of more = lines_of-next_line ch rest in
      let fewer : length (line ∷ lines_of more) < suc rounds =
        subst (λ lines. length lines < suc rounds) e lt in
      subst
        (λ lines.
          Arrives (suc rounds) (length lines) (lines_run (suc rounds) (searching (ch ∷ rest)))
            (after_label target lines))
        (sym e)
        (subst
          (λ outcome.
            Arrives (suc rounds) (length (line ∷ lines_of more)) outcome
              (after_label target (line ∷ lines_of more)))
          (sym (lines_run-searching rounds ch rest))
          (Arrives-line rounds line more (searching-Arrives rounds more (omega arith))))

run_line-goto :
    (file : List ℕ) (args : List (List ℕ)) (path line command : List ℕ) (ch : ℕ)
    (word rest : List ℕ) (executed : List (List ℕ))
    → is_skipped line ≡ false
    → substitute_params line args path 512 ≡ command
    → starts_with_keyword command goto ≡ true
    → trim_leading_whitespace (drop 4 command) ≡ ch ∷ word
    → run_line file args path line (record { rest = rest; goto_target = none; executed = executed })
      ≡ record { rest = file; goto_target = some (take 128 (ch ∷ word)); executed = executed }
run_line-goto file args path [] command ch word rest executed s c g w = ground (arith, s)
run_line-goto file args path (first ∷ after) command ch word rest executed s c g w =
    rw (s, c, g, w) refl

-- A line of a batch file that is a jump once its parameters are in place is followed by a search for its
-- word, cut to 128 bytes, from the start of the file. If the file has a label of that name, the run goes
-- on with the lines behind the first such label, with nothing passed on for execution in between and one
-- round taken for each line up to the label; if it has none, the run ends there. There are more rounds
-- than the file has lines.
pub goto_lem :
    (rounds : ℕ) (file : List ℕ) (args : List (List ℕ)) (path : List ℕ) (ch : ℕ) (rest : List ℕ)
    (executed : List (List ℕ)) (command : List ℕ) (first : ℕ) (word : List ℕ)
    → length (lines_of file) < rounds
    → is_skipped (trimmed_line (next_line (ch ∷ rest)).0) ≡ false
    → substitute_params (trimmed_line (next_line (ch ∷ rest)).0) args path 512 ≡ command
    → starts_with_keyword command goto ≡ true
    → trim_leading_whitespace (drop 4 command) ≡ first ∷ word
    → Arrives file args path
        (take 128 (first ∷ word))
        executed
        rounds
        (length (lines_of file))
        (batch_lines
          (suc rounds)
          file
          args
          path
          (record { rest = ch ∷ rest; goto_target = none; executed = executed }))
        (after_label (take 128 (first ∷ word)) (lines_of file))
unfolding batch_lines batch_line
goto_lem rounds file args path ch rest executed command first word lt s c g w =
    let target : List ℕ = take 128 (first ∷ word) in
    let e =
      run_line-goto file args path (trimmed_line (next_line (ch ∷ rest)).0) command first word
        (next_line (ch ∷ rest)).1 executed s c g w in
    subst
      (λ outcome.
        Arrives file args path target executed rounds (length (lines_of file)) outcome
          (after_label target (lines_of file)))
      (sym (ap (batch_lines rounds file args path) e))
      (searching-Arrives file args path target executed rounds file lt)
