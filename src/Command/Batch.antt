-- ===== src/Command/Batch.antt =====
-- components/programs/command/src/batch.rs: batch files. What is left of the file is its bytes from `pos`
-- on, and the run keeps the lines that it passed to `exec_line`, in order.
pub mod Expansion
pub mod Jumps
pub mod Lines
use idos_nx.Base.{
  ℕ, zero, suc, ◌+◌, ◌-◌, ◌/◌, ◌%◌, Bool, true, false, ◌&&◌, ◌||◌, Option, none, some, List, [],
  ◌∷◌, ◌++◌, leb, ◌==◌, if◌then◌else◌, length, get_or, take, drop,
}

abbrev pub is_blank : ℕ → Bool
is_blank ch = ch == b' ' || ch == 9

unfoldable pub trim_leading_whitespace : List ℕ → List ℕ
trim_leading_whitespace [] = []
trim_leading_whitespace (ch ∷ rest) =
    let further = trim_leading_whitespace rest in if is_blank ch then further else ch ∷ rest

-- A letter with the bit of 0x20 set, and any other byte.
abbrev pub lower : ℕ → ℕ
lower ch =
    if (leb b'A' ch && leb ch b'Z') || (leb b'a' ch && leb ch b'z')
    then (if (ch / 32) % 2 == 1 then ch else ch + 32)
    else ch

unfoldable pub starts_with_keyword : List ℕ → List ℕ → Bool
starts_with_keyword [] [] = true
starts_with_keyword (ch ∷ line) [] = is_blank ch
starts_with_keyword [] (k ∷ keyword) = false
starts_with_keyword (ch ∷ line) (k ∷ keyword) =
    let further = starts_with_keyword line keyword in if lower ch == lower k then further else false

abbrev is_nil : List ℕ → Bool
is_nil [] = true
is_nil (ch ∷ rest) = false

unfoldable pub trim_trailing : List ℕ → List ℕ
trim_trailing [] = []
trim_trailing (ch ∷ rest) =
    let further = trim_trailing rest in if is_blank ch && is_nil further then [] else ch ∷ further

unfoldable pub eq_ignore_case : List ℕ → List ℕ → Bool
eq_ignore_case [] [] = true
eq_ignore_case [] (y ∷ b) = false
eq_ignore_case (x ∷ a) [] = false
eq_ignore_case (x ∷ a) (y ∷ b) =
    let further = eq_ignore_case a b in if lower x == lower y then further else false

abbrev pub ascii_eq_ignore_case : List ℕ → List ℕ → Bool
ascii_eq_ignore_case a b = eq_ignore_case (trim_trailing a) b

abbrev pub is_digit : ℕ → Bool
is_digit ch = leb b'0' ch && leb ch b'9'

-- What stands for a percent sign and this digit.
abbrev pub replacement : List (List ℕ) → List ℕ → ℕ → List ℕ
replacement args path digit =
    let idx = digit - b'0' in if idx == 0 then path else get_or args (idx - 1) []

-- `line[r..]` into the last `room` bytes of `out`.
unfoldable pub substitute_params : List ℕ → List (List ℕ) → List ℕ → ℕ → List ℕ
substitute_params line args path zero = []
substitute_params [] args path (suc room) = []
substitute_params (ch ∷ []) args path (suc room) = ch ∷ []
substitute_params (ch ∷ digit ∷ rest) args path (suc room) =
    let bytes = take (suc room) (replacement args path digit) in
    let behind = substitute_params rest args path (suc room - length bytes) in
    let further = substitute_params (digit ∷ rest) args path room in
    if ch == b'%' && is_digit digit then bytes ++ behind else ch ∷ further

-- The line up to its end, and what follows the end.
unfoldable pub next_line : List ℕ → List ℕ × List ℕ
next_line [] = ([], [])
next_line (ch ∷ rest) =
    let further = next_line rest in if ch == 10 then ([], rest) else (ch ∷ further.0, further.1)

unfoldable pub strip_return : List ℕ → List ℕ
strip_return [] = []
strip_return (ch ∷ []) = if ch == 13 then [] else ch ∷ []
strip_return (ch ∷ next ∷ rest) = ch ∷ strip_return (next ∷ rest)

pub record Batch : Type 0 where
  pub rest : List ℕ
  pub goto_target : Option (List ℕ)
  pub executed : List (List ℕ)

abbrev pub rem : List ℕ
rem = b'R' ∷ b'E' ∷ b'M' ∷ []

abbrev pub goto : List ℕ
goto = b'G' ∷ b'O' ∷ b'T' ∷ b'O' ∷ []

-- A line that the search for a label comes to.
abbrev pub search_line : List ℕ → List ℕ → Batch → Batch
search_line target [] s = s
search_line target (first ∷ label) s =
    if first == b':' && ascii_eq_ignore_case (trim_leading_whitespace label) target
    then record s { goto_target = none }
    else s

-- A line with its parameters in place.
abbrev pub dispatch : List ℕ → List ℕ → Batch → Batch
dispatch file expanded s =
    if starts_with_keyword expanded goto
    then (elim (trim_leading_whitespace (drop 4 expanded)) [
      | [] ↦ s
      | first ∷ after ↦ record s { rest = file; goto_target = some (take 128 (first ∷ after)) }
    ])
    else record s { executed = s.executed ++ (expanded ∷ []) }

-- A line that is run.
abbrev pub run_line : List ℕ → List (List ℕ) → List ℕ → List ℕ → Batch → Batch
run_line file args path [] s = s
run_line file args path (first ∷ after) s =
    if first == b':' || starts_with_keyword (first ∷ after) rem
    then s
    else dispatch file (substitute_params (first ∷ after) args path 512) s

abbrev pub trimmed_line : List ℕ → List ℕ
trimmed_line line = trim_leading_whitespace (strip_return line)

-- One round of the loop of `exec_batch`.
unfoldable pub batch_line : List ℕ → List (List ℕ) → List ℕ → Batch → Batch
unfolding trim_leading_whitespace starts_with_keyword trim_trailing eq_ignore_case substitute_params
    next_line strip_return
batch_line file args path s =
    let (line, rest) = next_line s.rest in
    let s' = record s { rest = rest } in
    elim s.goto_target [
      | some target ↦ search_line target (trimmed_line line) s'
      | none ↦ run_line file args path (trimmed_line line) s'
    ]

-- The loop, for at most so many rounds.
unfoldable pub batch_lines : ℕ → List ℕ → List (List ℕ) → List ℕ → Batch → Option Batch
unfolding batch_line
batch_lines zero file args path s = none
batch_lines (suc rounds) file args path s = elim s.rest [
  | [] ↦ some s
  | ch ∷ rest ↦ batch_lines rounds file args path (batch_line file args path s)
]

abbrev pub exec_batch : ℕ → List ℕ → List (List ℕ) → List ℕ → Option Batch
exec_batch rounds file args path =
    batch_lines rounds file args path (record { rest = file; goto_target = none; executed = [] })
