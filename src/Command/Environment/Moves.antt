-- ===== src/Command/Environment/Moves.antt =====
-- components/programs/command/src/exec.rs: where `cd` leads.
use idos_nx.Base.{
  ℕ, ◌<◌, ◌≡◌, refl, sym, subst, ap, ◌∙◌, inl, inr, true, false, Option, none, some, List, [], ◌∷◌,
  ◌++◌, append_assoc, arith, ◌==◌, if◌then◌else◌, lt→ltb, Bool-cases, length, length-append,
}
use idos_nx.Base.Results.{done}
use idos_nx.Command.Environment.{
  Environment, cwd_size, pop_to_root, reset_drive, letters_then_colon, cd_chunks, cd,
}
use idos_nx.Command.Environment.Buffer.{through_separator-LacksSeparator}
use idos_nx.Files.Path.{separator, split}
use idos_nx.Files.Path.Names.{LacksSeparator, split-AllLackSeparator}
use idos_nx.Command.Environment.Directories.{text, IsPlace, walk, at_place, walk-refines}

-- The drive and the names that `cd` leads to.
abbrev pub moved : List ℕ → List (List ℕ) → Option (List ℕ) → List ℕ × List (List ℕ)
moved drive dirs none = (drive, [])
moved drive dirs (some []) = (drive, dirs)
moved drive dirs (some (ch ∷ rest)) =
    if ch == separator
    then (drive, dirs)
    else if letters_then_colon ch rest
    then (ch ∷ rest, [])
    else (drive, walk drive dirs (split (ch ∷ rest) separator))

-- Nothing, or an argument with at least one byte that would fit the buffer as a drive.
abbrev pub IsArgument : Option (List ℕ) → Type 0
IsArgument none = Unit {0}
IsArgument (some arg) = (0 < length arg) × (length arg < cwd_size)

text-root :
    (drive : List ℕ) (dirs : List (List ℕ))
    → (rest : List ℕ) × (text drive dirs ≡ drive ++ (separator ∷ rest))
unfolding text
text-root drive [] = ([], refl)
text-root drive (dir ∷ dirs) =
    let (rest, e) = text-root drive dirs in
    (
      rest ++ (dir ++ (separator ∷ [])),
      rw e (append_assoc drive (separator ∷ rest) (dir ++ (separator ∷ []))),
    )

pop_to_root-text :
    (drive : List ℕ) (dirs : List (List ℕ)) (prompt : List ℕ)
    → LacksSeparator drive
    → pop_to_root (at_place drive dirs prompt) ≡ at_place drive [] prompt
unfolding pop_to_root text
pop_to_root-text drive dirs prompt l =
    let (rest, e) = text-root drive dirs in
    rw (e, pop_to_root, through_separator-LacksSeparator drive rest l) refl

root-IsPlace : (drive : List ℕ) → LacksSeparator drive → length drive < cwd_size → IsPlace drive []
unfolding text
root-IsPlace drive l lt = let len = length-append drive (separator ∷ []) in (l, tt, omega arith)

letters_then_colon-LacksSeparator :
    (ch : ℕ) (rest : List ℕ) → letters_then_colon ch rest ≡ true → LacksSeparator (ch ∷ rest)
unfolding letters_then_colon
letters_then_colon-LacksSeparator ch [] e = (ground (arith, e), tt)
letters_then_colon-LacksSeparator ch (next ∷ rest) e =
    (ground (arith, e), letters_then_colon-LacksSeparator next rest (ground (arith, e)))

length-text : (drive : List ℕ) (dirs : List (List ℕ)) → length drive < length (text drive dirs)
length-text drive dirs =
    let (rest, e) = text-root drive dirs in
    let len = length-append drive (separator ∷ rest) in
    subst (λ bytes. length drive < length bytes) (sym e) (omega arith)

reset_drive-root :
    (env : Environment) (drive : List ℕ)
    → length drive < cwd_size
    → reset_drive env drive ≡ done (at_place drive [] env.prompt_fmt)
unfolding text
reset_drive-root env drive lt = rw (lt→ltb (length drive) cwd_size lt) refl

cd-walk :
    (env : Environment) (ch : ℕ) (rest : List ℕ)
    → (ch == separator) ≡ false
    → letters_then_colon ch rest ≡ false
    → cd env (some (ch ∷ rest)) ≡ done (cd_chunks env (split (ch ∷ rest) separator))
unfolding cd
cd-walk env ch rest e f = rw (e, f) refl

moved-walk :
    (drive : List ℕ) (dirs : List (List ℕ)) (ch : ℕ) (rest : List ℕ)
    → (ch == separator) ≡ false
    → letters_then_colon ch rest ≡ false
    → moved drive dirs (some (ch ∷ rest)) ≡ (drive, walk drive dirs (split (ch ∷ rest) separator))
moved-walk drive dirs ch rest e f = rw (e, f) refl

abbrev pub MovesTo :
    List ℕ → List (List ℕ) → List ℕ → Option (List ℕ) → List ℕ × List (List ℕ) → Type 0
MovesTo drive dirs prompt arg (drive', dirs') =
    (cd (at_place drive dirs prompt) arg ≡ done (at_place drive' dirs' prompt))
    × IsPlace drive' dirs'

-- The current directory is a drive and a stack of names, each with a separator behind it, in a buffer of
-- 256 bytes. From such a place `cd` ends without a panic at such a place: without an argument at the root
-- of the drive; with an argument that starts with a separator where it was; with a drive at its root; and
-- else where the parts of the argument lead, one after the other: `.` nowhere, `..` to the directory above
-- if there is one, any other to the directory below of that name if that fits the buffer. The argument has
-- at least one byte and fewer than 256.
pub cd_lem :
    (drive : List ℕ) (dirs : List (List ℕ)) (prompt : List ℕ) (arg : Option (List ℕ))
    → IsPlace drive dirs
    → IsArgument arg
    → MovesTo drive dirs prompt arg (moved drive dirs arg)
unfolding cd
cd_lem drive dirs prompt none (l, ls, fits) a =
    let lt = length-text drive dirs in
    (ap done (pop_to_root-text drive dirs prompt l), root-IsPlace drive l (omega arith))
cd_lem drive dirs prompt (some []) h a = absurd (omega arith)
cd_lem drive dirs prompt (some (ch ∷ rest)) h (pos, lt) = elim (Bool-cases (ch == separator)) [
  | inl e ↦ rw e (refl, h)
  | inr e ↦ elim (Bool-cases (letters_then_colon ch rest)) [
    | inl f ↦
        rw (e, f)
          (
            reset_drive-root (at_place drive dirs prompt) (ch ∷ rest) lt,
            root-IsPlace (ch ∷ rest) (letters_then_colon-LacksSeparator ch rest f) lt,
          )
    | inr f ↦
        let (p, q) =
          walk-refines drive dirs (split (ch ∷ rest) separator) prompt
            (split-AllLackSeparator (ch ∷ rest)) h in
        subst (MovesTo drive dirs prompt (some (ch ∷ rest)))
          (sym (moved-walk drive dirs ch rest e f))
          (cd-walk (at_place drive dirs prompt) ch rest e f ∙ ap done p, q)
  ]
]
