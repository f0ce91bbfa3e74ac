-- ===== src/Command/Environment.antt =====
-- components/programs/command/src/env.rs, and `cd` of exec.rs: the current directory and the prompt. A
-- buffer with its length is the bytes before that length. The handles and the offset of the output are
-- left out.
pub mod Buffer
pub mod Directories
pub mod Moves
pub mod Names
pub mod Prompt
use idos_nx.Base.{
  ℕ, zero, suc, ◌+◌, ◌-◌, Bool, false, ◌&&◌, ◌||◌, Option, none, some, List, [], ◌∷◌, ◌++◌, ltb,
  leb, ◌==◌, if◌then◌else◌, length, get_or, take,
}
use idos_nx.Base.Results.{Outcome, done, panic, ◌>>=◌}
use idos_nx.Files.Path.{separator, split, same}

abbrev pub cwd_size : ℕ
cwd_size = 256

abbrev pub prompt_size : ℕ
prompt_size = 128

pub record Environment : Type 0 where
  pub cwd : List ℕ
  pub prompt_fmt : List ℕ

abbrev pub new : List ℕ → Outcome Environment
new drive =
    if ltb (length drive) cwd_size
    then done
        (record { cwd = drive ++ (separator ∷ []); prompt_fmt = b'$' ∷ b'P' ∷ b'$' ∷ b'G' ∷ [] })
    else panic

-- What it writes into a buffer, and what it returns.
abbrev pub put_cwd : Environment → ℕ → List ℕ × ℕ
put_cwd env room = (take room env.cwd, length env.cwd)

abbrev pub pushd : Environment → List ℕ → Environment
pushd env dir =
    if ltb (length env.cwd + length dir + 1) cwd_size
    then record env { cwd = env.cwd ++ (dir ++ (separator ∷ [])) }
    else env

-- The loop of `popd`, down from an index.
unfoldable pub separator_below : List ℕ → ℕ → ℕ
separator_below cwd zero = zero
separator_below cwd (suc i) =
    let further = separator_below cwd i in
    if get_or cwd (suc i) 0 == separator then suc i else further

unfoldable pub popd : Environment → Environment
unfolding separator_below
popd env =
    if ltb (length env.cwd) 2
    then env
    else let i = separator_below env.cwd (length env.cwd - 2) in
      if get_or env.cwd i 0 == separator then record env { cwd = take (i + 1) env.cwd } else env

-- The bytes up to the first separator, with it.
unfoldable pub through_separator : List ℕ → Option (List ℕ)
through_separator [] = none
through_separator (ch ∷ rest) =
    let further = through_separator rest in
    if ch == separator
    then some (ch ∷ [])
    else elim further [ some bytes ↦ some (ch ∷ bytes) | none ↦ none ]

unfoldable pub pop_to_root : Environment → Environment
unfolding through_separator
pop_to_root env = elim (through_separator env.cwd) [
  | some root ↦ record env { cwd = root }
  | none ↦ env
]

abbrev pub reset_drive : Environment → List ℕ → Outcome Environment
reset_drive env drive =
    if ltb (length drive) cwd_size
    then done (record env { cwd = drive ++ (separator ∷ []) })
    else panic

abbrev pub set_prompt : Environment → List ℕ → Environment
set_prompt env fmt = record env { prompt_fmt = take prompt_size fmt }

abbrev pub is_letter : ℕ → Bool
is_letter ch = (leb b'A' ch && leb ch b'Z') || (leb b'a' ch && leb ch b'z')

-- The test of the bytes of a drive, the last of which is the colon.
unfoldable pub letters_then_colon : ℕ → List ℕ → Bool
letters_then_colon ch [] = ch == b':'
letters_then_colon ch (next ∷ rest) =
    let further = letters_then_colon next rest in if is_letter ch then further else false

-- With no byte its length less one is out of range.
abbrev pub is_drive : List ℕ → Outcome Bool
is_drive [] = panic
is_drive (ch ∷ rest) = done (letters_then_colon ch rest)

abbrev pub this_dir : List ℕ
this_dir = b'.' ∷ []

abbrev pub parent_dir : List ℕ
parent_dir = b'.' ∷ b'.' ∷ []

abbrev pub cd_chunk : Environment → List ℕ → Environment
cd_chunk env chunk =
    if same chunk this_dir then env else if same chunk parent_dir then popd env else pushd env chunk

unfoldable pub cd_chunks : Environment → List (List ℕ) → Environment
unfolding popd
cd_chunks env [] = env
cd_chunks env (chunk ∷ chunks) = cd_chunks (cd_chunk env chunk) chunks

abbrev pub starts_with_separator : List ℕ → Bool
starts_with_separator [] = false
starts_with_separator (ch ∷ rest) = ch == separator

-- With its first argument, if there is one.
unfoldable pub cd : Environment → Option (List ℕ) → Outcome Environment
unfolding cd_chunks pop_to_root letters_then_colon
cd env none = done (pop_to_root env)
cd env (some arg) =
    if starts_with_separator arg
    then done env
    else is_drive arg >>= (λ drive.
      if drive then reset_drive env arg else done (cd_chunks env (split arg separator)))
