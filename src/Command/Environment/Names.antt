-- ===== src/Command/Environment/Names.antt =====
-- components/programs/command/src/env.rs: `full_file_path`, the path of a file that the current directory
-- makes absolute. A string is its bytes, and taking characters off its end stops at the same place.
pub mod Located
pub mod Marks
use idos_nx.Base.{
  ℕ, suc, ◌+◌, ◌-◌, Bool, true, false, ◌&&◌, ◌||◌, Option, none, some, List, [], ◌∷◌, ◌++◌, ltb,
  ◌==◌, if◌then◌else◌, length, get_or, take,
}
use idos_nx.Command.Environment.{is_letter, this_dir, parent_dir}
use idos_nx.Files.Path.{separator, split, same, is_empty, ends_with}

abbrev pub drive_mark : ℕ
drive_mark = b':'

-- The index of the first colon.
unfoldable pub colon_position : List ℕ → Option ℕ
colon_position [] = none
colon_position (ch ∷ rest) =
    let further = colon_position rest in
    if ch == drive_mark then some 0 else elim further [ some i ↦ some (suc i) | none ↦ none ]

unfoldable pub all_letters : List ℕ → Bool
all_letters [] = true
all_letters (ch ∷ rest) = let further = all_letters rest in is_letter ch && further

-- Letters, a colon and a separator come first.
unfoldable pub starts_with_drive : List ℕ → Bool
unfolding colon_position all_letters
starts_with_drive file = elim (colon_position file) [
  | none ↦ false
  | some i ↦ ltb 0 i && all_letters (take i file) && get_or file (i + 1) 0 == separator
]

-- What is left when bytes are taken off the end up to a separator or a colon; with neither, the loop has
-- no end.
unfoldable pub through_mark : List ℕ → Option (List ℕ)
through_mark [] = none
through_mark (ch ∷ rest) = elim (through_mark rest) [
  | some bytes ↦ some (ch ∷ bytes)
  | none ↦ if ch == separator || ch == drive_mark then some (ch ∷ []) else none
]

abbrev pub parent_path : List ℕ → Option (List ℕ)
parent_path full_path =
    if ltb (length full_path) 2
    then some full_path
    else elim (through_mark (take (length full_path - 1) full_path)) [
      | none ↦ none
      | some bytes ↦ some (if ends_with bytes drive_mark then bytes ++ (separator ∷ []) else bytes)
    ]

-- A part of the name, and whether another follows.
abbrev pub path_chunk : List ℕ → List ℕ → Bool → Option (List ℕ)
path_chunk full_path chunk more =
    if same chunk this_dir
    then some full_path
    else if same chunk parent_dir
    then parent_path full_path
    else if is_empty chunk
    then some full_path
    else some (full_path ++ (chunk ++ (if more then separator ∷ [] else [])))

abbrev pub is_some_chunk : List (List ℕ) → Bool
is_some_chunk [] = false
is_some_chunk (chunk ∷ chunks) = true

unfoldable pub path_chunks : List ℕ → List (List ℕ) → Option (List ℕ)
unfolding through_mark
path_chunks full_path [] = some full_path
path_chunks full_path (chunk ∷ chunks) = elim (path_chunk full_path chunk (is_some_chunk chunks)) [
  | none ↦ none
  | some further ↦ path_chunks further chunks
]

unfoldable pub full_file_path : List ℕ → List ℕ → Option (List ℕ)
unfolding starts_with_drive path_chunks
full_file_path cwd file =
    if starts_with_drive file then some file else path_chunks cwd (split file separator)
