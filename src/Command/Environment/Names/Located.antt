-- ===== src/Command/Environment/Names/Located.antt =====
-- components/programs/command/src/env.rs: where the full path of a file leads.
use idos_nx.Base.{
  ℕ, ◌≡◌, refl, ap, inl, inr, Bool, true, false, not, ◌||◌, none, some, List, [], ◌∷◌, ◌++◌,
  append-nil, ◌==◌, if◌then◌else◌, Bool-cases,
}
use idos_nx.Command.Environment.{this_dir, parent_dir}
use idos_nx.Command.Environment.Directories.{text, above}
use idos_nx.Command.Environment.Names.{
  drive_mark, colon_position, starts_with_drive, path_chunk, path_chunks, full_file_path,
}
use idos_nx.Files.Path.{separator, split, onto_first, same, is_empty}
use idos_nx.Command.Environment.Names.Marks.{Unmarked, AllUnmarked, drive_of, parent_path-above}

-- Whether a part of a name is a name itself.
abbrev pub is_name : List ℕ → Bool
is_name chunk = not (same chunk this_dir || same chunk parent_dir || is_empty chunk)

abbrev pub resolved : List (List ℕ) → List ℕ → List (List ℕ)
resolved dirs chunk =
    if same chunk this_dir
    then dirs
    else if same chunk parent_dir
    then above dirs
    else if is_empty chunk
    then dirs
    else chunk ∷ dirs

-- The parts but the last lead to a directory, and the last is a file in it if it is a name.
unfoldable pub located : List ℕ → List (List ℕ) → List (List ℕ) → List ℕ
located drive dirs [] = text drive dirs
located drive dirs (chunk ∷ []) =
    if is_name chunk then text drive dirs ++ chunk else text drive (resolved dirs chunk)
located drive dirs (chunk ∷ next ∷ chunks) = located drive (resolved dirs chunk) (next ∷ chunks)

above-AllUnmarked : (dirs : List (List ℕ)) → AllUnmarked dirs → AllUnmarked (above dirs)
above-AllUnmarked [] us = tt
above-AllUnmarked (dir ∷ dirs) (u, us) = us

resolved-AllUnmarked :
    (dirs : List (List ℕ)) (chunk : List ℕ)
    → AllUnmarked dirs
    → Unmarked chunk
    → AllUnmarked (resolved dirs chunk)
resolved-AllUnmarked dirs chunk us u = elim (Bool-cases (same chunk this_dir)) [
  | inl e ↦ rw e us
  | inr e ↦ elim (Bool-cases (same chunk parent_dir)) [
    | inl f ↦ rw (e, f) (above-AllUnmarked dirs us)
    | inr f ↦ elim (Bool-cases (is_empty chunk)) [
      | inl g ↦ rw (e, f, g) us
      | inr g ↦ rw (e, f, g) (u, us)
    ]
  ]
]

path_chunk-resolved :
    (letters : List ℕ) (dirs : List (List ℕ)) (chunk : List ℕ)
    → AllUnmarked dirs
    → path_chunk (text (drive_of letters) dirs) chunk true
      ≡ some (text (drive_of letters) (resolved dirs chunk))
unfolding text
path_chunk-resolved letters dirs chunk us = elim (Bool-cases (same chunk this_dir)) [
  | inl e ↦ rw e refl
  | inr e ↦ elim (Bool-cases (same chunk parent_dir)) [
    | inl f ↦ rw (e, f) (parent_path-above letters dirs us)
    | inr f ↦ elim (Bool-cases (is_empty chunk)) [
      | inl g ↦ rw (e, f, g) refl
      | inr g ↦ rw (e, f, g) refl
    ]
  ]
]

path_chunk-last :
    (letters : List ℕ) (dirs : List (List ℕ)) (chunk : List ℕ)
    → AllUnmarked dirs
    → path_chunk (text (drive_of letters) dirs) chunk false
      ≡ some (located (drive_of letters) dirs (chunk ∷ []))
unfolding located
path_chunk-last letters dirs chunk us = elim (Bool-cases (same chunk this_dir)) [
  | inl e ↦ rw e refl
  | inr e ↦ elim (Bool-cases (same chunk parent_dir)) [
    | inl f ↦ rw (e, f) (parent_path-above letters dirs us)
    | inr f ↦ elim (Bool-cases (is_empty chunk)) [
      | inl g ↦ rw (e, f, g) refl
      | inr g ↦
          rw (e, f, g) (ap (λ name. some (text (drive_of letters) dirs ++ name)) (append-nil chunk))
    ]
  ]
]

path_chunks-located :
    (letters : List ℕ) (dirs chunks : List (List ℕ))
    → AllUnmarked dirs
    → AllUnmarked chunks
    → path_chunks (text (drive_of letters) dirs) chunks
      ≡ some (located (drive_of letters) dirs chunks)
unfolding path_chunks located
path_chunks-located letters dirs [] us cs = refl
path_chunks-located letters dirs (chunk ∷ []) us cs =
    rw (path_chunks, path_chunk-last letters dirs chunk us) refl
path_chunks-located letters dirs (chunk ∷ next ∷ chunks) us (c, cs) =
    rw (path_chunks, path_chunk-resolved letters dirs chunk us)
      (path_chunks-located letters (resolved dirs chunk) (next ∷ chunks)
        (resolved-AllUnmarked dirs chunk us c) cs)

abbrev pub LacksColon : List ℕ → Type 0
LacksColon [] = Unit {0}
LacksColon (ch ∷ rest) = ((ch == drive_mark) ≡ false) × LacksColon rest

onto_first-AllUnmarked :
    (ch : ℕ) (parts : List (List ℕ))
    → (ch == separator || ch == drive_mark) ≡ false
    → AllUnmarked parts
    → AllUnmarked (onto_first ch parts)
onto_first-AllUnmarked ch [] e h = ((e, tt), tt)
onto_first-AllUnmarked ch (part ∷ parts) e (l, h) = ((e, l), h)

split-AllUnmarked : (file : List ℕ) → LacksColon file → AllUnmarked (split file separator)
split-AllUnmarked [] l = (tt, tt)
split-AllUnmarked (ch ∷ rest) (c, l) = elim (Bool-cases (ch == separator)) [
  | inl e ↦ rw e (tt, split-AllUnmarked rest l)
  | inr e ↦
      rw e (
        onto_first-AllUnmarked ch (split rest separator) (rw (e, c) refl)
          (split-AllUnmarked rest l))
]

colon_position-LacksColon : (file : List ℕ) → LacksColon file → colon_position file ≡ none
unfolding colon_position
colon_position-LacksColon [] l = refl
colon_position-LacksColon (ch ∷ rest) (e, l) = rw (e, colon_position-LacksColon rest l) refl

starts_with_drive-LacksColon : (file : List ℕ) → LacksColon file → starts_with_drive file ≡ false
unfolding starts_with_drive
starts_with_drive-LacksColon file l = rw (starts_with_drive, colon_position-LacksColon file l) refl

-- From a current directory whose drive ends in a colon, and in which no name has a colon in it, a name
-- without a colon gets its full path without a loop that has no end: the parts of the name are followed
-- one after the other from the current directory, and the last, if it is a name, is put behind the
-- directory that the others lead to.
pub full_file_path_lem :
    (letters : List ℕ) (dirs : List (List ℕ)) (file : List ℕ)
    → AllUnmarked dirs
    → LacksColon file
    → full_file_path (text (drive_of letters) dirs) file
      ≡ some (located (drive_of letters) dirs (split file separator))
unfolding full_file_path
full_file_path_lem letters dirs file us l =
    rw (full_file_path, starts_with_drive-LacksColon file l)
      (path_chunks-located letters dirs (split file separator) us (split-AllUnmarked file l))
