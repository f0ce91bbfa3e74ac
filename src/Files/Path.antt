-- ===== src/Files/Path.antt =====
-- kernel/src/files/path.rs: the path of a file. A string is its bytes; the characters that the code
-- looks for are ASCII, whose bytes are no part of any other character. `split`, `rsplit_once` and the
-- trimming are the ones of the standard library.
pub mod Names
use idos_nx.Base.{
  ℕ, ◌+◌, ◌-◌, Bool, true, false, ◌&&◌, ◌||◌, Option, none, some, List, [], ◌∷◌, ◌++◌, ltb, leb,
  ◌==◌, if◌then◌else◌, length, take, drop,
}

abbrev pub Str : Type 0
Str = List ℕ

abbrev pub separator : ℕ
separator = 92

abbrev pub colon : ℕ
colon = 58

abbrev pub dot : ℕ
dot = 46

abbrev pub is_letter : ℕ → Bool
is_letter ch = (leb 97 ch && leb ch 122) || (leb 65 ch && leb ch 90)

abbrev pub is_empty : Str → Bool
is_empty [] = true
is_empty (ch ∷ rest) = false

abbrev pub same : Str → Str → Bool
same [] [] = true
same [] (b ∷ bs) = false
same (a ∷ more) [] = false
same (a ∷ more) (b ∷ bs) = a == b && same more bs

abbrev pub trim_start_matches : Str → ℕ → Str
trim_start_matches [] c = []
trim_start_matches (ch ∷ rest) c =
    let trimmed = trim_start_matches rest c in if ch == c then trimmed else ch ∷ rest

abbrev pub trim_end_matches : Str → ℕ → Str
trim_end_matches [] c = []
trim_end_matches (ch ∷ rest) c =
    let trimmed = trim_end_matches rest c in
    if ch == c && is_empty trimmed then [] else ch ∷ trimmed

abbrev pub ends_with : Str → ℕ → Bool
ends_with [] c = false
ends_with (ch ∷ []) c = ch == c
ends_with (ch ∷ next ∷ rest) c = ends_with (next ∷ rest) c

abbrev pub onto_first : ℕ → List Str → List Str
onto_first ch [] = (ch ∷ []) ∷ []
onto_first ch (part ∷ parts) = (ch ∷ part) ∷ parts

abbrev pub split : Str → ℕ → List Str
split [] c = [] ∷ []
split (ch ∷ rest) c =
    let parts = split rest c in if ch == c then [] ∷ parts else onto_first ch parts

abbrev pub rsplit_once : Str → ℕ → Option (Str × Str)
rsplit_once [] c = none
rsplit_once (ch ∷ rest) c = elim (rsplit_once rest c) [
  | some parts ↦ some (ch ∷ parts.0, parts.1)
  | none ↦ if ch == c then some ([], rest) else none
]

unfoldable pub from_str : Str → Str
from_str s =
    let sanitized = trim_start_matches (trim_end_matches s separator) separator in
    if ends_with sanitized colon then sanitized ++ (separator ∷ []) else sanitized

-- The loop of `is_drive`, at an index of a string of some length.
unfoldable pub drive_from : ℕ → ℕ → Str → Bool
drive_from index len [] = false
drive_from index len (ch ∷ rest) =
    let more = drive_from (index + 1) len rest in
    if is_letter ch then more else if ch == colon then index + 1 == len else false

unfoldable pub is_drive : Str → Bool
unfolding drive_from
is_drive s = drive_from 0 (length s) s

-- The loop of `is_absolute`, at an index and with the last colon that was seen.
unfoldable pub absolute_from : ℕ → Option ℕ → Str → Bool
absolute_from index colon_index [] = false
absolute_from index colon_index (ch ∷ rest) =
    let further = absolute_from (index + 1) colon_index rest in
    let after_colon = absolute_from (index + 1) (some index) rest in
    if is_letter ch
    then further
    else if ch == colon
    then after_colon
    else if ch == separator
    then elim colon_index [ some i ↦ i + 1 == index && ltb 0 i | none ↦ false ]
    else false

unfoldable pub is_absolute : Str → Bool
unfolding absolute_from
is_absolute s = absolute_from 0 none s

-- The loop of `pop_back`: the index of the last separator.
unfoldable pub last_instance : ℕ → Option ℕ → Str → Option ℕ
last_instance index found [] = found
last_instance index found (ch ∷ rest) =
    last_instance (index + 1) (if ch == separator then some index else found) rest

unfoldable pub pop_back : Str → Str
unfolding last_instance
pop_back s = elim (last_instance 0 none s) [ some index ↦ take index s | none ↦ take 0 s ]

unfoldable pub push_element : Str → Str → Str
unfolding pop_back
push_element inner element =
    if is_empty element || same element (dot ∷ [])
    then inner
    else if same element (dot ∷ dot ∷ [])
    then pop_back inner
    else if is_empty inner
    then element
    else inner ++ (separator ∷ element)

unfoldable pub push_elements : Str → List Str → Str
unfolding push_element
push_elements inner [] = inner
push_elements inner (element ∷ rest) = push_elements (push_element inner element) rest

unfoldable pub push : Str → Str → Str
unfolding push_elements
push inner to_append = push_elements inner (split to_append separator)

-- The loop of `pop_front`: the index of the first separator.
unfoldable pub first_instance : ℕ → Str → Option ℕ
first_instance index [] = none
first_instance index (ch ∷ rest) =
    let further = first_instance (index + 1) rest in if ch == separator then some index else further

abbrev pub without_last : Str → Str
without_last s = take (length s - 1) s

-- The first name, and what is left of the path.
unfoldable pub pop_front : Str → Str × Str
unfolding first_instance
pop_front s = elim (first_instance 0 s) [
  | some index ↦ (without_last (take (index + 1) s), drop (index + 1) s)
  | none ↦ (s, take 0 s)
]

abbrev first_two : List Str → Option (Str × Str)
first_two [] = none
first_two (a ∷ []) = none
first_two (a ∷ b ∷ rest) = some (a, b)

unfoldable pub split_absolute_path : Str → Option (Str × Str)
split_absolute_path path_string = first_two (split path_string colon)

unfoldable pub get_filename : Str → Str
get_filename path_str = elim (rsplit_once path_str separator) [
  | some parts ↦ parts.1
  | none ↦ path_str
]

unfoldable pub get_extension : Str → Option Str
unfolding get_filename
get_extension path_str = elim (rsplit_once (get_filename path_str) dot) [
  | some parts ↦ some parts.1
  | none ↦ none
]
