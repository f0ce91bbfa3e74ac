-- ===== src/Files/Tests.antt =====
-- Runs on concrete paths, and the theorems at them. 65 is A, 66 is B, 67 is C.
use idos_nx.Base.{◌≡◌, refl, true, some, List, [], ◌∷◌, arith}
use idos_nx.Base.Results.{ok}
use idos_nx.Files.Path.{
  Str, separator, colon, dot, from_str, is_drive, is_absolute, push, pop_back, pop_front,
  split_absolute_path, get_filename, get_extension,
}
use idos_nx.Files.Path.Names.{join, AreNames, push_lem}
use idos_nx.Files.Open.{Drivers, prepare_file_path}
use idos_nx.Files.Open.Named.{Absolute, on_drive, written, Opens, prepare_file_path_lem}

-- `B\A`
abbrev two_names : List Str
two_names = (65 ∷ []) ∷ (66 ∷ []) ∷ []

-- `..\C.\.`
abbrev appended : Str
appended = dot ∷ dot ∷ separator ∷ 67 ∷ dot ∷ separator ∷ dot ∷ []

abbrev after : List Str
after = (67 ∷ dot ∷ []) ∷ (66 ∷ []) ∷ []

push_lem_example :
    (push (join two_names) appended ≡ join after)
    × AreNames after
    × (get_filename (push (join two_names) appended) ≡ 67 ∷ dot ∷ [])
    × (pop_back (push (join two_names) appended) ≡ 66 ∷ [])
push_lem_example = push_lem two_names appended (refl, (refl, tt), (refl, (refl, tt), tt))

-- Drive B is driver 5.
abbrev drivers : Drivers
drivers = (5, 66 ∷ []) ∷ []

-- `B:\B\A\`
abbrev file_on_b : Absolute
file_on_b = on_drive (66 ∷ []) two_names 1

prepare_file_path_lem_example :
    Opens drivers file_on_b (prepare_file_path drivers (written file_on_b))
prepare_file_path_lem_example = prepare_file_path_lem drivers file_on_b (
  (refl, tt),
  omega arith,
  (λ e. cc),
  (refl, (refl, tt), (refl, (refl, tt), tt)),
  ((refl, tt), ((refl, tt), tt)),
)

-- It is opened by driver 5, which gets `B\A`.
opened : prepare_file_path drivers (written file_on_b) ≡ ok (5, join two_names)
unfolding prepare_file_path from_str
opened = refl

popped : pop_front (join two_names) ≡ (66 ∷ [], 65 ∷ [])
unfolding pop_front
popped = refl

-- `AB.C` in directory `A`
extension : get_extension (65 ∷ separator ∷ 65 ∷ 66 ∷ dot ∷ 67 ∷ []) ≡ some (67 ∷ [])
unfolding get_extension get_filename
extension = refl

-- A colon alone is a drive.
lone_colon : is_drive (colon ∷ []) ≡ true
unfolding is_drive
lone_colon = refl

-- `A:B:\` is absolute, and its path is then `B`.
two_colons :
    let s : Str = 65 ∷ colon ∷ 66 ∷ colon ∷ separator ∷ [] in
    (is_absolute s ≡ true) × (split_absolute_path s ≡ some (65 ∷ [], 66 ∷ []))
unfolding is_absolute split_absolute_path
two_colons = (refl, refl)
