-- ===== src/Files/Open/Named.antt =====
-- kernel/src/io/mod.rs: what `prepare_file_path` opens, by the names in an absolute path.
use idos_nx.Base.{
  ℕ, ◌+◌, ◌<◌, ◌≡◌, refl, sym, subst, ap, ap₂, ◌∙◌, ◌≢◌, inl, inr, true, false, Option, none, some,
  List, [], ◌∷◌, ◌++◌, append-nil, arith, ltb, if◌then◌else◌, Bool-cases, length, drop,
}
use idos_nx.Base.Results.{Result, ok, err}
use idos_nx.Io.Error.{IoError, not_found}
use idos_nx.Files.Path.{
  Str, separator, colon, is_letter, same, split, is_absolute, absolute_from, split_absolute_path,
  from_str,
}
use idos_nx.Files.Path.Names.{AreNames, join}
use idos_nx.Files.Open.Trimmed.{
  LacksColon, AllLackColon, separators, from_str-join, LacksColon-path,
}
use idos_nx.Files.Open.{Drivers, get_driver_id_by_name, dev, driver_of, prepare_file_path}

abbrev pub Letters : Str → Type 0
Letters [] = Unit {0}
Letters (ch ∷ rest) = (is_letter ch ≡ true) × Letters rest

-- The letters of the drive are read over.
absolute_from-drive :
    (drive rest : Str) (index : ℕ)
    → Letters drive
    → 0 < index + length drive
    → absolute_from index none (drive ++ (colon ∷ separator ∷ rest)) ≡ true
unfolding absolute_from
absolute_from-drive [] rest index l h = ground arith
absolute_from-drive (ch ∷ more) rest index (l, ls) h =
    rw l (absolute_from-drive more rest (index + 1) ls (omega arith))

LacksColon-Letters : (s : Str) → Letters s → LacksColon s
LacksColon-Letters [] l = tt
LacksColon-Letters (ch ∷ rest) (l, ls) = (ground arith, LacksColon-Letters rest ls)

split-colon :
    (s rest : Str) → LacksColon s → split (s ++ (colon ∷ rest)) colon ≡ s ∷ split rest colon
split-colon [] rest l = refl
split-colon (ch ∷ more) rest (l, ls) = rw (l, split-colon more rest ls) refl

split-last : (s : Str) → LacksColon s → split s colon ≡ s ∷ []
split-last [] l = refl
split-last (ch ∷ more) (l, ls) = rw (l, split-last more ls) refl

-- The two tests on strings are equality.
same_refl : (s : Str) → same s s ≡ true
same_refl [] = refl
same_refl (ch ∷ rest) = rw (same_refl rest) (ground arith)

same-eq : (s other : Str) → same s other ≡ true → s ≡ other
same-eq [] [] e = refl
same-eq [] (b ∷ bs) e = absurd (ground (arith, e))
same-eq (a ∷ more) [] e = absurd (ground (arith, e))
same-eq (a ∷ more) (b ∷ bs) e =
    let head_eq : a ≡ b = ground (arith, e) in
    let tail_eq : same more bs ≡ true = ground (arith, e) in
    ap₂ (λ x xs. x ∷ xs) head_eq (same-eq more bs tail_eq)

same-ne : (s other : Str) → s ≢ other → same s other ≡ false
same-ne s other ne = elim (Bool-cases (same s other)) [
  | inl e ↦ absurd (ne (same-eq s other e))
  | inr e ↦ e
]

-- The first driver of this name, or that no driver has it.
pub data Installed (name : Str) : Drivers → Option ℕ → Type 0 where
  nobody : Installed name [] none
  here : (id : ℕ) (more : Drivers) → Installed name ((id, name) ∷ more) (some id)
  later :
      (id : ℕ) (other : Str) (more : Drivers) (found : Option ℕ)
      → other ≢ name
      → Installed name more found
      → Installed name ((id, other) ∷ more) found

get_driver_id_by_name-Installed :
    (drivers : Drivers) (name : Str) → Installed name drivers (get_driver_id_by_name drivers name)
get_driver_id_by_name-Installed [] name = nobody
get_driver_id_by_name-Installed ((id, other) ∷ more) name = elim (Bool-cases (same other name)) [
  | inl e ↦ rw e (
      subst (λ s. Installed name ((id, s) ∷ more) (some id)) (sym (same-eq other name e))
        (here id more))
  | inr e ↦ rw e (
      later id other more (get_driver_id_by_name more name)
        (λ eq. absurd (ground (arith, e, same_refl name, ap (λ s. same s name) eq)))
        (get_driver_id_by_name-Installed more name))
]

-- What an absolute path names: a file by the names below a drive, the last one first, with so many
-- separators behind them; a device by its name; or the directory of the devices.
pub data Absolute : Type 0 where
  on_drive : Str → List Str → ℕ → Absolute
  on_device : Str → Absolute
  all_devices : Absolute

abbrev pub written : Absolute → Str
written (on_drive drive stack n) = drive ++ (colon ∷ separator ∷ (join stack ++ separators n))
written (on_device name) = dev ++ (colon ∷ separator ∷ name)
written all_devices = dev ++ (colon ∷ separator ∷ [])

-- A drive has letters and is not the one of the devices; a name has no separator and no colon.
abbrev pub IsAbsolute : Absolute → Type 0
IsAbsolute (on_drive drive stack n) =
    Letters drive × (0 < length drive) × (drive ≢ dev) × AreNames stack × AllLackColon stack
IsAbsolute (on_device name) = AreNames (name ∷ []) × LacksColon name
IsAbsolute all_devices = Unit {0}

-- The driver that is asked, and the path it is given.
pub data Opens (drivers : Drivers) : Absolute → Result (ℕ × Str) IoError → Type 0 where
  file :
      (drive : Str) (stack : List Str) (n id : ℕ)
      → Installed drive drivers (some id)
      → Opens drivers (on_drive drive stack n) (ok (id, join stack))
  no_drive :
      (drive : Str) (stack : List Str) (n : ℕ)
      → Installed drive drivers none
      → Opens drivers (on_drive drive stack n) (err not_found)
  device :
      (name : Str) (id : ℕ)
      → Installed name drivers (some id)
      → Opens drivers (on_device name) (ok (id, name))
  no_device :
      (name : Str) → Installed name drivers none → Opens drivers (on_device name) (err not_found)
  devices : Opens drivers all_devices (ok (0, []))

-- The path comes apart at the colon of the drive.
prepare_file_path-parts :
    (drivers : Drivers) (drive names : Str)
    → Letters drive
    → 0 < length drive
    → LacksColon names
    → prepare_file_path drivers (drive ++ (colon ∷ separator ∷ names))
      ≡ elim (driver_of drivers drive (separator ∷ names)) [
        | some driver_id ↦ ok (driver_id, from_str (separator ∷ names))
        | none ↦ err not_found
      ]
unfolding prepare_file_path is_absolute split_absolute_path
prepare_file_path-parts drivers drive names l h n =
    rw
      (
        absolute_from-drive drive names 0 l (omega arith),
        split-colon drive (separator ∷ names) (LacksColon-Letters drive l),
        split-last names n,
      )
      refl

abbrev answer : Option ℕ → Str → Result (ℕ × Str) IoError
answer found path = elim found [ some id ↦ ok (id, path) | none ↦ err not_found ]

Opens-drive :
    (drivers : Drivers) (drive : Str) (stack : List Str) (n : ℕ) (found : Option ℕ)
    → Installed drive drivers found
    → Opens drivers (on_drive drive stack n) (answer found (join stack))
Opens-drive drivers drive stack n none i = no_drive drive stack n i
Opens-drive drivers drive stack n (some id) i = file drive stack n id i

Opens-device :
    (drivers : Drivers) (name : Str) (found : Option ℕ)
    → Installed name drivers found
    → Opens drivers (on_device name) (answer found name)
Opens-device drivers name none i = no_device name i
Opens-device drivers name (some id) i = device name id i

driver_of-drive :
    (drivers : Drivers) (drive path : Str)
    → drive ≢ dev
    → driver_of drivers drive path ≡ get_driver_id_by_name drivers drive
driver_of-drive drivers drive path ne =
    ap
      (λ b.
        if b
        then if ltb 1 (length path) then get_driver_id_by_name drivers (drop 1 path) else some 0
        else get_driver_id_by_name drivers drive)
      (same-ne drive dev ne)

driver_of-device :
    (drivers : Drivers) (ch : ℕ) (name : Str)
    → driver_of drivers dev (separator ∷ ch ∷ name) ≡ get_driver_id_by_name drivers (ch ∷ name)
driver_of-device drivers ch name =
    let long : ltb 1 (length (separator ∷ ch ∷ name)) ≡ true = ground arith in rw long refl

from_str-name :
    (name : Str) → AreNames (name ∷ []) → LacksColon name → from_str (separator ∷ name) ≡ name
from_str-name name h c =
    ap (λ s. from_str (separator ∷ s)) (sym (append-nil name))
    ∙ from_str-join (name ∷ []) 0 h (c, tt)

-- An absolute path is opened by what it names. The names below a drive of letters other than DEV, without
-- empty names, colons or separators in them, are opened by the first driver installed under the name of the
-- drive, and it gets the names without the separators around them. One such name below DEV is opened by the
-- first driver installed under that name, which gets that name. Neither is found if no driver has the
-- name. The path DEV:\ goes to driver 0 with the empty path.
pub prepare_file_path_lem :
    (drivers : Drivers) (path : Absolute)
    → IsAbsolute path
    → Opens drivers path (prepare_file_path drivers (written path))
prepare_file_path_lem drivers (on_drive drive stack n) (l, pos, ne, h, c) =
    let names : Str = join stack ++ separators n in
    subst (Opens drivers (on_drive drive stack n))
      (sym (
        prepare_file_path-parts drivers drive names l pos (LacksColon-path stack n c)
        ∙ ap₂ answer (driver_of-drive drivers drive (separator ∷ names) ne)
            (from_str-join stack n h c)))
      (Opens-drive drivers drive stack n (get_driver_id_by_name drivers drive)
        (get_driver_id_by_name-Installed drivers drive))
prepare_file_path_lem drivers (on_device []) (h, c) = absurd (ground (arith, h.0))
prepare_file_path_lem drivers (on_device (ch ∷ name)) (h, c) =
    subst (Opens drivers (on_device (ch ∷ name)))
      (sym (
        prepare_file_path-parts drivers dev (ch ∷ name) (refl, (refl, (refl, tt))) (omega arith) c
        ∙ ap₂ answer (driver_of-device drivers ch name) (from_str-name (ch ∷ name) h c)))
      (Opens-device drivers (ch ∷ name) (get_driver_id_by_name drivers (ch ∷ name))
        (get_driver_id_by_name-Installed drivers (ch ∷ name)))
prepare_file_path_lem drivers all_devices h =
    subst (Opens drivers all_devices)
      (sym (
        prepare_file_path-parts drivers dev [] (refl, (refl, (refl, tt))) (omega arith) tt
        ∙ ap (λ s. ok (0, s)) (from_str-join [] 0 tt tt)))
      devices
