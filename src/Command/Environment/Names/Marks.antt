-- ===== src/Command/Environment/Names/Marks.antt =====
-- components/programs/command/src/env.rs: taking bytes off a path up to a mark.
use idos_nx.Base.{
  ℕ, suc, ◌-◌, ◌≡◌, refl, sym, ap, ◌∙◌, true, false, ◌||◌, none, some, List, [], ◌∷◌, ◌++◌,
  append_assoc, arith, ltb, ◌==◌, if◌then◌else◌, length, length-append, take,
}
use idos_nx.Command.Environment.Directories.{text, above, text-separator}
use idos_nx.Command.Environment.Names.{drive_mark, through_mark, parent_path}
use idos_nx.Files.Path.{separator, ends_with}

-- Neither a separator nor a colon is in it.
abbrev pub Unmarked : List ℕ → Type 0
Unmarked [] = Unit {0}
Unmarked (ch ∷ rest) = ((ch == separator || ch == drive_mark) ≡ false) × Unmarked rest

abbrev pub AllUnmarked : List (List ℕ) → Type 0
AllUnmarked [] = Unit {0}
AllUnmarked (name ∷ names) = Unmarked name × AllUnmarked names

through_mark-Unmarked : (name : List ℕ) → Unmarked name → through_mark name ≡ none
unfolding through_mark
through_mark-Unmarked [] u = refl
through_mark-Unmarked (ch ∷ name) (e, u) = rw (through_mark-Unmarked name u, e) refl

through_mark-append :
    (before : List ℕ) (mark : ℕ) (name : List ℕ)
    → (mark == separator || mark == drive_mark) ≡ true
    → Unmarked name
    → through_mark (before ++ (mark ∷ name)) ≡ some (before ++ (mark ∷ []))
unfolding through_mark
through_mark-append [] mark name e u = rw (through_mark-Unmarked name u, e) refl
through_mark-append (ch ∷ before) mark name e u = rw (through_mark-append before mark name e u) refl

ends_with-append :
    (before : List ℕ) (mark c : ℕ) → ends_with (before ++ (mark ∷ [])) c ≡ (mark == c)
ends_with-append [] mark c = refl
ends_with-append (ch ∷ []) mark c = refl
ends_with-append (ch ∷ next ∷ before) mark c = ends_with-append (next ∷ before) mark c

take-without_last :
    (bytes : List ℕ) (c : ℕ) → take (length (bytes ++ (c ∷ [])) - 1) (bytes ++ (c ∷ [])) ≡ bytes
take-without_last [] c = refl
take-without_last (ch ∷ bytes) c =
    let len = length-append bytes (c ∷ []) in
    let e : suc (length (bytes ++ (c ∷ []))) - 1 ≡ suc (length (bytes ++ (c ∷ [])) - 1) =
      omega arith in
    ap (λ n. take n (ch ∷ (bytes ++ (c ∷ [])))) e ∙ ap (λ xs. ch ∷ xs) (take-without_last bytes c)

-- One byte is taken off, and then those up to the mark.
parent_path-mark :
    (before : List ℕ) (mark : ℕ) (name : List ℕ) (c : ℕ)
    → (mark == separator || mark == drive_mark) ≡ true
    → Unmarked name
    → parent_path ((before ++ (mark ∷ name)) ++ (c ∷ []))
      ≡ some (
          if mark == drive_mark
          then (before ++ (mark ∷ [])) ++ (separator ∷ [])
          else before ++ (mark ∷ []))
parent_path-mark before mark name c e u =
    let len = length-append (before ++ (mark ∷ name)) (c ∷ []) in
    let inner = length-append before (mark ∷ name) in
    let big : ltb (length ((before ++ (mark ∷ name)) ++ (c ∷ []))) 2 ≡ false =
      ground (arith, len, inner) in
    rw
      (
        big,
        take-without_last (before ++ (mark ∷ name)) c,
        through_mark-append before mark name e u,
        ends_with-append before mark drive_mark,
      )
      refl

-- A drive is a name with a colon behind it.
abbrev pub drive_of : List ℕ → List ℕ
drive_of letters = letters ++ (drive_mark ∷ [])

pub parent_path-above :
    (letters : List ℕ) (dirs : List (List ℕ))
    → AllUnmarked dirs
    → parent_path (text (drive_of letters) dirs) ≡ some (text (drive_of letters) (above dirs))
unfolding text
parent_path-above letters [] u = parent_path-mark letters drive_mark [] separator refl tt
parent_path-above letters (dir ∷ dirs) (u, us) =
    let (before, e) = text-separator (drive_of letters) dirs in
    rw e (
      ap parent_path (
        append_assoc before (separator ∷ []) (dir ++ (separator ∷ []))
        ∙ sym (append_assoc before (separator ∷ dir) (separator ∷ [])))
      ∙ parent_path-mark before separator dir separator refl u)
