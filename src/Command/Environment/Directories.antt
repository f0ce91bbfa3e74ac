-- ===== src/Command/Environment/Directories.antt =====
-- components/programs/command/src/env.rs and exec.rs: the current directory as a drive and a stack of
-- names.
use idos_nx.Base.{
  ℕ, suc, ◌+◌, ◌-◌, ◌≤◌, ◌≡◌, refl, sym, ap, ◌∙◌, inl, inr, false, List, [], ◌∷◌, ◌++◌,
  append_assoc, arith, ltb, ◌==◌, if◌then◌else◌, ltb→lt, Bool-cases, length, get_or, length-append,
}
use idos_nx.Command.Environment.{
  Environment, cwd_size, pushd, popd, separator_below, this_dir, parent_dir, cd_chunk, cd_chunks,
}
use idos_nx.Command.Environment.Buffer.{
  get_or-behind, get_or-LacksSeparator, separator_below-at, separator_below-zero, take-through,
}
use idos_nx.Files.Path.{separator, same}
use idos_nx.Files.Path.Names.{LacksSeparator, AllLackSeparator}

-- A drive and the names of the directories below it, the last one first, each with a separator behind it.
unfoldable pub text : List ℕ → List (List ℕ) → List ℕ
text drive [] = drive ++ (separator ∷ [])
text drive (dir ∷ dirs) = text drive dirs ++ (dir ++ (separator ∷ []))

abbrev pub below : List ℕ → List (List ℕ) → List ℕ → List (List ℕ)
below drive dirs dir =
    if ltb (length (text drive dirs) + length dir + 1) cwd_size then dir ∷ dirs else dirs

abbrev pub above : List (List ℕ) → List (List ℕ)
above [] = []
above (dir ∷ dirs) = dirs

abbrev pub walk_chunk : List ℕ → List (List ℕ) → List ℕ → List (List ℕ)
walk_chunk drive dirs chunk =
    if same chunk this_dir
    then dirs
    else if same chunk parent_dir
    then above dirs
    else below drive dirs chunk

abbrev pub walk : List ℕ → List (List ℕ) → List (List ℕ) → List (List ℕ)
walk drive dirs [] = dirs
walk drive dirs (chunk ∷ chunks) = walk drive (walk_chunk drive dirs chunk) chunks

abbrev pub IsPlace : List ℕ → List (List ℕ) → Type 0
IsPlace drive dirs =
    LacksSeparator drive × AllLackSeparator dirs × (length (text drive dirs) ≤ cwd_size)

pub text-separator :
    (drive : List ℕ) (dirs : List (List ℕ))
    → (before : List ℕ) × (text drive dirs ≡ before ++ (separator ∷ []))
unfolding text
text-separator drive [] = (drive, refl)
text-separator drive (dir ∷ dirs) =
    (text drive dirs ++ dir, sym (append_assoc (text drive dirs) dir (separator ∷ [])))

-- The buffer with a name behind a separator.
abbrev with_name : List ℕ → List ℕ → List ℕ
with_name before dir = before ++ (separator ∷ (dir ++ (separator ∷ [])))

length-with_name :
    (before dir : List ℕ) → length (with_name before dir) ≡ 2 + (length before + length dir)
length-with_name before dir =
    let outer = length-append before (separator ∷ (dir ++ (separator ∷ []))) in
    let inner = length-append dir (separator ∷ []) in omega arith

get_or-with_name :
    (before dir : List ℕ) → get_or (with_name before dir) (length before) 0 ≡ separator
get_or-with_name before dir =
    let e : length before + 0 ≡ length before = omega arith in
    sym (ap (λ n. get_or (with_name before dir) n 0) e)
    ∙ get_or-behind before (separator ∷ (dir ++ (separator ∷ []))) 0

separator_below-with_name :
    (before dir : List ℕ)
    → LacksSeparator dir
    → separator_below (with_name before dir) (length (with_name before dir) - 2) ≡ length before
separator_below-with_name before dir l =
    let len = length-with_name before dir in
    let e : length (with_name before dir) - 2 ≡ length before + length dir = omega arith in
    ap (separator_below (with_name before dir)) e
    ∙ separator_below-at (with_name before dir) (length before) (length dir)
        (ap (λ ch. ch == separator) (get_or-with_name before dir))
        (λ j lt.
          ap (λ ch. ch == separator)
            (get_or-behind before (separator ∷ (dir ++ (separator ∷ []))) (suc j))
          ∙ get_or-LacksSeparator dir (separator ∷ []) j l lt)

-- Without the last name.
popd-with_name :
    (before dir prompt : List ℕ)
    → LacksSeparator dir
    → popd (record { cwd = with_name before dir; prompt_fmt = prompt })
      ≡ record { cwd = before ++ (separator ∷ []); prompt_fmt = prompt }
unfolding popd
popd-with_name before dir prompt l =
    let len = length-with_name before dir in
    let big : ltb (length (with_name before dir)) 2 ≡ false = ground (arith, len) in
    rw (big, separator_below-with_name before dir l, get_or-with_name before dir)
      (ap (λ bytes. record { cwd = bytes; prompt_fmt = prompt })
        (take-through before separator (dir ++ (separator ∷ []))))

-- At the root nothing changes.
popd-root :
    (drive prompt : List ℕ)
    → LacksSeparator drive
    → popd (record { cwd = drive ++ (separator ∷ []); prompt_fmt = prompt })
      ≡ record { cwd = drive ++ (separator ∷ []); prompt_fmt = prompt }
unfolding popd
popd-root [] prompt l = refl
popd-root (ch ∷ drive) prompt l =
    let bytes : List ℕ = ch ∷ (drive ++ (separator ∷ [])) in
    let len = length-append drive (separator ∷ []) in
    let big : ltb (length bytes) 2 ≡ false = ground (arith, len) in
    let e : separator_below bytes (length bytes - 2) ≡ 0 =
      separator_below-zero bytes (length bytes - 2)
        (λ j le. get_or-LacksSeparator (ch ∷ drive) (separator ∷ []) j l (omega arith)) in
    rw (big, e, l.0) refl

abbrev pub at_place : List ℕ → List (List ℕ) → List ℕ → Environment
at_place drive dirs prompt = record { cwd = text drive dirs; prompt_fmt = prompt }

popd-above :
    (drive : List ℕ) (dirs : List (List ℕ)) (prompt : List ℕ)
    → IsPlace drive dirs
    → popd (at_place drive dirs prompt) ≡ at_place drive (above dirs) prompt
unfolding text
popd-above drive [] prompt (l, ls, fits) = popd-root drive prompt l
popd-above drive (dir ∷ dirs) prompt (l, ls, fits) =
    let (before, e) = text-separator drive dirs in
    rw e (
      ap (λ bytes. popd (record { cwd = bytes; prompt_fmt = prompt }))
        (append_assoc before (separator ∷ []) (dir ++ (separator ∷ [])))
      ∙ popd-with_name before dir prompt ls.0)

above-IsPlace :
    (drive : List ℕ) (dirs : List (List ℕ)) → IsPlace drive dirs → IsPlace drive (above dirs)
unfolding text
above-IsPlace drive [] h = h
above-IsPlace drive (dir ∷ dirs) (l, ls, fits) =
    let len = length-append (text drive dirs) (dir ++ (separator ∷ [])) in (l, ls.1, omega arith)

below-IsPlace :
    (drive : List ℕ) (dirs : List (List ℕ)) (dir : List ℕ)
    → LacksSeparator dir
    → IsPlace drive dirs
    → IsPlace drive (below drive dirs dir)
unfolding text
below-IsPlace drive dirs dir n (l, ls, fits) =
    elim (Bool-cases (ltb (length (text drive dirs) + length dir + 1) cwd_size)) [
      | inl e ↦
          let lt = ltb→lt _ _ e in
          let outer = length-append (text drive dirs) (dir ++ (separator ∷ [])) in
          let inner = length-append dir (separator ∷ []) in rw e (l, (n, ls), omega arith)
      | inr e ↦ rw e (l, ls, fits)
    ]

pushd-below :
    (drive : List ℕ) (dirs : List (List ℕ)) (dir prompt : List ℕ)
    → pushd (at_place drive dirs prompt) dir ≡ at_place drive (below drive dirs dir) prompt
unfolding text
pushd-below drive dirs dir prompt =
    elim (Bool-cases (ltb (length (text drive dirs) + length dir + 1) cwd_size)) [
      | inl e ↦ rw e refl
      | inr e ↦ rw e refl
    ]

walk_chunk-refines :
    (drive : List ℕ) (dirs : List (List ℕ)) (chunk prompt : List ℕ)
    → LacksSeparator chunk
    → IsPlace drive dirs
    → (cd_chunk (at_place drive dirs prompt) chunk
        ≡ at_place drive (walk_chunk drive dirs chunk) prompt)
      × IsPlace drive (walk_chunk drive dirs chunk)
walk_chunk-refines drive dirs chunk prompt n h = elim (Bool-cases (same chunk this_dir)) [
  | inl e ↦ rw e (refl, h)
  | inr e ↦ elim (Bool-cases (same chunk parent_dir)) [
    | inl f ↦ rw (e, f) (popd-above drive dirs prompt h, above-IsPlace drive dirs h)
    | inr f ↦ rw (e, f) (pushd-below drive dirs chunk prompt, below-IsPlace drive dirs chunk n h)
  ]
]

pub walk-refines :
    (drive : List ℕ) (dirs chunks : List (List ℕ)) (prompt : List ℕ)
    → AllLackSeparator chunks
    → IsPlace drive dirs
    → (cd_chunks (at_place drive dirs prompt) chunks
        ≡ at_place drive (walk drive dirs chunks) prompt)
      × IsPlace drive (walk drive dirs chunks)
unfolding cd_chunks
walk-refines drive dirs [] prompt n h = (refl, h)
walk-refines drive dirs (chunk ∷ chunks) prompt (n, ns) h =
    let (e, h') = walk_chunk-refines drive dirs chunk prompt n h in
    let (e2, h2) = walk-refines drive (walk_chunk drive dirs chunk) chunks prompt ns h' in
    (ap (λ env. cd_chunks env chunks) e ∙ e2, h2)
