-- ===== src/Files/Path/Names.antt =====
-- A path as a stack of names, the last one on top: what `push`, `pop_back`, `pop_front` and
-- `get_filename` do on it.
use idos_nx.Base.{
  ℕ, ◌+◌, ◌≡◌, refl, ap, ◌∙◌, inl, inr, Bool, true, false, ◌||◌, Option, none, some, List, [], ◌∷◌,
  ◌++◌, arith, ◌==◌, if◌then◌else◌, Bool-cases, length, take,
}
use idos_nx.Files.Path.{
  Str, separator, dot, is_empty, same, split, onto_first, rsplit_once, last_instance, pop_back,
  push_element, push_elements, push, get_filename,
}

abbrev pub join : List Str → Str
join [] = []
join (name ∷ []) = name
join (name ∷ below ∷ stack) = join (below ∷ stack) ++ (separator ∷ name)

abbrev pub LacksSeparator : Str → Type 0
LacksSeparator [] = Unit {0}
LacksSeparator (ch ∷ rest) = ((ch == separator) ≡ false) × LacksSeparator rest

abbrev pub AreNames : List Str → Type 0
AreNames [] = Unit {0}
AreNames (name ∷ stack) = (is_empty name ≡ false) × LacksSeparator name × AreNames stack

abbrev pub below_top : List Str → List Str
below_top [] = []
below_top (name ∷ stack) = stack

-- What an element of the pushed text does to the stack.
abbrev pub step : Str → List Str → List Str
step element stack =
    if is_empty element || same element (dot ∷ [])
    then stack
    else if same element (dot ∷ dot ∷ [])
    then below_top stack
    else element ∷ stack

abbrev pub walk : List Str → List Str → List Str
walk [] stack = stack
walk (element ∷ rest) stack = walk rest (step element stack)

last_instance-none :
    (s : Str) (index : ℕ) (found : Option ℕ)
    → LacksSeparator s
    → last_instance index found s ≡ found
unfolding last_instance
last_instance-none [] index found l = refl
last_instance-none (ch ∷ rest) index found (l, ls) =
    rw l (last_instance-none rest (index + 1) found ls)

last_instance-last :
    (s name : Str) (index : ℕ) (found : Option ℕ)
    → LacksSeparator name
    → last_instance index found (s ++ (separator ∷ name)) ≡ some (index + length s)
unfolding last_instance
last_instance-last [] name index found l =
    last_instance-none name (index + 1) (some index) l ∙ ap some (omega arith)
last_instance-last (ch ∷ rest) name index found l =
    last_instance-last rest name (index + 1) (if ch == separator then some index else found) l
    ∙ ap some (omega arith)

take-length : (s t : Str) → take (length s) (s ++ t) ≡ s
take-length [] t = refl
take-length (ch ∷ rest) t = ap (λ xs. ch ∷ xs) (take-length rest t)

pub pop_back-join :
    (stack : List Str) → AreNames stack → pop_back (join stack) ≡ join (below_top stack)
unfolding pop_back
pop_back-join [] h = refl
pop_back-join (name ∷ []) (_, l, _) = rw (pop_back, last_instance-none name 0 none l) refl
pop_back-join (name ∷ below ∷ stack) (_, l, h) =
    rw (pop_back, last_instance-last (join (below ∷ stack)) name 0 none l)
      (ap (λ (n : ℕ). take n (join (below ∷ stack) ++ (separator ∷ name))) (omega arith)
        ∙ take-length (join (below ∷ stack)) (separator ∷ name))

append-is_empty : (s t : Str) → is_empty (s ++ (separator ∷ t)) ≡ false
append-is_empty [] t = refl
append-is_empty (ch ∷ rest) t = refl

join-is_empty :
    (name : Str) (stack : List Str)
    → AreNames (name ∷ stack)
    → is_empty (join (name ∷ stack)) ≡ false
join-is_empty name [] (n, _, _) = n
join-is_empty name (below ∷ stack) (n, _, h) = append-is_empty (join (below ∷ stack)) name

below_top-AreNames : (stack : List Str) → AreNames stack → AreNames (below_top stack)
below_top-AreNames [] h = tt
below_top-AreNames (name ∷ stack) (_, _, h) = h

-- A new name goes on top.
append_name-join :
    (stack : List Str) (name : Str)
    → AreNames stack
    → (if is_empty (join stack) then name else join stack ++ (separator ∷ name))
      ≡ join (name ∷ stack)
append_name-join [] name h = refl
append_name-join (below ∷ stack) name h = rw (join-is_empty below stack h) refl

or_left : (a b : Bool) → (a || b) ≡ false → a ≡ false
or_left true b e = e
or_left false b e = refl

push_element-join :
    (stack : List Str) (element : Str)
    → AreNames stack
    → LacksSeparator element
    → (push_element (join stack) element ≡ join (step element stack))
      × AreNames (step element stack)
unfolding push_element
push_element-join stack element h l =
    elim (Bool-cases (is_empty element || same element (dot ∷ []))) [
      | inl stay ↦ rw stay (refl, h)
      | inr more ↦ elim (Bool-cases (same element (dot ∷ dot ∷ []))) [
        | inl up ↦ rw (more, up) (pop_back-join stack h, below_top-AreNames stack h)
        | inr name ↦
            let full : is_empty element ≡ false =
              or_left (is_empty element) (same element (dot ∷ [])) more in
            rw (more, name) (append_name-join stack element h, (full, l, h))
      ]
    ]

abbrev pub AllLackSeparator : List Str → Type 0
AllLackSeparator [] = Unit {0}
AllLackSeparator (part ∷ parts) = LacksSeparator part × AllLackSeparator parts

onto_first-AllLackSeparator :
    (ch : ℕ) (parts : List Str)
    → (ch == separator) ≡ false
    → AllLackSeparator parts
    → AllLackSeparator (onto_first ch parts)
onto_first-AllLackSeparator ch [] e h = ((e, tt), tt)
onto_first-AllLackSeparator ch (part ∷ parts) e (l, h) = ((e, l), h)

pub split-AllLackSeparator : (s : Str) → AllLackSeparator (split s separator)
split-AllLackSeparator [] = (tt, tt)
split-AllLackSeparator (ch ∷ rest) = elim (Bool-cases (ch == separator)) [
  | inl e ↦ rw e (tt, split-AllLackSeparator rest)
  | inr e ↦
      rw e (onto_first-AllLackSeparator ch (split rest separator) e (split-AllLackSeparator rest))
]

push_elements-join :
    (parts stack : List Str)
    → AreNames stack
    → AllLackSeparator parts
    → (push_elements (join stack) parts ≡ join (walk parts stack)) × AreNames (walk parts stack)
unfolding push_elements
push_elements-join [] stack h l = (refl, h)
push_elements-join (part ∷ parts) stack h (l, ls) =
    let (e, h') = push_element-join stack part h l in
    rw e (push_elements-join parts (step part stack) h' ls)

rsplit_once-none : (s : Str) → LacksSeparator s → rsplit_once s separator ≡ none
rsplit_once-none [] l = refl
rsplit_once-none (ch ∷ rest) (l, ls) = rw (rsplit_once-none rest ls, l) refl

rsplit_once-last :
    (s name : Str)
    → LacksSeparator name
    → rsplit_once (s ++ (separator ∷ name)) separator ≡ some (s, name)
rsplit_once-last [] name l = rw (rsplit_once-none name l) refl
rsplit_once-last (ch ∷ rest) name l = rw (rsplit_once-last rest name l) refl

abbrev pub top_or_empty : List Str → Str
top_or_empty [] = []
top_or_empty (name ∷ stack) = name

get_filename-join :
    (stack : List Str) → AreNames stack → get_filename (join stack) ≡ top_or_empty stack
unfolding get_filename
get_filename-join [] h = refl
get_filename-join (name ∷ []) (_, l, _) = rw (get_filename, rsplit_once-none name l) refl
get_filename-join (name ∷ below ∷ stack) (_, l, h) =
    rw (get_filename, rsplit_once-last (join (below ∷ stack)) name l) refl

-- On a path that is a stack of names, none of them empty or with a separator, `push` walks over the
-- parts of the pushed text: an empty part and `.` leave the stack, `..` takes the top name away if there
-- is one, any other part is a new name on top. The result is such a path again, its file name is the
-- name on top, and `pop_back` takes this name away.
pub push_lem :
    (stack : List Str) (to_append : Str)
    → AreNames stack
    → let after = walk (split to_append separator) stack in
      (push (join stack) to_append ≡ join after)
      × AreNames after
      × (get_filename (push (join stack) to_append) ≡ top_or_empty after)
      × (pop_back (push (join stack) to_append) ≡ join (below_top after))
unfolding push
push_lem stack to_append h =
    let after = walk (split to_append separator) stack in
    let (e, h') =
      push_elements-join (split to_append separator) stack h (split-AllLackSeparator to_append) in
    rw e (refl, h', get_filename-join after h', pop_back-join after h')
