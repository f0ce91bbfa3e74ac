-- ===== src/Files/Open/Trimmed.antt =====
-- kernel/src/files/path.rs: `from_str` on names between separators.
use idos_nx.Base.{
  ℕ, zero, suc, ◌≡◌, refl, Bool, true, false, not, ◌||◌, List, [], ◌∷◌, ◌++◌, arith, ◌==◌,
  replicate,
}
use idos_nx.Files.Path.{
  Str, separator, colon, is_empty, ends_with, trim_start_matches, trim_end_matches, from_str,
}
use idos_nx.Files.Path.Names.{LacksSeparator, AreNames, join}

abbrev pub LacksColon : Str → Type 0
LacksColon [] = Unit {0}
LacksColon (ch ∷ rest) = ((ch == colon) ≡ false) × LacksColon rest

abbrev pub AllLackColon : List Str → Type 0
AllLackColon [] = Unit {0}
AllLackColon (name ∷ names) = LacksColon name × AllLackColon names

-- The first byte is no separator.
abbrev starts_solid : Str → Bool
starts_solid [] = false
starts_solid (ch ∷ rest) = not (ch == separator)

-- The last byte is no separator and no colon.
abbrev ends_solid : Str → Bool
ends_solid [] = false
ends_solid (ch ∷ []) = not (ch == separator || ch == colon)
ends_solid (ch ∷ next ∷ rest) = ends_solid (next ∷ rest)

starts_solid-append : (s rest : Str) → starts_solid s ≡ true → starts_solid (s ++ rest) ≡ true
starts_solid-append [] rest e = absurd (ground (arith, e))
starts_solid-append (ch ∷ s) rest e = e

ends_solid-name :
    (name : Str)
    → is_empty name ≡ false
    → LacksSeparator name
    → LacksColon name
    → ends_solid name ≡ true
ends_solid-name [] e l c = absurd (ground (arith, e))
ends_solid-name (ch ∷ []) e (l, ls) (c, cs) = ground (arith, l, c)
ends_solid-name (ch ∷ next ∷ rest) e (l, ls) (c, cs) = ends_solid-name (next ∷ rest) refl ls cs

ends_solid-append :
    (s : Str) (ch : ℕ) (name : Str) → ends_solid name ≡ true → ends_solid (s ++ (ch ∷ name)) ≡ true
ends_solid-append [] ch [] e = absurd (ground (arith, e))
ends_solid-append [] ch (x ∷ name) e = e
ends_solid-append (x ∷ []) ch name e = ends_solid-append [] ch name e
ends_solid-append (x ∷ y ∷ s) ch name e = ends_solid-append (y ∷ s) ch name e

join-solid :
    (name : Str) (stack : List Str)
    → AreNames (name ∷ stack)
    → AllLackColon (name ∷ stack)
    → (starts_solid (join (name ∷ stack)) ≡ true) × (ends_solid (join (name ∷ stack)) ≡ true)
join-solid [] [] (e, l, h) (c, cs) = absurd (ground (arith, e))
join-solid (ch ∷ name) [] (e, l, h) (c, cs) = (ground (arith, l), ends_solid-name (ch ∷ name) e l c)
join-solid name (below ∷ stack) (e, l, h) (c, cs) = (
  starts_solid-append (join (below ∷ stack)) (separator ∷ name) (join-solid below stack h cs).0,
  ends_solid-append (join (below ∷ stack)) separator name (ends_solid-name name e l c),
)

abbrev pub separators : ℕ → Str
separators n = replicate n separator

trim_end_matches-separators : (n : ℕ) → trim_end_matches (separators n) separator ≡ []
trim_end_matches-separators zero = refl
trim_end_matches-separators (suc n) = rw (trim_end_matches-separators n) refl

trim_end_matches-solid :
    (s : Str) (n : ℕ) → ends_solid s ≡ true → trim_end_matches (s ++ separators n) separator ≡ s
trim_end_matches-solid [] n e = absurd (ground (arith, e))
trim_end_matches-solid (ch ∷ []) n e =
    let ne : (ch == separator) ≡ false = ground (arith, e) in
    rw (trim_end_matches-separators n, ne) refl
trim_end_matches-solid (ch ∷ next ∷ rest) n e =
    rw (trim_end_matches-solid (next ∷ rest) n e) (ground arith)

trim_start_matches-solid :
    (s : Str) → starts_solid s ≡ true → trim_start_matches (separator ∷ s) separator ≡ s
trim_start_matches-solid [] e = absurd (ground (arith, e))
trim_start_matches-solid (ch ∷ rest) e =
    let ne : (ch == separator) ≡ false = ground (arith, e) in rw ne refl

ends_with-solid : (s : Str) → ends_solid s ≡ true → ends_with s colon ≡ false
ends_with-solid [] e = refl
ends_with-solid (ch ∷ []) e = ground (arith, e)
ends_with-solid (ch ∷ next ∷ rest) e = ends_with-solid (next ∷ rest) e

trim-solid :
    (s : Str) (n : ℕ)
    → starts_solid s ≡ true
    → ends_solid s ≡ true
    → from_str (separator ∷ (s ++ separators n)) ≡ s
unfolding from_str
trim-solid [] n a e = absurd (ground (arith, e))
trim-solid (ch ∷ rest) n a e =
    rw
      (
        trim_end_matches-solid (ch ∷ rest) n e,
        trim_start_matches-solid (ch ∷ rest) a,
        ends_with-solid (ch ∷ rest) e,
      )
      refl

-- The names come out without the separators around them.
pub from_str-join :
    (stack : List Str) (n : ℕ)
    → AreNames stack
    → AllLackColon stack
    → from_str (separator ∷ (join stack ++ separators n)) ≡ join stack
unfolding from_str
from_str-join [] n h c = rw (trim_end_matches-separators n) refl
from_str-join (name ∷ stack) n h c =
    let (a, e) = join-solid name stack h c in trim-solid (join (name ∷ stack)) n a e

LacksColon-append : (s rest : Str) → LacksColon s → LacksColon rest → LacksColon (s ++ rest)
LacksColon-append [] rest l r = r
LacksColon-append (ch ∷ s) rest (e, l) r = (e, LacksColon-append s rest l r)

LacksColon-separators : (n : ℕ) → LacksColon (separators n)
LacksColon-separators zero = tt
LacksColon-separators (suc n) = (refl, LacksColon-separators n)

LacksColon-join : (stack : List Str) → AllLackColon stack → LacksColon (join stack)
LacksColon-join [] c = tt
LacksColon-join (name ∷ []) (c, cs) = c
LacksColon-join (name ∷ below ∷ stack) (c, cs) =
    LacksColon-append (join (below ∷ stack)) (separator ∷ name) (LacksColon-join (below ∷ stack) cs)
      (refl, c)

pub LacksColon-path :
    (stack : List Str) (n : ℕ) → AllLackColon stack → LacksColon (join stack ++ separators n)
LacksColon-path stack n c =
    LacksColon-append (join stack) (separators n) (LacksColon-join stack c)
      (LacksColon-separators n)
