-- ===== src/Command/Environment/Prompt.antt =====
-- components/programs/command/src/env.rs: `expand_prompt`.
pub mod Codes
pub mod Filled
use idos_nx.Base.{
  ℕ, zero, suc, ◌-◌, ◌&&◌, Option, none, some, List, [], ◌∷◌, ◌++◌, ltb, ◌==◌, if◌then◌else◌,
  length, take,
}
use idos_nx.Command.Batch.{lower}
use idos_nx.Command.Environment.{Environment}

-- The byte that some codes stand for, by their lower case.
abbrev pub code_byte : ℕ → Option ℕ
code_byte key =
    if key == b'g'
    then some b'>'
    else if key == b'l'
    then some b'<'
    else if key == b'b'
    then some b'|'
    else if key == b'q'
    then some b'='
    else if key == b's'
    then some 32
    else if key == b'h'
    then some 8
    else if key == b'e'
    then some 27
    else if key == b'$'
    then some b'$'
    else none

-- What the other codes stand for, and nothing for what is no code.
abbrev pub code_bytes : List ℕ → ℕ → List ℕ
code_bytes cwd key =
    if key == b'p'
    then cwd
    else if key == b'n'
    then take 1 cwd
    else if key == b'_'
    then 13 ∷ 10 ∷ []
    else (elim (code_byte key) [ some ch ↦ ch ∷ [] | none ↦ [] ])

-- What is written for a code where so many bytes are left: the directory as far as it fits, the end of a
-- line only as a whole.
abbrev pub write_code : List ℕ → ℕ → ℕ → List ℕ
write_code cwd key room = if key == b'_' && ltb room 2 then [] else take room (code_bytes cwd key)

-- `fmt[i..]` into the last `room` bytes of `out`.
unfoldable pub expand_from : List ℕ → List ℕ → ℕ → List ℕ
expand_from cwd fmt zero = []
expand_from cwd [] (suc room) = []
expand_from cwd (ch ∷ []) (suc room) = ch ∷ []
expand_from cwd (ch ∷ code ∷ fmt) (suc room) =
    let bytes = write_code cwd (lower code) (suc room) in
    let behind = expand_from cwd fmt (suc room - length bytes) in
    let further = expand_from cwd (code ∷ fmt) room in
    if ch == b'$' then bytes ++ behind else ch ∷ further

abbrev pub expand_prompt : Environment → ℕ → List ℕ
expand_prompt env room = expand_from env.cwd env.prompt_fmt room
