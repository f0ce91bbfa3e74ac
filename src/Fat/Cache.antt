-- ===== src/Fat/Cache.antt =====
-- components/drivers/fatdriver/src/disk.rs: the hash table of the sector cache. A table is its 256 cells;
-- the sectors of the cache entries are the list of their `lba`, and an index past it ends the program.
pub mod Free
pub mod Insert
pub mod Place
pub mod Probing
use idos_nx.Base.{
  ℕ, zero, suc, ◌+◌, ◌*◌, ◌/◌, ◌%◌, Option, none, some, List, ◌==◌, if◌then◌else◌, get_elem?,
}
use idos_nx.Base.Results.{Outcome, done, panic, ◌>>=◌}

abbrev pub hash_table_size : ℕ
hash_table_size = 256

abbrev pub hash_empty : ℕ
hash_empty = 65535

-- The cells of the table.
abbrev pub Cells : Type 0
Cells = ℕ → ℕ

abbrev pub set_cell : Cells → ℕ → ℕ → Cells
set_cell t idx slot i = if i == idx then slot else t i

unfoldable pub hash_lba : ℕ → ℕ
hash_lba lba = (((lba * 2654435761) % 4294967296) / 65536) % hash_table_size

abbrev pub next_cell : ℕ → ℕ
next_cell idx = (idx + 1) % hash_table_size

-- The loop of `hash_lookup`, for the rounds that are left.
unfoldable pub lookup_from : ℕ → Cells → List ℕ → ℕ → ℕ → Outcome (Option ℕ)
lookup_from zero t lbas lba idx = done none
lookup_from (suc rounds) t lbas lba idx =
    let further = lookup_from rounds t lbas lba (next_cell idx) in
    let slot = t idx in
    if slot == hash_empty then done none else elim (get_elem? lbas slot) [
      | none ↦ panic
      | some found ↦ if found == lba then done (some slot) else further
    ]

abbrev pub hash_lookup : Cells → List ℕ → ℕ → Outcome (Option ℕ)
hash_lookup t lbas lba = lookup_from hash_table_size t lbas lba (hash_lba lba)

-- The loop of `hash_insert`. A full table stays as it is.
unfoldable pub place_from : ℕ → Cells → ℕ → ℕ → Cells
place_from zero t slot idx = t
place_from (suc rounds) t slot idx =
    let further = place_from rounds t slot (next_cell idx) in
    if t idx == hash_empty then set_cell t idx (slot % 65536) else further

abbrev pub hash_insert : Cells → ℕ → ℕ → Cells
hash_insert t lba slot = place_from hash_table_size t slot (hash_lba lba)

-- The loop that puts the cells behind a gap in again, for at most so many rounds.
unfoldable pub rehash_from : ℕ → Cells → List ℕ → ℕ → Option (Outcome Cells)
unfolding place_from hash_lba
rehash_from zero t lbas next = none
rehash_from (suc rounds) t lbas next =
    let slot = t next in
    if slot == hash_empty then some (done t) else elim (get_elem? lbas slot) [
      | none ↦ some panic
      | some lba ↦
          rehash_from rounds (hash_insert (set_cell t next hash_empty) lba slot) lbas
            (next_cell next)
    ]

-- The loop of `hash_remove`.
unfoldable pub remove_from : ℕ → ℕ → Cells → List ℕ → ℕ → ℕ → Option (Outcome Cells)
unfolding rehash_from
remove_from zero fuel t lbas lba idx = some (done t)
remove_from (suc rounds) fuel t lbas lba idx =
    let further = remove_from rounds fuel t lbas lba (next_cell idx) in
    let slot = t idx in
    if slot == hash_empty then some (done t) else elim (get_elem? lbas slot) [
      | none ↦ some panic
      | some found ↦
          if found == lba
          then rehash_from fuel (set_cell t idx hash_empty) lbas (next_cell idx)
          else further
    ]

abbrev pub hash_remove : ℕ → Cells → List ℕ → ℕ → Option (Outcome Cells)
hash_remove fuel t lbas lba = remove_from hash_table_size fuel t lbas lba (hash_lba lba)
