-- ===== src/Task/Mapping/Space.antt =====
-- `map_memory` of kernel/src/task/memory.rs, and the two searches for free space.
use idos_nx.Base.{
  ℕ, ◌-◌, ◌*◌, ◌/◌, min, max, Bool, true, false, not, ◌&&◌, ◌||◌, Option, none, some, [], ◌∷◌, ltb,
  leb, ◌==◌, if◌then◌else◌, add32, word_count,
}
use idos_nx.Base.Results.{Result, ok, err}
use idos_nx.Memory.Address.{
  address_add, address_sub, is_page_aligned, next_page_barrier, prev_page_barrier, page_size,
}
use idos_nx.Task.Mapping.{
  MemoryBacking, MemMappedRegion, Regions, MemMapError, invalid_size, mapping_wrong_alignment,
  not_enough_memory, region_end, insert,
}

-- The two ranges are given by their starts and ends.
abbrev pub ranges_overlap : ℕ → ℕ → ℕ → ℕ → Bool
ranges_overlap a_start a_end b_start b_end =
    ltb (address_sub (max a_end b_end) (min a_start b_start))
      (add32 (address_sub a_end a_start) (address_sub b_end b_start))

unfoldable pub can_fit_range : Regions → ℕ → ℕ → Bool
can_fit_range [] start end = true
can_fit_range (r ∷ rest) start end =
    let others = can_fit_range rest start end in
    if ranges_overlap r.address (region_end r) start end then false else others

abbrev pub place_in : ℕ → ℕ → ℕ → ℕ → ℕ
place_in hint size gap_start gap_end =
    if leb gap_start hint && leb (address_add hint size) gap_end
    then hint
    else if ltb hint gap_start
    then gap_start
    else prev_page_barrier (address_sub gap_end size)

abbrev pub distance : ℕ → ℕ → ℕ
distance hint place = if leb hint place then address_sub place hint else address_sub hint place

-- Over `best` and `best_distance`: a place that is nearer, or as near and not before the hint.
unfoldable pub improve : ℕ → ℕ → Option ℕ × ℕ → Option ℕ × ℕ
improve hint place (best, best_distance) =
    let dist = distance hint place in
    if ltb dist best_distance || (dist == best_distance && leb hint place)
    then (some place, dist)
    else (best, best_distance)

-- One gap of `find_nearest_free_space`.
unfoldable pub consider : ℕ → ℕ → ℕ → ℕ → Option ℕ × ℕ → Option ℕ × ℕ
unfolding improve
consider hint size gap_start gap_end s =
    if ltb gap_start gap_end && leb size (address_sub gap_end gap_start)
    then improve hint (place_in hint size gap_start gap_end) s
    else s

-- The loop over the regions and, at the end, the gap below the bound `U`; the source does not update
-- `best_distance` there, and does not read it again.
unfoldable pub nearest_from : ℕ → ℕ → ℕ → Regions → ℕ → Option ℕ × ℕ → Option ℕ × ℕ
unfolding consider
nearest_from U hint size [] prev_end s = consider hint size prev_end U s
nearest_from U hint size (r ∷ rest) prev_end s =
    nearest_from U hint size rest (next_page_barrier (region_end r))
      (consider hint size prev_end r.address s)

unfoldable pub find_nearest_free_space : ℕ → Regions → ℕ → ℕ → Option ℕ
unfolding nearest_from
find_nearest_free_space U m hint size = (nearest_from U hint size m 0x1000 (none, word_count - 1)).0

-- How far the loop of `find_free_mapping_space` has come: it has returned an address, or goes on
-- below `prev_start`.
pub data Descent : Type 0 where
  found : ℕ → Descent
  below : ℕ → Descent

-- The loop visits the regions in descending order.
abbrev pub visit_region : ℕ → MemMappedRegion → Descent → Descent
visit_region size r (found a) = found a
visit_region size r (below prev_start) =
    if leb size (address_sub prev_start (next_page_barrier (region_end r)))
    then found (prev_page_barrier (address_sub prev_start size))
    else below r.address

unfoldable pub search_down : ℕ → ℕ → Regions → Descent
search_down U size [] = below U
search_down U size (r ∷ rest) = visit_region size r (search_down U size rest)

abbrev pub last_place : ℕ → Descent → Option ℕ
last_place size (found a) = some a
last_place size (below prev_start) = some (prev_page_barrier (address_sub prev_start size))

unfoldable pub find_free_mapping_space : ℕ → Regions → ℕ → Option ℕ
unfolding search_down
find_free_mapping_space U m size = last_place size (search_down U size m)

abbrev pub round_size : ℕ → ℕ
round_size requested_size = add32 requested_size 0xfff / page_size * page_size

-- `location.ok_or(..)?` and the insertion
abbrev pub map_at : Regions → ℕ → MemoryBacking → Option ℕ → Result ℕ MemMapError × Regions
map_at m requested_size backing none = (err not_enough_memory, m)
map_at m requested_size backing (some free_space) = (
  ok free_space,
  insert (record { address = free_space; size = requested_size; backed_by = backing }) m,
)

unfoldable pub map_memory :
    ℕ → Regions → Option ℕ → ℕ → MemoryBacking → Result ℕ MemMapError × Regions
unfolding can_fit_range find_nearest_free_space find_free_mapping_space
map_memory U m none requested_size backing =
    if requested_size == 0
    then (err invalid_size, m)
    else map_at m requested_size backing (find_free_mapping_space U m (round_size requested_size))
map_memory U m (some request_start) requested_size backing =
    let size = round_size requested_size in
    if requested_size == 0
    then (err invalid_size, m)
    else if not (is_page_aligned request_start)
    then (err mapping_wrong_alignment, m)
    else map_at m requested_size backing (
        if can_fit_range m request_start (address_add request_start size)
        then some request_start
        else find_nearest_free_space U m request_start size)
