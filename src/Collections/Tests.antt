-- ===== src/Collections/Tests.antt =====
-- The unit tests of the collections and the pipe, and their theorems at small inputs.
use idos_nx.Base.{
  ℕ, zero, suc, ltb, ◌-◌, ◌≤◌, ◌+◌, ◌≡◌, refl, true, false, none, some, List, [], ◌∷◌, arith, ◌==◌,
  if◌then◌else◌, get_elem?,
}
use idos_nx.Collections.RingBuffer.{RingBuffer, write, read, capacity}
use idos_nx.Collections.RingBuffer.Queue.{
  Represents, Call, write_call, read_call, wrote, got, run, run_queue, run-eq-run_queue,
}
use idos_nx.Collections.SlotList.{SlotList, insert, get, remove, replace, enumerate}
use idos_nx.Collections.SlotList.Laws.{
  Inserted, insert-Inserted, remove_lem, replace_lem, entry, entry-enumerate,
}
use idos_nx.Collections.SlotList.Handles
use idos_nx.Collections.SlotList.Handles.{
  HandleTable, TableOp, insert_op, remove_op, replace_op, apply_all, get-apply_all,
}
use idos_nx.Collections.RefCount
use idos_nx.Collections.RefCount.{
  Counts, get_key, references, Positive, add_reference_lem, remove_reference_lem,
}
use idos_nx.Collections.Pipe.{with_size, with_size_refines}

-- Two elements, 8 and 9, round the end of a buffer of four slots.
abbrev wrapped : RingBuffer ℕ
wrapped = record { buffer = 9 ∷ 0 ∷ 0 ∷ 8 ∷ []; size = 3; write_index = 1; read_index = 3 }

wrapped-Represents : Represents wrapped (8 ∷ 9 ∷ [])
wrapped-Represents = record {
  fits = omega arith;
  capacity_is = refl;
  reads = omega arith;
  writes = refl;
  holds = at;
}
  where
    at :
        (k : ℕ)
        → suc k ≤ 2
        → get_elem? wrapped.buffer (if ltb (3 + k) 4 then 3 + k else 3 + k - 4)
          ≡ get_elem? {A = ℕ} (8 ∷ 9 ∷ []) k
    at zero h = refl
    at (suc zero) h = refl
    at (suc (suc k)) h = absurd (omega arith)

abbrev calls : List (Call ℕ)
calls = write_call 1 ∷ write_call 2 ∷ read_call ∷ read_call ∷ read_call ∷ read_call ∷ []

run-eq-run_queue-wrapped : run wrapped calls ≡ run_queue (capacity wrapped) (8 ∷ 9 ∷ []) calls
run-eq-run_queue-wrapped = run-eq-run_queue calls wrapped-Represents

with_size_refines_example : run (with_size 4).ring_buffer calls ≡ run_queue 4 [] calls
with_size_refines_example = with_size_refines 4 calls (omega arith)

run-wrapped :
    run wrapped calls
    ≡ wrote true ∷ wrote false ∷ got (some 8) ∷ got (some 9) ∷ got (some 1) ∷ got none ∷ []
unfolding run write read
run-wrapped = refl

abbrev slots : SlotList ℕ
slots = record { slots = some 11 ∷ none ∷ some 33 ∷ [] }

insert-Inserted_example : Inserted slots (insert slots 44).1 (insert slots 44).0 44
insert-Inserted_example = insert-Inserted slots 44

remove_lem_example :
    ((remove slots 2).0 ≡ get slots 2)
    × (get (remove slots 2).1 0 ≡ (if 2 == 0 then none else get slots 0))
remove_lem_example = remove_lem slots 2 0

replace_lem_example :
    ((replace slots 4 12).0 ≡ get slots 4)
    × (get (replace slots 4 12).1 4 ≡ (if 4 == 4 then some 12 else get slots 4))
replace_lem_example = replace_lem slots 4 4 12

entry-enumerate_example : entry (enumerate slots) 2 ≡ get slots 2
entry-enumerate_example = entry-enumerate slots 2

abbrev table : HandleTable ℕ
table = record { inner = slots }

abbrev ops : List (TableOp ℕ)
ops = insert_op 7 ∷ remove_op 0 ∷ insert_op 8 ∷ replace_op 1 9 ∷ []

third_handle : Handles.get table 2 ≡ some 33
unfolding Handles.get get
third_handle = refl

get-apply_all_example : Handles.get (apply_all table ops) 2 ≡ some 33
get-apply_all_example = get-apply_all ops table 2 33 third_handle (omega arith)

abbrev counts : Counts
counts = (7, 2) ∷ (9, 1) ∷ []

counts-Positive : Positive counts
unfolding Positive get_key
counts-Positive j c e = ground arith

add_reference_lem_example :
    ((RefCount.add_reference counts 9).0 ≡ references counts 9 + 1)
    × (references (RefCount.add_reference counts 9).1 7
        ≡ (if 9 == 7 then references counts 9 + 1 else references counts 7))
    × Positive (RefCount.add_reference counts 9).1
add_reference_lem_example =
    add_reference_lem counts 9 7 counts-Positive (unfold get_key in omega arith)

remove_reference_lem_example :
    ((RefCount.remove_reference counts 9).0 ≡ references counts 9 - 1)
    × (references (RefCount.remove_reference counts 9).1 9
        ≡ (if 9 == 9 then references counts 9 - 1 else references counts 9))
    × Positive (RefCount.remove_reference counts 9).1
    × (RefCount.contains (RefCount.remove_reference counts 9).1 9 ≡ ltb 0 (references counts 9 - 1))
remove_reference_lem_example = remove_reference_lem counts 9 9 counts-Positive
