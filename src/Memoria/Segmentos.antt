-- ===== src/Memoria/Segmentos.antt =====
-- memoria/src/segmentos.c, memoria/src/estructuras.c and memoria/src/modulos.c: segments are created
-- and given to the table of a process. Ids and sizes are not negative; they come from `atoi`, which
-- is a parameter, on the first two parameters of the instruction.
pub mod Create
pub mod Start
pub mod Live
use mathlib.Core.Option
use tp_2023_1c_kernel_flow.Base.{
  ℕ, suc, ◌+◌, Bool, true, false, Option, none, some, List, [], ◌∷◌, ◌++◌, leb, ◌==◌, bind,
  if◌then◌else◌, length, get_elem?, replicate,
}
use tp_2023_1c_kernel_flow.Wire.Bytes.{u32}
use tp_2023_1c_kernel_flow.Wire.Types.{
  Segment, out_of_memory, compactation_required, max_seg_quantity_reached,
}
use tp_2023_1c_kernel_flow.Memoria.Bitarray.{bitarray_create}
use tp_2023_1c_kernel_flow.Memoria.Algoritmos.{minus_one}
use tp_2023_1c_kernel_flow.Memoria.Espacio.{
  Algoritmo, bitarray_clean_all, is_malloc_possible, get_base_adress,
}
use tp_2023_1c_kernel_flow.Memoria.Estado.{
  Table, Memoria, store, get_segments_table_by_pid, append_to_table,
}
use tp_2023_1c_kernel_flow.Memoria.Datos.{Reply, status_reply, segment_reply}

-- The segment is allocated at `fresh`.
unfoldable pub new_segment : ℕ → ℕ → Memoria → ℕ × Memoria
new_segment id size m =
    let placed = get_base_adress m.algorithm m.free_space_table (u32 size) in
    (
      m.fresh,
      record m {
        free_space_table = placed.1;
        heap =
            store m.fresh (some (record { id = u32 id; size = u32 size; base_address = placed.0 }))
              m.heap;
        fresh = suc m.fresh;
      },
    )

-- NULL is `none`.
unfoldable pub create_segment : ℕ → ℕ → Memoria → Option ℕ × Memoria
create_segment id size m =
    let created = new_segment id size m in
    if is_malloc_possible m.free_space_table size then (some created.0, created.1) else (none, m)

-- `free` of a segment.
unfoldable pub free : ℕ → Memoria → Memoria
free p m = record m { heap = store p none m.heap }

unfoldable pub create_segments_table : ℕ → Memoria → Memoria
create_segments_table pid m = elim (get_segments_table_by_pid pid m.all_segments_tables) [
  | some _ ↦ m
  | none ↦ record m {
    all_segments_tables =
        m.all_segments_tables ++ record { pid = pid; segment_list = m.segment_0 ∷ [] } ∷ [];
  }
]

unfoldable pub add_segment_to_table : ℕ → ℕ → Memoria → Memoria
add_segment_to_table pid segment m =
    let m' = create_segments_table pid m in
    record m' { all_segments_tables = append_to_table pid segment m'.all_segments_tables }

-- The answer, and what becomes of the segment.
unfoldable pub place_segment : ℕ → Option ℕ → Memoria → Option (Reply × Memoria)
place_segment pid none m = some (status_reply out_of_memory, m)
place_segment pid (some p) m = bind (m.heap p) λ segment.
    if segment.base_address == minus_one
    then some (status_reply compactation_required, free p m)
    else some (segment_reply segment, add_segment_to_table pid p m)

-- I_CREATE_SEGMENT of `handle_kernel_pid_instruction`. A parameter or a table that is missing is
-- NULL, and a fault.
unfoldable pub handle_create_segment :
    (List ℕ → ℕ) → ℕ → List (List ℕ) → Memoria → Option (Reply × Memoria)
handle_create_segment atoi pid parametros m = bind (get_elem? parametros 0) λ id.
    bind (get_segments_table_by_pid pid m.all_segments_tables) λ table.
      if leb m.segment_quantity (length table.segment_list)
      then some (status_reply max_seg_quantity_reached, m)
      else bind (get_elem? parametros 1) λ size.
        let created = create_segment (atoi id) (atoi size) m in
        place_segment pid created.0 created.1

-- The bytes start as zeros, and segment 0 is the first to be allocated. The log apart, the check of
-- segment 0 changes nothing, but it follows the pointer first: where it is NULL, a fault.
unfoldable pub start_memory : Algoritmo → ℕ → ℕ → ℕ → Option Memoria
start_memory algorithm memory_size segment_zero_size segment_quantity =
    let created = create_segment 0 segment_zero_size (record {
      algorithm = algorithm;
      memory_size = memory_size;
      segment_quantity = segment_quantity;
      memory_space = replicate memory_size 0;
      free_space_table = bitarray_clean_all (bitarray_create memory_size);
      segment_0 = 0;
      all_segments_tables = [];
      heap = λ p. none;
      fresh = 0;
    }) in
    Option.map (λ p. record created.1 { segment_0 = p }) created.0
