-- ===== src/Memoria/Borrado.antt =====
-- memoria/src/segmentos.c and memoria/src/modulos.c: segments and tables are deleted, and the tables
-- of new processes are made. `list_remove_element` of the commons library is a parameter, on a list of
-- segments and on the list of tables.
pub mod Segmento
pub mod Ajeno
pub mod Tabla
use tp_2023_1c_kernel_flow.Base.{
  ℕ, suc, ◌+◌, Bool, true, false, Option, none, some, List, [], ◌∷◌, ◌==◌, bind, if◌then◌else◌,
  get_elem?, drop,
}
use tp_2023_1c_kernel_flow.Wire.Bytes.{u32}
use tp_2023_1c_kernel_flow.Wire.Types.{Segment, SegmentsTable, StatusCode}
use tp_2023_1c_kernel_flow.Memoria.Espacio.{bitarray_clean_from_and_how_many}
use tp_2023_1c_kernel_flow.Memoria.Estado.{
  Table, Memoria, get_segment_by_id, get_segments_table_by_pid,
}
use tp_2023_1c_kernel_flow.Memoria.Datos.{Reply, table_reply}
use tp_2023_1c_kernel_flow.Memoria.Segmentos.{free, create_segments_table}

-- The segments that the pointers of a list point to, as `send_tsegmento` follows them.
unfoldable pub load_segments : (ℕ → Option Segment) → List ℕ → Option (List Segment)
load_segments heap [] = some []
load_segments heap (p ∷ ps) = bind (heap p) λ s. bind (load_segments heap ps) λ ss. some (s ∷ ss)

-- The answer with the table of a process.
unfoldable pub send_table : ℕ → Memoria → Option (Reply × Memoria)
send_table pid m = bind (get_segments_table_by_pid pid m.all_segments_tables) λ table.
    bind (load_segments m.heap table.segment_list)
      λ ss. some (table_reply (record { pid = table.pid; segment_list = ss }), m)

-- The bits and the block of a segment are given back.
unfoldable pub release_segment : ℕ → Memoria → Option Memoria
release_segment p m = bind (m.heap p) λ s. some (
    free p (record m {
      free_space_table = bitarray_clean_from_and_how_many m.free_space_table s.base_address s.size;
    }))

unfoldable pub release_each : List ℕ → Memoria → Option Memoria
release_each [] m = some m
release_each (p ∷ ps) m = bind (release_segment p m) λ m'. release_each ps m'

module _ (list_remove_element : List ℕ → ℕ → List ℕ) where
  -- The element is taken from the list of the first table of a process.
  unfoldable pub remove_from_table : ℕ → ℕ → List Table → List Table
  remove_from_table pid p [] = []
  remove_from_table pid p (t ∷ ts) =
      let rest = remove_from_table pid p ts in
      if t.pid == pid
      then record t { segment_list = list_remove_element t.segment_list p } ∷ ts
      else t ∷ rest

  -- A process with no table is NULL, which is followed.
  unfoldable pub delete_segment : ℕ → ℕ → Memoria → Option Memoria
  delete_segment pid p m = bind (get_segments_table_by_pid pid m.all_segments_tables) λ table.
      bind (release_segment p m) λ m'.
        some (record m' { all_segments_tables = remove_from_table pid p m.all_segments_tables })

  -- I_DELETE_SEGMENT of `handle_kernel_pid_instruction`. A segment that is not found is NULL, which
  -- the log follows.
  unfoldable pub handle_delete_segment :
      (List ℕ → ℕ) → ℕ → List (List ℕ) → Memoria → Option (Reply × Memoria)
  handle_delete_segment atoi pid parametros m = bind (get_elem? parametros 0) λ id.
      bind (get_segment_by_id (u32 (atoi id)) m)
        λ found. bind found λ p. bind (delete_segment pid p m) λ m'. send_table pid m'

-- PROCESS_NEW of `handle_pid_status`.
unfoldable pub handle_process_new : ℕ → Memoria → Option (Reply × Memoria)
handle_process_new pid m = send_table pid (create_segments_table pid m)

-- Segment 0, the first of the list, stays. A process with no table is NULL, which is followed.
unfoldable pub delete_segments_table :
    (List Table → Table → List Table) → Option Table → Memoria → Option Memoria
delete_segments_table list_remove_table found m = bind found λ table.
    release_each (drop 1 table.segment_list)
      (record m { all_segments_tables = list_remove_table m.all_segments_tables table })

-- PROCESS_END of `handle_pid_status`, which has no answer.
unfoldable pub handle_process_end : (List Table → Table → List Table) → ℕ → Memoria → Option Memoria
handle_process_end list_remove_table pid m =
    delete_segments_table list_remove_table (get_segments_table_by_pid pid m.all_segments_tables) m
