-- ===== src/Kernel/Segmentos.antt =====
-- kernel/src/kernel_instructions.c: the creation and the deletion of segments, with the compaction that
-- a creation may ask for. kernel/src/kernel_sources.c: the tables that the memory sends back.
pub mod Consumo
use tp_2023_1c_kernel_flow.Base.{
  ℕ, zero, suc, ◌+◌, Bool, true, false, Option, none, some, List, [], ◌∷◌, ◌++◌, ◌==◌,
  if◌then◌else◌, get_elem?,
}
use tp_2023_1c_kernel_flow.Wire.Types.{
  Instruccion, PcontextoDesalojo, PidInstruccion, StatusCode, SegmentsTable, Segment,
  segmentation_fault, out_of_memory, compactation_required, error,
}
use tp_2023_1c_kernel_flow.Wire.Package.{
  Package, op_number, OpCode, status_code, segmento, tsegmentos, ltsegmentos,
}
use tp_2023_1c_kernel_flow.Wire.Communication.{
  get_status_code, get_segment, get_tsegmento, get_ltsegmentos,
}
use tp_2023_1c_kernel_flow.Kernel.Estado.{
  Kernel, M, pure, ◌>>=◌, ◌>>◌, ask, follow, send, to_memory, to_memory_compactar, set_segments,
  receive_from_memory,
}
use tp_2023_1c_kernel_flow.Kernel.Colas.{get_pcb_index_from_queue}
use tp_2023_1c_kernel_flow.Kernel.Archivos.{fail_with, is_code}

-- The table of each process changes; `all_pcb` has the PCBs that were created, and the index of -1 is
-- a fault.
unfoldable pub actualizar_tabla : SegmentsTable → M (Unit {0})
actualizar_tabla table = do
  all_pcb ← ask (λ k. k.all_pcb)
  index ← follow (get_pcb_index_from_queue table.pid all_pcb)
  pid ← follow (get_elem? all_pcb index)
  set_segments pid table

unfoldable pub actualizar_tablas : List SegmentsTable → M (Unit {0})
actualizar_tablas [] = pure tt
actualizar_tablas (table ∷ rest) = actualizar_tabla table >> actualizar_tablas rest

unfoldable pub set_compactation : Bool → Bool → M (Unit {0})
set_compactation compacting blocked k =
    some (tt, record k { compactation_flag = compacting; fs_blocked = blocked })

unfoldable pub set_end_program : M (Unit {0})
set_end_program k = some (tt, record k { end_program_flag = true })

unfoldable pub compacted : Package → M (Unit {0})
compacted p =
    if p.operation_code == op_number ltsegmentos
    then follow (get_ltsegmentos p) >>= actualizar_tablas
    else set_end_program

unfoldable pub compactar : M (Unit {0})
compactar = do
  set_compactation true true
  send to_memory_compactar
  p ← receive_from_memory
  compacted p
  set_compactation false false

unfoldable pub add_segment : ℕ → Segment → M (Unit {0})
unfolding set_segments
add_segment pid s k =
    let table = (k.pcbs pid).segments_table in
    set_segments pid (record table { segment_list = table.segment_list ++ s ∷ [] }) k

-- The answer of the memory; `again` is the whole instruction once more. Another status than the two is
-- passed over.
unfoldable pub segment_answer : M Bool → ℕ → Package → M Bool
segment_answer again pid p =
    if p.operation_code == op_number status_code
    then follow (get_status_code p) >>= (λ code.
      if is_code code out_of_memory
      then fail_with pid out_of_memory
      else if is_code code compactation_required
      then compactar >> again
      else pure false)
    else if p.operation_code == op_number segmento
    then follow (get_segment p) >>= (λ s. add_segment pid s >> pure true)
    else fail_with pid error

unfoldable pub to_memory_from : ℕ → Instruccion → M (Unit {0})
to_memory_from pid x = send (to_memory (record { pid = pid; instruccion = x }))

-- The fuel is the number of times that the instruction is asked of the memory.
unfoldable pub execute_create_segment : ℕ → ℕ → PcontextoDesalojo → M Bool
execute_create_segment zero pid context = λ k. none
execute_create_segment (suc fuel) pid context =
    let again = execute_create_segment fuel pid context in
    if is_code context.status_code segmentation_fault
    then fail_with pid segmentation_fault
    else to_memory_from pid context.motivo_desalojo
      >> (receive_from_memory >>= segment_answer again pid)

unfoldable pub execute_delete_segment : ℕ → PcontextoDesalojo → M Bool
execute_delete_segment pid context = do
  to_memory_from pid context.motivo_desalojo
  p ← receive_from_memory
  if p.operation_code == op_number tsegmentos
      then follow (get_tsegmento p) >>= (λ table.
        set_segments pid table
        >> (follow (get_elem? context.motivo_desalojo.parametros 0) >>= λ _. pure true))
      else fail_with pid error
