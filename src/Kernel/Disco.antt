-- ===== src/Kernel/Disco.antt =====
-- kernel/src/kernel_instructions.c: the instructions that a thread carries out with the file system
-- while the process is blocked, and I/O. A thread that was started is an element of a list.
use tp_2023_1c_kernel_flow.Base.{
  ℕ, ◌+◌, Bool, true, false, List, [], ◌∷◌, ◌++◌, ◌==◌, if◌then◌else◌, get_elem?, set, length,
}
use tp_2023_1c_kernel_flow.Wire.Types.{
  Instruccion, PcontextoDesalojo, StatusCode, file_written, file_read, file_truncated, error,
}
use tp_2023_1c_kernel_flow.Wire.Package.{Package, op_number, status_code}
use tp_2023_1c_kernel_flow.Wire.Communication.{get_status_code}
use tp_2023_1c_kernel_flow.Wire.Duplicados.{instruccion_duplicate}
use tp_2023_1c_kernel_flow.Kernel.Estado.{
  io_thread, file_thread, q_block, q_ready, q_exit, M, pure, ◌>>=◌, ◌>>◌, ask, follow, send,
  start_thread, to_filesystem, set_status, set_next_queue, receive_from_filesystem,
}
use tp_2023_1c_kernel_flow.Kernel.Colas.{move_pcb_from_to}
use tp_2023_1c_kernel_flow.Kernel.Recursos.{Library}
use tp_2023_1c_kernel_flow.Kernel.Archivos.{buscar_archivo_abierto, is_code}
use tp_2023_1c_kernel_flow.Kernel.Salida.{exit_process}

-- The thread sleeps, and then moves the process: `wake_io`.
unfoldable pub wake_io : ℕ → M (Unit {0})
wake_io pid = move_pcb_from_to pid q_block q_ready

-- The instruction with the position in the file as its last parameter.
unfoldable pub with_puntero : List ℕ → Instruccion → Instruccion
with_puntero text x = record x {
  parametros = x.parametros ++ text ∷ [];
  p_length = set x.p_length 3 (length text);
  cant_parametros = x.cant_parametros + 1;
}

module _ (lib : Library) where
  open lib use {sprintf_u, string_duplicate}

  -- The time only says how long the thread sleeps.
  unfoldable pub execute_io : ℕ → PcontextoDesalojo → M Bool
  execute_io pid context = do
    text ← follow (get_elem? context.motivo_desalojo.parametros 0)
    set_next_queue pid q_block
    start_thread (io_thread pid)
    pure false

  -- F_READ and F_WRITE differ in the answer that they expect. The address of the local array `puntero`
  -- goes to the thread, which reads it after the return: the array is taken to keep its text.
  unfoldable pub execute_fdata : StatusCode → ℕ → PcontextoDesalojo → M Bool
  execute_fdata expected pid context = do
    copy ← follow (instruccion_duplicate string_duplicate context.motivo_desalojo)
    name ← follow (get_elem? copy.parametros 0)
    abierto ← buscar_archivo_abierto lib pid name
    file ← follow abierto
    start_thread (file_thread pid (with_puntero (sprintf_u file.puntero) copy) expected)
    address ← follow (get_elem? (with_puntero (sprintf_u file.puntero) copy).parametros 1)
    size ← follow (get_elem? (with_puntero (sprintf_u file.puntero) copy).parametros 2)
    set_next_queue pid q_block
    pure false

  unfoldable pub execute_fwrite : ℕ → PcontextoDesalojo → M Bool
  execute_fwrite = execute_fdata file_written

  unfoldable pub execute_fread : ℕ → PcontextoDesalojo → M Bool
  execute_fread = execute_fdata file_read

  unfoldable pub execute_ftruncate : ℕ → PcontextoDesalojo → M Bool
  execute_ftruncate pid context = do
    copy ← follow (instruccion_duplicate string_duplicate context.motivo_desalojo)
    name ← follow (get_elem? copy.parametros 0)
    start_thread (file_thread pid copy file_truncated)
    size ← follow (get_elem? copy.parametros 1)
    set_next_queue pid q_block
    pure false

  -- The process ends from the blocked ones.
  unfoldable pub abort_blocked : ℕ → StatusCode → M (Unit {0})
  abort_blocked pid code = do
    set_status pid code
    move_pcb_from_to pid q_block q_exit
    exit_process lib pid

  unfoldable pub answered : ℕ → StatusCode → Package → M (Unit {0})
  answered pid expected p =
      if p.operation_code == op_number status_code
      then follow (get_status_code p) >>= (λ code.
        if is_code code expected
        then move_pcb_from_to pid q_block q_ready
        else abort_blocked pid code)
      else abort_blocked pid error

  unfoldable pub ask_filesystem : ℕ → Instruccion → StatusCode → M Bool
  ask_filesystem pid x expected = do
    send (to_filesystem x)
    p ← receive_from_filesystem
    answered pid expected p
    pure true

  -- One pass of the loop: whether the loop ends with it. The memory that it frees is its own.
  unfoldable pub file_processing : ℕ → Instruccion → StatusCode → M Bool
  file_processing pid x expected = do
    ending ← ask (λ k. k.end_program_flag)
    compacting ← ask (λ k. k.compactation_flag)
    if ending then pure true else if compacting then pure false else ask_filesystem pid x expected
