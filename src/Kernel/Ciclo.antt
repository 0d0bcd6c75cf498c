-- ===== src/Kernel/Ciclo.antt =====
-- kernel/src/kernel_cycle.c: one process on the CPU, from the context sent to the queue that the
-- process goes to. libs/src/types_controllers.c: the context of a PCB. The packages that the CPU is
-- still to send are an argument, and what is left of them is the result. The times that the planner
-- reads are not kept.
use tp_2023_1c_kernel_flow.Base.{
  ℕ, suc, Bool, true, false, Option, none, some, List, [], ◌∷◌, ◌==◌, ◌||◌, if◌then◌else◌, bind,
  not, length,
}
use tp_2023_1c_kernel_flow.Wire.Types.{
  Identificador, i_wait, i_signal, i_i_o, i_yield, i_exit, i_f_write, i_f_close, i_f_open, i_f_read,
  i_f_seek, i_f_truncate, i_create_segment, i_delete_segment, Pcontexto, PcontextoDesalojo, success,
  error, process_new,
}
use tp_2023_1c_kernel_flow.Wire.Package.{Package, op_number, pcontextodesalojo, tsegmentos}
use tp_2023_1c_kernel_flow.Wire.Communication.{get_pcontexto_desalojo, get_tsegmento}
use tp_2023_1c_kernel_flow.Wire.Duplicados.{
  registers_duplicate, lista_instrucciones_duplicate, segment_list_duplicate, pid_status_create,
}
use tp_2023_1c_kernel_flow.Kernel.Estado.{
  QueueId, q_ready, q_exec, q_exit, Pcb, M, pure, ◌>>=◌, ◌>>◌, ask, if_null, follow, send, to_cpu,
  to_memory_status, set_pcb, set_exit, set_next_queue, set_segments, receive_from_memory,
}
use tp_2023_1c_kernel_flow.Kernel.Colas.{move_pcb_from_to, get_pcb_from}
use tp_2023_1c_kernel_flow.Kernel.Recursos.{Library, execute_wait, execute_signal}
use tp_2023_1c_kernel_flow.Kernel.Archivos.{execute_fopen, execute_fclose, execute_fseek, is_code}
use tp_2023_1c_kernel_flow.Kernel.Salida.{exit_process}
use tp_2023_1c_kernel_flow.Kernel.Disco.{
  execute_io, execute_fwrite, execute_fread, execute_ftruncate,
}
use tp_2023_1c_kernel_flow.Kernel.Segmentos.{execute_create_segment, execute_delete_segment}

-- The first table of segments of a process; the answer is whether it came.
unfoldable pub request_t_segment : ℕ → M Bool
request_t_segment pid = do
  send (to_memory_status (pid_status_create pid process_new))
  p ← receive_from_memory
  if p.operation_code == op_number tsegmentos
      then follow (get_tsegmento p) >>= (λ table. set_segments pid table >> pure true)
      else pure false

unfoldable pub execute_yield : ℕ → M Bool
execute_yield pid = set_next_queue pid q_ready >> pure false

unfoldable pub execute_exit : ℕ → PcontextoDesalojo → M Bool
execute_exit pid context = set_exit pid context.status_code >> pure false

unfoldable pub execute_default : ℕ → PcontextoDesalojo → M Bool
execute_default pid context = do
  pcb ← ask (λ k. k.pcbs pid)
  if not (is_code pcb.exit_status success) || not (is_code context.status_code success)
      then execute_exit pid context
      else pure false

-- NULL is the inner `none`.
unfoldable pub receive_pcontext_from_cpu : Package → Option (Option PcontextoDesalojo)
receive_pcontext_from_cpu p =
    if p.operation_code == op_number pcontextodesalojo
    then bind (get_pcontexto_desalojo p) (λ c. some (some c))
    else some none

unfoldable pub update_pcb : ℕ → PcontextoDesalojo → M (Unit {0})
update_pcb pid context = do
  registers ← follow (registers_duplicate context.registers)
  pcb ← ask (λ k. k.pcbs pid)
  set_pcb pid (record pcb { program_counter = context.program_counter; registers = registers })

unfoldable pub is_exit_queue : QueueId → Bool
is_exit_queue q_exit = true
is_exit_queue _ = false

module _ (lib : Library) where
  open lib use {string_duplicate}

  unfoldable pub pcontexto_create : ℕ → Pcb → Option Pcontexto
  pcontexto_create pid pcb = bind (registers_duplicate pcb.registers) λ registers.
      bind (lista_instrucciones_duplicate string_duplicate pcb.instrucciones) λ instructions.
        some (record {
          pid = pid;
          program_counter = pcb.program_counter;
          registers = registers;
          instructions = instructions;
          segments = segment_list_duplicate pcb.segments_table;
        })

  unfoldable pub send_pcb_to_cpu : ℕ → M (Unit {0})
  send_pcb_to_cpu pid = do
    pcb ← ask (λ k. k.pcbs pid)
    context ← follow (pcontexto_create pid pcb)
    send (to_cpu context)

  -- The answer of each instruction is whether the process goes on. A creation of a segment is asked of
  -- the memory once for each answer that the memory has, at most.
  unfoldable pub execute : ℕ → PcontextoDesalojo → Identificador → M Bool
  execute pid context i_wait = execute_wait lib pid context
  execute pid context i_signal = execute_signal lib pid context
  execute pid context i_i_o = execute_io lib pid context
  execute pid context i_yield = execute_yield pid
  execute pid context i_exit = execute_exit pid context
  execute pid context i_f_write = execute_fwrite lib pid context
  execute pid context i_f_close = execute_fclose lib pid context
  execute pid context i_f_open = execute_fopen lib pid context
  execute pid context i_f_read = execute_fread lib pid context
  execute pid context i_f_seek = execute_fseek lib pid context
  execute pid context i_f_truncate = execute_ftruncate lib pid context
  execute pid context i_create_segment =
      ask (λ k. length k.from_memory) >>= (λ n. execute_create_segment (suc n) pid context)
  execute pid context i_delete_segment = execute_delete_segment pid context
  execute pid context _ = execute_default pid context

  -- `again` is the second execution, where there is one; `rest` is left where there is none.
  unfoldable pub process_pcontexto_desalojo :
      M (List Package) → List Package → ℕ → PcontextoDesalojo → M (List Package)
  process_pcontexto_desalojo again rest pid context =
      if is_code context.status_code success
      then execute pid context context.motivo_desalojo.identificador
        >>= (λ se. if se then again else pure rest)
      else execute_exit pid context >>= (λ se. pure rest)

  -- The process moves on, once its first execution has ended.
  unfoldable pub leave_exec : ℕ → M (Unit {0})
  leave_exec pid = do
    pcb ← ask (λ k. k.pcbs pid)
    move_pcb_from_to pid q_exec pcb.next_queue
    if is_exit_queue pcb.next_queue then exit_process lib pid else pure tt

  unfoldable pub fail_exec : ℕ → M (Unit {0})
  fail_exec pid = do set_exit pid error; move_pcb_from_to pid q_exec q_exit; exit_process lib pid

  -- What follows the answer of the CPU.
  unfoldable pub answered_exec :
      M (List Package) → List Package → ℕ → Bool → Option PcontextoDesalojo → M (List Package)
  answered_exec again rest pid second none = fail_exec pid >> pure rest
  answered_exec again rest pid second (some context) = do
    update_pcb pid context
    left ← process_pcontexto_desalojo again rest pid context
    if second then pure tt else leave_exec pid
    pure left

  -- EXEC of a process; with no package to receive it waits.
  unfoldable pub exec_process : List Package → ℕ → Bool → M (List Package)
  exec_process [] pid second = λ k. none
  exec_process (p ∷ rest) pid second =
      let again = exec_process rest pid true in
      send_pcb_to_cpu pid
      >> (follow (receive_pcontext_from_cpu p) >>= answered_exec again rest pid second)

  -- EXEC (NULL, false): the process at the head of the queue, if there is one.
  unfoldable pub exec_first : List Package → M (List Package)
  exec_first packages = do
    pcb ← ask (λ k. get_pcb_from q_exec k.queues)
    if_null pcb (pure packages) (λ pid. exec_process packages pid false)
