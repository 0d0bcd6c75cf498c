-- ===== src/Kernel/Nucleo.antt =====
-- kernel/src/kernel_core.c: the moves of processes from NEW to READY and from READY to EXEC.
-- kernel/src/server_handle.c: a new process. kernel/src/planner.c: the order of READY.
use tp_2023_1c_kernel_flow.Base.{
  ℕ, zero, suc, ◌+◌, Bool, true, false, none, some, List, [], ◌∷◌, ◌++◌, ltb, not, ◌&&◌,
  if◌then◌else◌,
}
use tp_2023_1c_kernel_flow.Wire.Types.{error}
use tp_2023_1c_kernel_flow.Wire.Package.{Package}
use tp_2023_1c_kernel_flow.Kernel.Estado.{
  q_new, q_ready, q_exec, q_block, q_exit, Pcb, Queues, M, pure, ◌>>=◌, ◌>>◌, ask, if_null, follow,
  set_status, set_pcb,
}
use tp_2023_1c_kernel_flow.Kernel.Colas.{
  get_queue, set_queue, get_queue_size, is_queue_empty, get_pcb_from, move_pcb_from_to,
  move_fist_from_to, add_pcb_to_queue,
}
use tp_2023_1c_kernel_flow.Kernel.Recursos.{Library}
use tp_2023_1c_kernel_flow.Kernel.Salida.{exit_process}
use tp_2023_1c_kernel_flow.Kernel.Ciclo.{request_t_segment, exec_first}

-- The three sizes are read one after another, each under the lock of its queue: here READY, EXEC and
-- BLOCK as they are at those moments.
abbrev pub read_multiprog : Queues → Queues → Queues → ℕ
read_multiprog at_ready at_exec at_block =
    get_queue_size q_ready at_ready
    + get_queue_size q_exec at_exec
    + get_queue_size q_block at_block

-- Where no other thread moves a process between the reads.
unfoldable pub get_actual_multiprog : Queues → ℕ
get_actual_multiprog q = read_multiprog q q q

unfoldable pub can_execute_process : Queues → Bool
can_execute_process q = not (is_queue_empty q_ready q) && is_queue_empty q_exec q

-- The planner sorts READY, or leaves it as it is: `plan` is the list that it makes of a list.
unfoldable pub apply_planner_algorithm : (List ℕ → List ℕ) → M (Unit {0})
apply_planner_algorithm plan k =
    some (tt, record k { queues = set_queue q_ready (plan (get_queue q_ready k.queues)) k.queues })

unfoldable pub add_pcb : ℕ → M (Unit {0})
add_pcb pid k = some (tt, record k { all_pcb = k.all_pcb ++ pid ∷ [] })

module _ (lib : Library) (grado_max_multiprog : ℕ) where
  unfoldable pub accept_new_process_in_ready : Queues → Bool
  accept_new_process_in_ready q = ltb (get_actual_multiprog q) grado_max_multiprog

  unfoldable pub can_move_new_to_ready : Queues → Bool
  can_move_new_to_ready q = ltb 0 (get_queue_size q_new q) && accept_new_process_in_ready q

  -- What one pass of the loop does with the answer of the memory.
  unfoldable pub leave_new : ℕ → Bool → M (Unit {0})
  leave_new pid true = move_pcb_from_to pid q_new q_ready
  leave_new pid false =
      move_pcb_from_to pid q_new q_exit >> (set_status pid error >> exit_process lib pid)

  unfoldable pub move_first_new : M (Unit {0})
  move_first_new = do
    queues ← ask (λ k. k.queues)
    pid ← follow (get_pcb_from q_new queues)
    created ← request_t_segment pid
    leave_new pid created

  -- The fuel is the number of passes, and one more.
  unfoldable pub move_new_to_ready : ℕ → M (Unit {0})
  move_new_to_ready zero = λ k. none
  move_new_to_ready (suc fuel) =
      let again = move_new_to_ready fuel in
      ask (λ k. can_move_new_to_ready k.queues)
      >>= (λ can. if can then move_first_new >> again else pure tt)

  unfoldable pub execute_first_ready : (List ℕ → List ℕ) → List Package → M (List Package)
  execute_first_ready plan packages = do
    apply_planner_algorithm plan
    to_execute ← move_fist_from_to q_ready q_exec
    if_null to_execute (pure packages) (λ pid. exec_first lib packages)

  -- The estimate for the next burst is not kept.
  unfoldable pub move_ready_to_exec : (List ℕ → List ℕ) → List Package → M (List Package)
  move_ready_to_exec plan packages = do
    can ← ask (λ k. can_execute_process k.queues)
    if can then execute_first_ready plan packages else pure packages

  -- A new process: its PCB, and the queue NEW either way.
  unfoldable pub process_instrucciones : ℕ → ℕ → Pcb → M (Unit {0})
  process_instrucciones fuel pid pcb = do
    set_pcb pid pcb
    add_pcb pid
    accepted ← ask (λ k. accept_new_process_in_ready k.queues)
    add_pcb_to_queue pid q_new
    if accepted then move_new_to_ready fuel else pure tt
