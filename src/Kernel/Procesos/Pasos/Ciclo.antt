-- ===== src/Kernel/Procesos/Pasos/Ciclo.antt =====
-- kernel/src/kernel_cycle.c: what the execution of a process does to the queues.
use tp_2023_1c_kernel_flow.Base.{ℕ, Bool, true, Option, none, some, List, [], ◌∷◌}
use tp_2023_1c_kernel_flow.Wire.Types.{
  PcontextoDesalojo, Identificador, i_wait, i_signal, i_i_o, i_yield, i_exit, i_f_write, i_f_close,
  i_f_open, i_f_read, i_f_seek, i_f_truncate, i_create_segment, i_delete_segment,
}
use tp_2023_1c_kernel_flow.Wire.Package.{Package}
use tp_2023_1c_kernel_flow.Kernel.Estado.{QueueId, q_exec, Queues, M}
use tp_2023_1c_kernel_flow.Kernel.Colas.{move_pcb_from_to}
use tp_2023_1c_kernel_flow.Kernel.Colas.Moves.{Moved}
use tp_2023_1c_kernel_flow.Kernel.Recursos.{Library}
use tp_2023_1c_kernel_flow.Kernel.Disco.{execute_fwrite, execute_fread}
use tp_2023_1c_kernel_flow.Kernel.Ciclo.{
  request_t_segment, receive_pcontext_from_cpu, execute_yield, execute_exit, execute_default,
  update_pcb, send_pcb_to_cpu, execute, process_pcontexto_desalojo, leave_exec, fail_exec,
  answered_exec, exec_process, exec_first,
}
use tp_2023_1c_kernel_flow.Kernel.Procesos.Pasos.{
  Effect, Does, step_rules, pure-Does, none-Does, bind-Does, if-Does, leave-Does, follow-Does,
}
use tp_2023_1c_kernel_flow.Kernel.Procesos.Pasos.Instrucciones.{
  set_pcb-Does, set_next_queue-Does, set_exit-Does, set_segments-Does, send-Does,
  receive_from_memory-Does, execute_wait-Does, execute_signal-Does,
}
use tp_2023_1c_kernel_flow.Kernel.Procesos.Pasos.Archivos.{
  execute_fopen-Does, execute_fclose-Does, execute_fseek-Does,
}
use tp_2023_1c_kernel_flow.Kernel.Procesos.Pasos.Salida.{
  exit_process-Does, execute_io-Does, execute_fdata-Does, execute_ftruncate-Does,
}
use tp_2023_1c_kernel_flow.Kernel.Procesos.Pasos.Segmentos.{
  execute_create_segment-Does, execute_delete_segment-Does,
}

module _ (eff : Effect) where
  pub request_t_segment-Does : (pid : ℕ) → Does eff (request_t_segment pid)
  unfolding request_t_segment
  request_t_segment-Does pid =
      search (step_rules, send-Does, receive_from_memory-Does, set_segments-Does) depth 12

  module _ (lib : Library) where
    execute_exit-Does :
        (pid : ℕ) (context : PcontextoDesalojo) → Does eff (execute_exit pid context)
    unfolding execute_exit
    execute_exit-Does pid context = search (step_rules, set_exit-Does)

    execute_default-Does :
        (pid : ℕ) (context : PcontextoDesalojo) → Does eff (execute_default pid context)
    unfolding execute_default
    execute_default-Does pid context = search (step_rules, execute_exit-Does)

    execute-Does :
        (pid : ℕ) (context : PcontextoDesalojo) (i : Identificador)
        → Does eff (execute lib pid context i)
    unfolding execute execute_fwrite execute_fread execute_yield
    execute-Does pid context i_wait = execute_wait-Does eff lib pid context
    execute-Does pid context i_signal = execute_signal-Does eff lib pid context
    execute-Does pid context i_i_o = execute_io-Does eff lib pid context
    execute-Does pid context i_yield = search (step_rules, set_next_queue-Does)
    execute-Does pid context i_exit = execute_exit-Does pid context
    execute-Does pid context i_f_write = execute_fdata-Does eff lib _ pid context
    execute-Does pid context i_f_close = execute_fclose-Does eff lib pid context
    execute-Does pid context i_f_open = execute_fopen-Does eff lib pid context
    execute-Does pid context i_f_read = execute_fdata-Does eff lib _ pid context
    execute-Does pid context i_f_seek = execute_fseek-Does eff lib pid context
    execute-Does pid context i_f_truncate = execute_ftruncate-Does eff lib pid context
    execute-Does pid context i_create_segment = search (step_rules, execute_create_segment-Does)
    execute-Does pid context i_delete_segment = execute_delete_segment-Does eff pid context
    execute-Does pid context _ = execute_default-Does pid context

    process-Does :
        (again : M (List Package)) (rest : List Package) (pid : ℕ) (context : PcontextoDesalojo)
        → Does eff again
        → Does eff (process_pcontexto_desalojo lib again rest pid context)
    unfolding process_pcontexto_desalojo
    process-Does again rest pid context h =
        if-Does eff _
          (bind-Does eff (execute-Does pid context _) λ se. if-Does eff se h (pure-Does eff rest))
          (bind-Does eff (execute_exit-Does pid context) λ se. pure-Does eff rest)

    update_pcb-Does : (pid : ℕ) (context : PcontextoDesalojo) → Does eff (update_pcb pid context)
    unfolding update_pcb
    update_pcb-Does pid context = search (step_rules, set_pcb-Does)

    module _
        (leaving : (pid : ℕ) (id : QueueId) (q q' : Queues)
          → Moved pid q_exec id q q'
          → eff.relation q q') where
      leaves : (pid : ℕ) (id : QueueId) → Does eff (move_pcb_from_to pid q_exec id)
      leaves = leave-Does eff leaving

      leave_exec-Does : (pid : ℕ) → Does eff (leave_exec lib pid)
      unfolding leave_exec
      leave_exec-Does pid = search (step_rules, leaves, exit_process-Does)

      fail_exec-Does : (pid : ℕ) → Does eff (fail_exec lib pid)
      unfolding fail_exec
      fail_exec-Does pid = search (step_rules, leaves, set_exit-Does, exit_process-Does)

      send_pcb_to_cpu-Does : (pid : ℕ) → Does eff (send_pcb_to_cpu lib pid)
      unfolding send_pcb_to_cpu
      send_pcb_to_cpu-Does pid = search (step_rules, send-Does)

      answered_exec-Does :
          (again : M (List Package)) (rest : List Package) (pid : ℕ) (second : Bool)
          (context : Option PcontextoDesalojo)
          → Does eff again
          → Does eff (answered_exec lib again rest pid second context)
      unfolding answered_exec
      answered_exec-Does again rest pid second none h = search (step_rules, fail_exec-Does)
      answered_exec-Does again rest pid second (some context) h =
          bind-Does eff (update_pcb-Does pid context) λ _.
            bind-Does eff (process-Does again rest pid context h) λ left.
              bind-Does eff (if-Does eff second (pure-Does eff tt) (leave_exec-Does pid))
                λ _. pure-Does eff left

      pub exec_process-Does :
          (packages : List Package) (pid : ℕ) (second : Bool)
          → Does eff (exec_process lib packages pid second)
      unfolding exec_process
      exec_process-Does [] pid second = none-Does eff
      exec_process-Does (p ∷ rest) pid second =
          let again = exec_process-Does rest pid true in
          bind-Does eff (send_pcb_to_cpu-Does pid) λ _.
            bind-Does eff (follow-Does eff (receive_pcontext_from_cpu p))
              λ context. answered_exec-Does _ rest pid second context again

      pub exec_first-Does : (packages : List Package) → Does eff (exec_first lib packages)
      unfolding exec_first
      exec_first-Does packages = search (step_rules, exec_process-Does)
