-- ===== src/Kernel/Procesos/Pasos/Instrucciones.antt =====
-- kernel/src/kernel_instructions.c: each instruction only wakes processes or ends them.
use tp_2023_1c_kernel_flow.Base.{ℕ, refl, Option, none, some, List}
use tp_2023_1c_kernel_flow.Wire.Types.{SegmentsTable, PcontextoDesalojo, StatusCode}
use tp_2023_1c_kernel_flow.Kernel.Estado.{
  QueueId, Pcb, Recurso, Message, Thread, load, save, send, start_thread, set_pcb, set_next_queue,
  set_exit, set_status, set_segments, set_files, receive_from_filesystem, receive_from_memory,
  ArchivoAbierto,
}
use tp_2023_1c_kernel_flow.Kernel.Recursos.{
  Library, remove_pcb_from_queue_resourse, wake_first, take_instance, wait_in_list, give_instance,
  invalid, wait_for, find_recurso, execute_wait, drop_shared, signal_to, execute_signal,
}
use tp_2023_1c_kernel_flow.Kernel.Procesos.Pasos.{
  Effect, Does, step_rules, change-Does, receive-Does, at-Does, follow-Does,
}

module _ (eff : Effect) where
  pub set_pcb-Does : (pid : ℕ) (pcb : Pcb) → Does eff (set_pcb pid pcb)
  unfolding set_pcb
  set_pcb-Does pid pcb = change-Does eff tt _ λ k. refl

  pub set_next_queue-Does : (pid : ℕ) (id : QueueId) → Does eff (set_next_queue pid id)
  unfolding set_next_queue
  set_next_queue-Does pid id = at-Does eff λ k. set_pcb-Does pid _

  pub set_exit-Does : (pid : ℕ) (code : StatusCode) → Does eff (set_exit pid code)
  unfolding set_exit
  set_exit-Does pid code = at-Does eff λ k. set_pcb-Does pid _

  pub set_status-Does : (pid : ℕ) (code : StatusCode) → Does eff (set_status pid code)
  unfolding set_status
  set_status-Does pid code = at-Does eff λ k. set_pcb-Does pid _

  pub set_segments-Does : (pid : ℕ) (table : SegmentsTable) → Does eff (set_segments pid table)
  unfolding set_segments
  set_segments-Does pid table = at-Does eff λ k. set_pcb-Does pid _

  pub set_files-Does : (pid : ℕ) (files : List ArchivoAbierto) → Does eff (set_files pid files)
  unfolding set_files
  set_files-Does pid files = at-Does eff λ k. set_pcb-Does pid _

  pub save-Does : (p : ℕ) (r : Option Recurso) → Does eff (save p r)
  unfolding save
  save-Does p r = change-Does eff tt _ λ k. refl

  pub send-Does : (message : Message) → Does eff (send message)
  unfolding send
  send-Does message = change-Does eff tt _ λ k. refl

  pub start_thread-Does : (thread : Thread) → Does eff (start_thread thread)
  unfolding start_thread
  start_thread-Does thread = change-Does eff tt _ λ k. refl

  pub load-Does : (p : ℕ) → Does eff (load p)
  unfolding load
  load-Does p = at-Does eff λ k. follow-Does eff (k.heap p)

  pub remove_pcb-Does : (p : ℕ) → Does eff (remove_pcb_from_queue_resourse p)
  unfolding remove_pcb_from_queue_resourse
  remove_pcb-Does p = search (step_rules, load-Does, save-Does)

  pub wake_first-Does : (p : ℕ) → Does eff (wake_first p)
  unfolding wake_first
  wake_first-Does p = search (step_rules, remove_pcb-Does)

  pub take_instance-Does : (pid p : ℕ) → Does eff (take_instance pid p)
  unfolding take_instance
  take_instance-Does pid p = search (step_rules, load-Does, save-Does, set_pcb-Does)

  pub wait_in_list-Does : (pid p : ℕ) → Does eff (wait_in_list pid p)
  unfolding wait_in_list
  wait_in_list-Does pid p = search (step_rules, load-Does, save-Does)

  pub give_instance-Does : (p : ℕ) → Does eff (give_instance p)
  unfolding give_instance
  give_instance-Does p = search (step_rules, load-Does, save-Does)

  pub invalid-Does : (pid : ℕ) → Does eff (invalid pid)
  unfolding invalid
  invalid-Does pid = search (step_rules, set_exit-Does)

  pub wait_for-Does : (pid : ℕ) (found : Option ℕ) → Does eff (wait_for pid found)
  unfolding wait_for
  wait_for-Does pid none = invalid-Does pid
  wait_for-Does pid (some p) =
      search (step_rules, take_instance-Does, set_next_queue-Does, wait_in_list-Does)

  pub receive_from_filesystem-Does : Does eff receive_from_filesystem
  unfolding receive_from_filesystem
  receive_from_filesystem-Does =
      receive-Does eff (λ k. k.from_filesystem) (λ l k. record k { from_filesystem = l })
        (λ l k. refl)

  pub receive_from_memory-Does : Does eff receive_from_memory
  unfolding receive_from_memory
  receive_from_memory-Does =
      receive-Does eff (λ k. k.from_memory) (λ l k. record k { from_memory = l }) (λ l k. refl)

  module _ (lib : Library) where
    pub find_recurso-Does : (name : List ℕ) → Does eff (find_recurso lib name)
    unfolding find_recurso
    find_recurso-Does name = search step_rules

    pub execute_wait-Does :
        (pid : ℕ) (context : PcontextoDesalojo) → Does eff (execute_wait lib pid context)
    unfolding execute_wait
    execute_wait-Does pid context = search (step_rules, find_recurso-Does, wait_for-Does)

    pub drop_shared-Does : (pid p : ℕ) → Does eff (drop_shared lib pid p)
    unfolding drop_shared
    drop_shared-Does pid p = at-Does eff λ k. set_pcb-Does pid _

    pub signal_to-Does : (pid : ℕ) (found : Option ℕ) → Does eff (signal_to lib pid found)
    unfolding signal_to
    signal_to-Does pid none = invalid-Does pid
    signal_to-Does pid (some p) =
        search (step_rules, give_instance-Does, drop_shared-Does, wake_first-Does)

    pub execute_signal-Does :
        (pid : ℕ) (context : PcontextoDesalojo) → Does eff (execute_signal lib pid context)
    unfolding execute_signal
    execute_signal-Does pid context = search (step_rules, find_recurso-Does, signal_to-Does)
