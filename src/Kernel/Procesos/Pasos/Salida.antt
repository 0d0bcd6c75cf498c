-- ===== src/Kernel/Procesos/Pasos/Salida.antt =====
-- kernel/src/kernel_cycle.c: EXIT, and the instructions and threads of kernel/src/kernel_instructions.c
-- that work while a process is blocked: what they do to the queues.
use tp_2023_1c_kernel_flow.Base.{ℕ, List, [], ◌∷◌}
use tp_2023_1c_kernel_flow.Wire.Types.{PcontextoDesalojo, Instruccion, StatusCode}
use tp_2023_1c_kernel_flow.Wire.Package.{Package}
use tp_2023_1c_kernel_flow.Kernel.Estado.{ArchivoAbierto}
use tp_2023_1c_kernel_flow.Kernel.Recursos.{Library}
use tp_2023_1c_kernel_flow.Kernel.Salida.{
  close_all, release, release_all, clear_shared, exit_process,
}
use tp_2023_1c_kernel_flow.Kernel.Disco.{
  wake_io, execute_io, execute_fdata, execute_ftruncate, abort_blocked, answered, ask_filesystem,
  file_processing,
}
use tp_2023_1c_kernel_flow.Kernel.Procesos.Pasos.{
  Effect, Does, step_rules, at-Does, pure-Does, bind-Does,
}
use tp_2023_1c_kernel_flow.Kernel.Procesos.Pasos.Instrucciones.{
  set_pcb-Does, set_next_queue-Does, set_status-Does, set_files-Does, save-Does, send-Does,
  start_thread-Does, load-Does, wake_first-Does, give_instance-Does, receive_from_filesystem-Does,
}
use tp_2023_1c_kernel_flow.Kernel.Procesos.Pasos.Archivos.{
  close_archivo-Does, buscar_archivo_abierto-Does,
}

module _ (eff : Effect) where
  module _ (lib : Library) where
    pub close_all-Does : (files : List ArchivoAbierto) → Does eff (close_all lib files)
    unfolding close_all
    close_all-Does [] = pure-Does eff tt
    close_all-Does (a ∷ rest) =
        bind-Does eff (close_archivo-Does eff lib a.archivo) λ _. close_all-Does rest

    pub release-Does : (pid p : ℕ) → Does eff (release lib pid p)
    unfolding release
    release-Does pid p =
        search (step_rules, give_instance-Does, load-Does, save-Does, wake_first-Does)

    pub release_all-Does : (pid : ℕ) (ps : List ℕ) → Does eff (release_all lib pid ps)
    unfolding release_all
    release_all-Does pid [] = pure-Does eff tt
    release_all-Does pid (p ∷ rest) =
        bind-Does eff (release-Does pid p) λ _. release_all-Does pid rest

    pub clear_shared-Does : (pid : ℕ) → Does eff (clear_shared lib pid)
    unfolding clear_shared
    clear_shared-Does pid = at-Does eff λ k. set_pcb-Does eff pid _

    pub exit_process-Does : (pid : ℕ) → Does eff (exit_process lib pid)
    unfolding exit_process
    exit_process-Does pid =
        search
          (
            step_rules, send-Does, close_all-Does, set_files-Does, release_all-Does,
            clear_shared-Does,
          )
          depth 12

    pub execute_io-Does :
        (pid : ℕ) (context : PcontextoDesalojo) → Does eff (execute_io lib pid context)
    unfolding execute_io
    execute_io-Does pid context = search (step_rules, set_next_queue-Does, start_thread-Does)

    pub execute_fdata-Does :
        (expected : StatusCode) (pid : ℕ) (context : PcontextoDesalojo)
        → Does eff (execute_fdata lib expected pid context)
    unfolding execute_fdata
    execute_fdata-Does expected pid context =
        search (step_rules, buscar_archivo_abierto-Does, set_next_queue-Does, start_thread-Does)
          depth 20

    pub execute_ftruncate-Does :
        (pid : ℕ) (context : PcontextoDesalojo) → Does eff (execute_ftruncate lib pid context)
    unfolding execute_ftruncate
    execute_ftruncate-Does pid context =
        search (step_rules, set_next_queue-Does, start_thread-Does) depth 12

    pub abort_blocked-Does : (pid : ℕ) (code : StatusCode) → Does eff (abort_blocked lib pid code)
    unfolding abort_blocked
    abort_blocked-Does pid code = search (step_rules, set_status-Does, exit_process-Does)

    pub answered-Does :
        (pid : ℕ) (expected : StatusCode) (p : Package) → Does eff (answered lib pid expected p)
    unfolding answered
    answered-Does pid expected p = search (step_rules, abort_blocked-Does)

    pub ask_filesystem-Does :
        (pid : ℕ) (x : Instruccion) (expected : StatusCode)
        → Does eff (ask_filesystem lib pid x expected)
    unfolding ask_filesystem
    ask_filesystem-Does pid x expected =
        search (step_rules, send-Does, receive_from_filesystem-Does, answered-Does)

    pub file_processing-Does :
        (pid : ℕ) (x : Instruccion) (expected : StatusCode)
        → Does eff (file_processing lib pid x expected)
    unfolding file_processing
    file_processing-Does pid x expected = search (step_rules, ask_filesystem-Does)

  pub wake_io-Does : (pid : ℕ) → Does eff (wake_io pid)
  unfolding wake_io
  wake_io-Does pid = search step_rules
