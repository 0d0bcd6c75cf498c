-- ===== src/Kernel/Procesos/Pasos/Archivos.antt =====
-- kernel/src/kernel_instructions.c: the instructions on files only wake processes.
use tp_2023_1c_kernel_flow.Base.{ℕ, refl, Bool, List}
use tp_2023_1c_kernel_flow.Wire.Types.{PcontextoDesalojo, StatusCode}
use tp_2023_1c_kernel_flow.Wire.Package.{Package}
use tp_2023_1c_kernel_flow.Kernel.Estado.{Recurso, M, ArchivoAbierto}
use tp_2023_1c_kernel_flow.Kernel.Recursos.{Library}
use tp_2023_1c_kernel_flow.Kernel.Archivos.{
  allocate, crear_archivo, add_file, add_archivo, lose_instance, open_new, open_shared, fail_with,
  drop_archivo, close_archivo, buscar_archivo, find_archivo_abierto_index, buscar_archivo_abierto,
  created, execute_fcreate, opened, execute_fopen, with_open_file, close_at, execute_fclose,
  seek_at, execute_fseek,
}
use tp_2023_1c_kernel_flow.Kernel.Procesos.Pasos.{Effect, Does, step_rules, change-Does, at-Does}
use tp_2023_1c_kernel_flow.Kernel.Procesos.Pasos.Instrucciones.{
  set_next_queue-Does, set_exit-Does, set_files-Does, save-Does, send-Does, load-Does,
  wake_first-Does, give_instance-Does, invalid-Does, receive_from_filesystem-Does,
}

module _ (eff : Effect) where
  pub allocate-Does : (p : ℕ) (r : Recurso) → Does eff (allocate p r)
  unfolding allocate
  allocate-Does p r = change-Does eff tt _ λ k. refl

  pub crear_archivo-Does : (name : List ℕ) → Does eff (crear_archivo name)
  unfolding crear_archivo
  crear_archivo-Does name = search (step_rules, allocate-Does)

  pub add_file-Does : (pid : ℕ) (file : ArchivoAbierto) → Does eff (add_file pid file)
  unfolding add_file
  add_file-Does pid file = at-Does eff λ k. set_files-Does eff pid _

  pub add_archivo-Does : (p : ℕ) → Does eff (add_archivo p)
  unfolding add_archivo
  add_archivo-Does p = change-Does eff tt _ λ k. refl

  pub drop_archivo-Does : (f : List ℕ → ℕ → List ℕ) (p : ℕ) → Does eff (drop_archivo f p)
  unfolding drop_archivo
  drop_archivo-Does f p = change-Does eff tt _ λ k. refl

  pub lose_instance-Does : (p : ℕ) → Does eff (lose_instance p)
  unfolding lose_instance
  lose_instance-Does p = search (step_rules, load-Does, save-Does)

  pub fail_with-Does : (pid : ℕ) (code : StatusCode) → Does eff (fail_with pid code)
  unfolding fail_with
  fail_with-Does pid code = search (step_rules, set_exit-Does)

  module _ (lib : Library) where
    pub open_new-Does : (pid : ℕ) (name : List ℕ) → Does eff (open_new pid name)
    unfolding open_new
    open_new-Does pid name =
        search (step_rules, crear_archivo-Does, add_archivo-Does, add_file-Does, lose_instance-Does)

    pub open_shared-Does : (pid p : ℕ) → Does eff (open_shared pid p)
    unfolding open_shared
    open_shared-Does pid p =
        search (step_rules, add_file-Does, load-Does, save-Does, set_next_queue-Does)

    pub close_archivo-Does : (p : ℕ) → Does eff (close_archivo lib.list_remove_element p)
    unfolding close_archivo drop_archivo
    close_archivo-Does p =
        search (step_rules, give_instance-Does, drop_archivo-Does, save-Does, wake_first-Does)

    pub buscar_archivo-Does : (name : List ℕ) → Does eff (buscar_archivo lib name)
    unfolding buscar_archivo
    buscar_archivo-Does name = search step_rules

    pub find_archivo_abierto_index-Does :
        (pid : ℕ) (name : List ℕ) → Does eff (find_archivo_abierto_index lib pid name)
    unfolding find_archivo_abierto_index
    find_archivo_abierto_index-Does pid name = search step_rules

    pub buscar_archivo_abierto-Does :
        (pid : ℕ) (name : List ℕ) → Does eff (buscar_archivo_abierto lib pid name)
    unfolding buscar_archivo_abierto
    buscar_archivo_abierto-Does pid name = search (step_rules, find_archivo_abierto_index-Does)

    pub created-Does : (pid : ℕ) (name : List ℕ) (p : Package) → Does eff (created lib pid name p)
    unfolding created
    created-Does pid name p = search (step_rules, open_new-Does, fail_with-Does)

    pub execute_fcreate-Does :
        (pid : ℕ) (context : PcontextoDesalojo) → Does eff (execute_fcreate lib pid context)
    unfolding execute_fcreate
    execute_fcreate-Does pid context =
        search (step_rules, send-Does, receive_from_filesystem-Does, created-Does)

    pub opened-Does :
        (pid : ℕ) (context : PcontextoDesalojo) (name : List ℕ) (p : Package)
        → Does eff (opened lib pid context name p)
    unfolding opened
    opened-Does pid context name p =
        search (step_rules, open_new-Does, fail_with-Does, execute_fcreate-Does)

    pub execute_fopen-Does :
        (pid : ℕ) (context : PcontextoDesalojo) → Does eff (execute_fopen lib pid context)
    unfolding execute_fopen
    execute_fopen-Does pid context =
        search
          (
            step_rules, buscar_archivo-Does, send-Does, receive_from_filesystem-Does, opened-Does,
            open_shared-Does,
          )
          depth 12

    pub with_open_file-Does :
        (pid : ℕ) (name : List ℕ) (f : ℕ → ℕ → M Bool)
        → ((p i : ℕ) → Does eff (f p i))
        → Does eff (with_open_file lib pid name f)
    unfolding with_open_file
    with_open_file-Does pid name f h =
        search (step_rules, h, buscar_archivo-Does, find_archivo_abierto_index-Does, invalid-Does)

    pub close_at-Does : (pid p i : ℕ) → Does eff (close_at lib pid p i)
    unfolding close_at
    close_at-Does pid p i = search (step_rules, set_files-Does, close_archivo-Does)

    pub execute_fclose-Does :
        (pid : ℕ) (context : PcontextoDesalojo) → Does eff (execute_fclose lib pid context)
    unfolding execute_fclose
    execute_fclose-Does pid context = search (step_rules, with_open_file-Does, close_at-Does)

    pub seek_at-Does :
        (pid : ℕ) (context : PcontextoDesalojo) (p i : ℕ) → Does eff (seek_at lib pid context p i)
    unfolding seek_at
    seek_at-Does pid context p i = search (step_rules, set_files-Does)

    pub execute_fseek-Does :
        (pid : ℕ) (context : PcontextoDesalojo) → Does eff (execute_fseek lib pid context)
    unfolding execute_fseek
    execute_fseek-Does pid context = search (step_rules, with_open_file-Does, seek_at-Does)
