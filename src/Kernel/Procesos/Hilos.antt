-- ===== src/Kernel/Procesos/Hilos.antt =====
-- The threads of the kernel as one step relation: process_queues of kernel/src/kernel_core.c, the
-- server of kernel/src/server_handle.c, io and file_processing of kernel/src/kernel_instructions.c.
use tp_2023_1c_kernel_flow.Base.{ℕ, ◌≡◌, Bool, some, List, length, occurrences}
use tp_2023_1c_kernel_flow.Wire.Types.{Instruccion, StatusCode}
use tp_2023_1c_kernel_flow.Wire.Package.{Package}
use tp_2023_1c_kernel_flow.Kernel.Estado.{Pcb, Kernel}
use tp_2023_1c_kernel_flow.Kernel.Colas.Moves.{in_all}
use tp_2023_1c_kernel_flow.Kernel.Recursos.{Library}
use tp_2023_1c_kernel_flow.Kernel.Disco.{wake_io, file_processing}
use tp_2023_1c_kernel_flow.Kernel.Nucleo.{
  move_new_to_ready, move_ready_to_exec, process_instrucciones,
}
use tp_2023_1c_kernel_flow.Kernel.Procesos.{Run, stay, IsWithin, join_runs, Run-IsWithin}
use tp_2023_1c_kernel_flow.Kernel.Procesos.Pasos.Salida.{wake_io-Does, file_processing-Does}
use tp_2023_1c_kernel_flow.Kernel.Procesos.Nucleo.{
  life, move_new_to_ready-Run, move_ready_to_exec-Run, process_instrucciones-Run,
}

-- The kernel with the answers that the memory and the file system are still to give.
abbrev answering : Kernel → List Package → List Package → Kernel
answering k m f = record k { from_memory = m; from_filesystem = f }

-- One step of a thread of the kernel, or answers that come in.
pub data Step (lib : Library) (grado : ℕ) (plan : List ℕ → List ℕ) : Kernel → Kernel → Type 0 where
  admits :
      (fuel : ℕ) (k k' : Kernel)
      → move_new_to_ready lib grado fuel k ≡ some (tt, k')
      → Step lib grado plan k k'
  executes :
      (packages rest : List Package) (k k' : Kernel)
      → move_ready_to_exec lib grado plan packages k ≡ some (rest, k')
      → Step lib grado plan k k'
  arrives :
      (fuel pid : ℕ) (pcb : Pcb) (k k' : Kernel)
      → in_all pid k.queues ≡ 0
      → process_instrucciones lib grado fuel pid pcb k ≡ some (tt, k')
      → Step lib grado plan k k'
  io_ends : (pid : ℕ) (k k' : Kernel) → wake_io pid k ≡ some (tt, k') → Step lib grado plan k k'
  file_passes :
      (pid : ℕ) (x : Instruccion) (expected : StatusCode) (finish : Bool) (k k' : Kernel)
      → file_processing lib pid x expected k ≡ some (finish, k')
      → Step lib grado plan k k'
  answers : (k : Kernel) (m f : List Package) → Step lib grado plan k (answering k m f)

pub data Steps (lib : Library) (grado : ℕ) (plan : List ℕ → List ℕ) : Kernel → Kernel → Type 0 where
  rest : (k : Kernel) → Steps lib grado plan k k
  step :
      (k k' k'' : Kernel)
      → Step lib grado plan k k'
      → Steps lib grado plan k' k''
      → Steps lib grado plan k k''

module _ (lib : Library) (grado : ℕ) (plan : List ℕ → List ℕ)
    (permutes : (ps : List ℕ) (pid : ℕ) → occurrences pid (plan ps) ≡ occurrences pid ps)
    (keeps : (ps : List ℕ) → length (plan ps) ≡ length ps) where
  Step-Run : (k k' : Kernel) → Step lib grado plan k k' → Run grado k.queues k'.queues
  Step-Run k k' (admits fuel _ _ e) = move_new_to_ready-Run lib grado fuel k k' e
  Step-Run k k' (executes packages left _ _ e) =
      move_ready_to_exec-Run lib grado plan permutes keeps packages left k k' e
  Step-Run k k' (arrives fuel pid pcb _ _ absent e) =
      process_instrucciones-Run lib grado fuel pid pcb k k' absent e
  Step-Run k k' (io_ends pid _ _ e) = (wake_io-Does (life grado) pid).run k k' tt e
  Step-Run k k' (file_passes pid x expected finish _ _ e) =
      (file_processing-Does (life grado) lib pid x expected).run k k' finish e
  Step-Run k k' (answers _ _ _) = stay k.queues

  pub Steps-Run : (k k' : Kernel) → Steps lib grado plan k k' → Run grado k.queues k'.queues
  Steps-Run k k' (rest _) = stay k.queues
  Steps-Run k k' (step _ o _ s r) =
      join_runs grado k.queues o.queues k'.queues (Step-Run k o s) (Steps-Run o k' r)

  -- Let the planner keep the processes of READY, each as often as it stands there, and let each
  -- operation of a thread run with no other operation between its parts. Where READY, EXEC and
  -- BLOCK hold at most `grado` processes in all, EXEC at most one, and each process stands in one
  -- queue at most, the same holds after any steps of the kernel's threads, if a process that
  -- arrives is in no queue yet.
  pub Steps-IsWithin :
      (k k' : Kernel)
      → Steps lib grado plan k k'
      → IsWithin grado k.queues
      → IsWithin grado k'.queues
  Steps-IsWithin k k' s w = Run-IsWithin grado k.queues k'.queues (Steps-Run k k' s) w
