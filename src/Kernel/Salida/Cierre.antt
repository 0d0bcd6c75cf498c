-- ===== src/Kernel/Salida/Cierre.antt =====
-- kernel/src/kernel_cycle.c: a process that ends closes its files, and then gives back its resources.
use tp_2023_1c_kernel_flow.Base.{ℕ, ◌≤◌, ◌≡◌, false, some, List, ◌==◌, map}
use tp_2023_1c_kernel_flow.Kernel.Estado.{q_block, Recurso, ArchivoAbierto, Kernel}
use tp_2023_1c_kernel_flow.Kernel.Colas.Moves.{in_queue}
use tp_2023_1c_kernel_flow.Kernel.Recursos.Semaphore.{IsKernel}

abbrev pub archivos : List ArchivoAbierto → List ℕ
archivos files = map (λ a. a.archivo) files

-- What a file that is closed leaves: the PCBs, and every other pointer.
record IsLeft (p : ℕ) (k k' : Kernel) : Type 0 where
  pcbs_kept : k'.pcbs ≡ k.pcbs
  running : (pid : ℕ) → in_queue pid q_block k'.queues ≤ in_queue pid q_block k.queues
  kept : (o : ℕ) (x : Recurso) → (o == p) ≡ false → k.heap o ≡ some x → k'.heap o ≡ some x
  sound : IsKernel k'
