-- ===== src/Kernel/Salida.antt =====
-- kernel/src/kernel_cycle.c: the end of a process, which gives back its files and its resources.
pub mod Liberacion
pub mod Cierre
use tp_2023_1c_kernel_flow.Base.{
  ℕ, zero, suc, ◌+◌, Bool, true, false, Option, none, some, List, [], ◌∷◌, ◌==◌, if◌then◌else◌,
  increment, is_positive,
}
use tp_2023_1c_kernel_flow.Wire.Types.{process_end}
use tp_2023_1c_kernel_flow.Wire.Duplicados.{pid_status_create}
use tp_2023_1c_kernel_flow.Kernel.Estado.{
  Recurso, ArchivoAbierto, Kernel, M, pure, ◌>>=◌, ◌>>◌, ask, load, save, send, to_memory_status,
  set_files, set_pcb,
}
use tp_2023_1c_kernel_flow.Kernel.Recursos.{Library, wake_first, give_instance}
use tp_2023_1c_kernel_flow.Kernel.Archivos.{close_archivo}

-- Whether a process is in a list.
unfoldable pub is_in : ℕ → List ℕ → Bool
is_in pid [] = false
is_in pid (p ∷ ps) = if p == pid then true else is_in pid ps

module _ (lib : Library) where
  open lib use {list_remove_element}

  unfoldable pub close_all : List ArchivoAbierto → M (Unit {0})
  close_all [] = pure tt
  close_all (a ∷ rest) = close_archivo list_remove_element a.archivo >> close_all rest

  unfoldable pub release : ℕ → ℕ → M (Unit {0})
  release pid p = do
    left ← give_instance p
    r ← load p
    if is_in pid r.lista_bloqueados
        then save p
            (some (record r { lista_bloqueados = list_remove_element r.lista_bloqueados pid }))
        else if is_positive left
        then pure tt
        else wake_first p

  unfoldable pub release_all : ℕ → List ℕ → M (Unit {0})
  release_all pid [] = pure tt
  release_all pid (p ∷ rest) = release pid p >> release_all pid rest

  unfoldable pub clear_shared : ℕ → M (Unit {0})
  unfolding set_pcb
  clear_shared pid k = set_pcb pid (record (k.pcbs pid) { shared_resources = [] }) k

  -- The tests for an empty list guard a loop that then does nothing, and a list that is empty already.
  unfoldable pub exit_process : ℕ → M (Unit {0})
  exit_process pid = do
    send (to_memory_status (pid_status_create pid process_end))
    pcb ← ask (λ k. k.pcbs pid)
    close_all pcb.open_files_table
    set_files pid []
    after ← ask (λ k. k.pcbs pid)
    release_all pid after.shared_resources
    clear_shared pid
