-- ===== src/Kernel/Recursos.antt =====
-- kernel/src/kernel_sources.c and kernel/src/kernel_instructions.c: the resources that processes
-- share, with WAIT and SIGNAL. A shared resource and an open file are both a t_recurso.
pub mod Waiting
pub mod Busqueda
pub mod Semaphore
pub mod Wait
pub mod Signal
use mathlib.Core.Option
use tp_2023_1c_kernel_flow.Base.{
  ℕ, zero, suc, Bool, true, false, Option, none, some, List, [], ◌∷◌, ◌++◌, if◌then◌else◌, bind,
  get_elem?, remove_at, ℤ, increment, decrement, is_negative, is_positive,
}
use tp_2023_1c_kernel_flow.Wire.Types.{Instruccion, PcontextoDesalojo, invalid_resource}
use tp_2023_1c_kernel_flow.Kernel.Estado.{
  Recurso, Kernel, q_block, q_ready, M, pure, ◌>>=◌, ◌>>◌, ask, follow, load, save, set_pcb,
  set_exit, set_next_queue,
}
use tp_2023_1c_kernel_flow.Kernel.Colas.{move_pcb_from_to}

-- What the kernel calls of libc and of the commons library. `list_remove_element` answers the list
-- without the element, and `sprintf_u` the digits of a number with their NUL.
pub record Library : Type 0 where
  pub atoi : List ℕ → ℕ
  pub sprintf_u : ℕ → List ℕ
  pub string_duplicate : List ℕ → List ℕ
  pub string_equals_ignore_case : List ℕ → List ℕ → Bool
  pub list_remove_element : List ℕ → ℕ → List ℕ

-- The first of the pointers whose resource has a name. To follow a dangling pointer is a fault.
unfoldable pub find_named : (List ℕ → Bool) → (ℕ → Option Recurso) → List ℕ → Option (Option ℕ)
find_named is_name heap [] = some none
find_named is_name heap (p ∷ ps) =
    let rest = find_named is_name heap ps in
    bind (heap p) λ r. if is_name r.recurso then some (some p) else rest

-- `list_remove` of the first waiting process; NULL where there is none, which is followed next.
unfoldable pub remove_pcb_from_queue_resourse : ℕ → M ℕ
remove_pcb_from_queue_resourse p = do
  r ← load p
  pid ← follow (get_elem? r.lista_bloqueados 0)
  save p (some (record r { lista_bloqueados = remove_at r.lista_bloqueados 0 }))
  pure pid

-- A waiting process moves on.
unfoldable pub wake_first : ℕ → M (Unit {0})
wake_first p = do
  pending ← remove_pcb_from_queue_resourse p
  move_pcb_from_to pending q_block q_ready

-- One instance less, which the process has from now on.
unfoldable pub take_instance : ℕ → ℕ → M ℤ
take_instance pid p = do
  r ← load p
  save p (some (record r { instancias = decrement r.instancias }))
  pcb ← ask (λ k. k.pcbs pid)
  set_pcb pid (record pcb { shared_resources = pcb.shared_resources ++ p ∷ [] })
  pure (decrement r.instancias)

-- The process waits in the list of the resource.
unfoldable pub wait_in_list : ℕ → ℕ → M (Unit {0})
wait_in_list pid p = do
  r ← load p
  save p (some (record r { lista_bloqueados = r.lista_bloqueados ++ pid ∷ [] }))

-- One instance more.
unfoldable pub give_instance : ℕ → M ℤ
give_instance p = do
  r ← load p
  save p (some (record r { instancias = increment r.instancias }))
  pure (increment r.instancias)

unfoldable pub invalid : ℕ → M Bool
invalid pid = set_exit pid invalid_resource >> pure false

unfoldable pub wait_for : ℕ → Option ℕ → M Bool
wait_for pid none = invalid pid
wait_for pid (some p) = do
  left ← take_instance pid p
  if is_negative left
      then set_next_queue pid q_block >> (wait_in_list pid p >> pure false)
      else pure true

module _ (lib : Library) where
  open lib use {atoi, string_equals_ignore_case, list_remove_element}

  -- NULL is `none`.
  unfoldable pub find_recurso : List ℕ → M (Option ℕ)
  find_recurso name = do
    found ← ask (λ k. find_named (λ r. string_equals_ignore_case name r) k.heap k.recursos)
    follow found

  unfoldable pub execute_wait : ℕ → PcontextoDesalojo → M Bool
  execute_wait pid context = do
    name ← follow (get_elem? context.motivo_desalojo.parametros 0)
    found ← find_recurso name
    wait_for pid found

  unfoldable pub drop_shared : ℕ → ℕ → M (Unit {0})
  drop_shared pid p k =
      set_pcb pid
        (record (k.pcbs pid) {
          shared_resources = list_remove_element (k.pcbs pid).shared_resources p;
        })
        k

  unfoldable pub signal_to : ℕ → Option ℕ → M Bool
  signal_to pid none = invalid pid
  signal_to pid (some p) = do
    left ← give_instance p
    drop_shared pid p
    if is_positive left then pure tt else wake_first p
    pure true

  unfoldable pub execute_signal : ℕ → PcontextoDesalojo → M Bool
  execute_signal pid context = do
    name ← follow (get_elem? context.motivo_desalojo.parametros 0)
    found ← find_recurso name
    signal_to pid found
