-- ===== src/Kernel/Recursos/Wait.antt =====
-- kernel/src/kernel_instructions.c: WAIT, with the move of the process that follows.
use tp_2023_1c_kernel_flow.Base.{
  ℕ, ◌≡◌, Bool, true, false, Option, some, [], ◌∷◌, ◌++◌, decrement, is_positive,
}
use tp_2023_1c_kernel_flow.Kernel.Estado.{q_block, q_exec, Recurso, Kernel, update}
use tp_2023_1c_kernel_flow.Kernel.Colas.{move_pcb_from_to}
use tp_2023_1c_kernel_flow.Kernel.Recursos.Semaphore.{IsKernel}

-- The resource with one instance less, and with the process at the end of its list.
abbrev taken : Recurso → Recurso
taken r = record r { instancias = decrement r.instancias }

abbrev joined : Recurso → ℕ → Recurso
joined r pid = record (taken r) { lista_bloqueados = r.lista_bloqueados ++ pid ∷ [] }

-- The kernel once the process has an instance, and once it waits for one.
abbrev taken_kernel : ℕ → ℕ → Recurso → Kernel → Kernel
taken_kernel pid p r k = record k {
  heap = update p (some (taken r)) k.heap;
  pcbs =
      update pid
        (record (k.pcbs pid) { shared_resources = (k.pcbs pid).shared_resources ++ p ∷ [] }) k.pcbs;
}

abbrev joined_kernel : ℕ → ℕ → Recurso → Kernel → Kernel
joined_kernel pid p r k =
    let before = taken_kernel pid p r k in
    record before {
      heap = update p (some (joined r pid)) k.heap;
      pcbs = update pid (record (before.pcbs pid) { next_queue = q_block }) before.pcbs;
    }

-- An instance was left, and the process has it.
abbrev pub IsTaken : Recurso → Option (Bool × Kernel) → Type 0
IsTaken r answer =
    (k' : Kernel) × (is_positive r.instancias ≡ true) × (answer ≡ some (true, k')) × IsKernel k'

-- No instance was left: the process is in the list of the resource, and can move to the blocked ones.
abbrev pub IsBlocked : ℕ → ℕ → Recurso → Option (Bool × Kernel) → Type 0
IsBlocked pid p r answer =
    (k' : Kernel) × (k'' : Kernel) × (is_positive r.instancias ≡ false)
    × (answer ≡ some (false, k'))
    × (k'.heap p ≡ some (joined r pid))
    × ((k'.pcbs pid).next_queue ≡ q_block)
    × (move_pcb_from_to pid q_exec q_block k' ≡ some (tt, k''))
    × IsKernel k''
