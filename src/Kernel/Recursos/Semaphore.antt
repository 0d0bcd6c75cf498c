-- ===== src/Kernel/Recursos/Semaphore.antt =====
-- kernel/src/kernel_instructions.c: what WAIT and SIGNAL share.
use tp_2023_1c_kernel_flow.Base.{
  ℕ, ◌≡◌, ◌⊎◌, inl, inr, refl, Bool, true, false, Option, none, some, List, arith,
}
use tp_2023_1c_kernel_flow.Kernel.Estado.{q_exit, Recurso, Kernel, update, load, set_pcb, set_exit}
use tp_2023_1c_kernel_flow.Wire.Types.{invalid_resource}
use tp_2023_1c_kernel_flow.Kernel.Recursos.{invalid, find_recurso, Library}
use tp_2023_1c_kernel_flow.Kernel.Recursos.Busqueda.{AreAllocated, find_named_lem}
use tp_2023_1c_kernel_flow.Kernel.Recursos.Waiting.{IsSound}

abbrev pub IsKernel : Kernel → Type 0
IsKernel k = IsSound k.heap k.fresh k.queues

pub load_lem : (k : Kernel) (p : ℕ) (r : Recurso) → k.heap p ≡ some r → load p k ≡ some (r, k)
unfolding load
load_lem k p r here = rw here

-- The search of a resource answers NULL, or a pointer that may be followed.
pub find_recurso_lem :
    (lib : Library) (k : Kernel) (name : List ℕ)
    → AreAllocated k.heap k.recursos
    → (find_recurso lib name k ≡ some (none, k))
      ⊎ ((p : ℕ) × (r : Recurso) × (find_recurso lib name k ≡ some (some p, k))
          × (k.heap p ≡ some r)
          × (lib.string_equals_ignore_case name r.recurso ≡ true))
unfolding find_recurso
find_recurso_lem lib k name all =
    elim (find_named_lem (λ r. lib.string_equals_ignore_case name r) k.heap k.recursos all) [
      | inl missing ↦ inl (rw missing)
      | inr (p, r, found, here, named) ↦ inr (p, r, rw found, here, named)
    ]

-- No resource has the name: the process is to end.
abbrev pub IsRejected : ℕ → Option (Bool × Kernel) → Type 0
IsRejected pid answer =
    (k' : Kernel) × (answer ≡ some (false, k'))
    × ((k'.pcbs pid).next_queue ≡ q_exit)
    × ((k'.pcbs pid).exit_status ≡ invalid_resource)
    × IsKernel k'

pub invalid_lem : (k : Kernel) (pid : ℕ) → IsKernel k → IsRejected pid (invalid pid k)
unfolding invalid set_exit set_pcb update
invalid_lem k pid s =
    let pcb = record (k.pcbs pid) { exit_status = invalid_resource; next_queue = q_exit } in
    (record k { pcbs = update pid pcb k.pcbs }, refl, ground arith, ground arith, s)
