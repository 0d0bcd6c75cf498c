-- ===== src/Kernel/Procesos.antt =====
-- kernel/src/kernel_core.c, kernel/src/kernel_cycle.c and kernel/src/kernel_instructions.c: the life of a
-- process as a state machine on the queues, which the operations of the kernel are to follow.
pub mod Pasos
pub mod Nucleo
pub mod Hilos
pub mod Carrera
pub mod Admision
use tp_2023_1c_kernel_flow.Base.{
  ℕ, ◌+◌, ◌<◌, ◌≤◌, ◌≡◌, refl, arith, List, [], ◌∷◌, ◌++◌, length, length-append, occurrences,
  occurrences-append,
}
use tp_2023_1c_kernel_flow.Kernel.Estado.{QueueId, q_new, q_ready, q_exec, q_block, q_exit, Queues}
use tp_2023_1c_kernel_flow.Kernel.Colas.{get_queue, set_queue, get_queue_size}
use tp_2023_1c_kernel_flow.Kernel.Colas.Moves.{same, Moved, Moved-in_all, in_all, in_queue}
use tp_2023_1c_kernel_flow.Kernel.Nucleo.{get_actual_multiprog}

-- READY in another order.
pub record IsOrdered (q q' : Queues) : Type 0 where
  pub counted : (pid : ℕ) → in_all pid q' ≡ in_all pid q
  pub sized : (id : QueueId) → get_queue_size id q' ≡ get_queue_size id q

-- What may happen to the queues, with a limit to the processes in READY, EXEC and BLOCK.
pub data Transition (grado : ℕ) : Queues → Queues → Type 0 where
  enter :
      (pid : ℕ) (q : Queues)
      → in_all pid q ≡ 0
      → Transition grado q (set_queue q_new (get_queue q_new q ++ pid ∷ []) q)
  admit :
      (pid : ℕ) (q q' : Queues)
      → get_actual_multiprog q < grado
      → Moved pid q_new q_ready q q'
      → Transition grado q q'
  refuse : (pid : ℕ) (q q' : Queues) → Moved pid q_new q_exit q q' → Transition grado q q'
  order : (q q' : Queues) → IsOrdered q q' → Transition grado q q'
  dispatch :
      (pid : ℕ) (q q' : Queues)
      → get_queue_size q_exec q ≡ 0
      → Moved pid q_ready q_exec q q'
      → Transition grado q q'
  leave :
      (pid : ℕ) (id : QueueId) (q q' : Queues) → Moved pid q_exec id q q' → Transition grado q q'
  wake : (pid : ℕ) (q q' : Queues) → Moved pid q_block q_ready q q' → Transition grado q q'
  abort : (pid : ℕ) (q q' : Queues) → Moved pid q_block q_exit q q' → Transition grado q q'

pub data Run (grado : ℕ) : Queues → Queues → Type 0 where
  stay : (q : Queues) → Run grado q q
  next : (q q' q'' : Queues) → Transition grado q q' → Run grado q' q'' → Run grado q q''

pub once-Run : (grado : ℕ) (q q' : Queues) → Transition grado q q' → Run grado q q'
once-Run grado q q' t = next q q' q' t (stay q')

pub join_runs :
    (grado : ℕ) (q q' q'' : Queues) → Run grado q q' → Run grado q' q'' → Run grado q q''
join_runs grado q q' q'' (stay _) s = s
join_runs grado q q' q'' (next _ o _ t r) s = next q o q'' t (join_runs grado o q' q'' r s)

-- The limits that the queues keep to.
pub record IsWithin (grado : ℕ) (q : Queues) : Type 0 where
  pub multiprogramming : get_actual_multiprog q ≤ grado
  pub one_runs : get_queue_size q_exec q ≤ 1
  pub once : (pid : ℕ) → in_all pid q ≤ 1

-- One for a queue that counts as running.
abbrev active : QueueId → ℕ
active id = same q_ready id 1 + same q_exec id 1 + same q_block id 1

active_le : (id : QueueId) → active id ≤ 1
active_le id = ground arith

Moved-IsWithin :
    (grado pid : ℕ) (a b : QueueId) (q q' : Queues)
    → Moved pid a b q q'
    → IsWithin grado q
    → active b + get_actual_multiprog q ≤ grado + active a
    → same q_exec b 1 + get_queue_size q_exec q ≤ 1 + same q_exec a 1
    → IsWithin grado q'
unfolding get_actual_multiprog
Moved-IsWithin grado pid a b q q' m w free one = record {
  multiprogramming = omega (arith, free, m.sizes q_ready, m.sizes q_exec, m.sizes q_block);
  one_runs = omega (arith, one, m.sizes q_exec);
  once = λ other. omega (arith, w.once other, Moved-in_all pid other a b q q' m);
}

Transition-IsWithin :
    (grado : ℕ) (q q' : Queues) → Transition grado q q' → IsWithin grado q → IsWithin grado q'
unfolding get_actual_multiprog get_queue_size get_queue set_queue
Transition-IsWithin grado q q' (enter pid _ absent) w = record {
  multiprogramming = w.multiprogramming;
  one_runs = w.one_runs;
  once = λ other. ground (arith, w.once other, absent, occurrences-append other q.new (pid ∷ []));
}
Transition-IsWithin grado q q' (order _ _ o) w = record {
  multiprogramming =
      omega (arith, w.multiprogramming, o.sized q_ready, o.sized q_exec, o.sized q_block);
  one_runs = omega (arith, w.one_runs, o.sized q_exec);
  once = λ other. omega (arith, w.once other, o.counted other);
}
Transition-IsWithin grado q q' (admit pid _ _ free m) w =
    Moved-IsWithin grado pid q_new q_ready q q' m w (omega (arith, free))
      (omega (arith, w.one_runs))
Transition-IsWithin grado q q' (refuse pid _ _ m) w =
    Moved-IsWithin grado pid q_new q_exit q q' m w (omega (arith, w.multiprogramming))
      (omega (arith, w.one_runs))
Transition-IsWithin grado q q' (dispatch pid _ _ idle m) w =
    Moved-IsWithin grado pid q_ready q_exec q q' m w (omega (arith, w.multiprogramming))
      (omega (arith, idle))
Transition-IsWithin grado q q' (leave pid id _ _ m) w =
    Moved-IsWithin grado pid q_exec id q q' m w (omega (arith, w.multiprogramming, active_le id))
      (omega (arith, w.one_runs, active_le id))
Transition-IsWithin grado q q' (wake pid _ _ m) w =
    Moved-IsWithin grado pid q_block q_ready q q' m w (omega (arith, w.multiprogramming))
      (omega (arith, w.one_runs))
Transition-IsWithin grado q q' (abort pid _ _ m) w =
    Moved-IsWithin grado pid q_block q_exit q q' m w (omega (arith, w.multiprogramming))
      (omega (arith, w.one_runs))

-- A run keeps the limits.
pub Run-IsWithin :
    (grado : ℕ) (q q' : Queues) → Run grado q q' → IsWithin grado q → IsWithin grado q'
Run-IsWithin grado q q' (stay _) w = w
Run-IsWithin grado q q' (next _ o _ t r) w =
    Run-IsWithin grado o q' r (Transition-IsWithin grado q o t w)
