-- ===== src/Kernel/Colas.antt =====
-- kernel/src/queue_controller.c: the queues of PCBs. The locks are not modelled, and each function is
-- one step; the times of arrival that the planner reads are not kept.
pub mod Moves
use mathlib.Core.Option
use tp_2023_1c_kernel_flow.Base.{
  ℕ, zero, suc, ◌+◌, Bool, true, false, Option, none, some, List, [], ◌∷◌, ◌++◌, ◌==◌,
  if◌then◌else◌, length, remove_at, get_elem?, bind,
}
use tp_2023_1c_kernel_flow.Kernel.Estado.{
  QueueId, q_new, q_ready, q_exec, q_block, q_exit, Queues, Kernel, M, pure, ◌>>=◌, ◌>>◌, ask,
  if_null,
}

unfoldable pub get_queue : QueueId → Queues → List ℕ
get_queue q_new q = q.new
get_queue q_ready q = q.ready
get_queue q_exec q = q.exec
get_queue q_block q = q.block
get_queue q_exit q = q.exit

unfoldable pub set_queue : QueueId → List ℕ → Queues → Queues
set_queue q_new pids q = record q { new = pids }
set_queue q_ready pids q = record q { ready = pids }
set_queue q_exec pids q = record q { exec = pids }
set_queue q_block pids q = record q { block = pids }
set_queue q_exit pids q = record q { exit = pids }

-- -1 is `none`.
unfoldable pub get_pcb_index_from_queue : ℕ → List ℕ → Option ℕ
get_pcb_index_from_queue pid [] = none
get_pcb_index_from_queue pid (p ∷ ps) =
    let rest = Option.map suc (get_pcb_index_from_queue pid ps) in if p == pid then some 0 else rest

-- The list changes by the two calls on the lists; the index of -1 is a fault.
unfoldable pub move_in_queues : ℕ → QueueId → QueueId → Queues → Option Queues
move_in_queues pid source destiny q =
    Option.map
      (λ index.
        let taken = set_queue source (remove_at (get_queue source q) index) q in
        set_queue destiny (get_queue destiny taken ++ pid ∷ []) taken)
      (get_pcb_index_from_queue pid (get_queue source q))

unfoldable pub move_pcb_from_to : ℕ → QueueId → QueueId → M (Unit {0})
move_pcb_from_to pid source destiny k =
    Option.map (λ queues. (tt, record k { queues = queues }))
      (move_in_queues pid source destiny k.queues)

-- NULL is `none`.
unfoldable pub get_pcb_from : QueueId → Queues → Option ℕ
get_pcb_from source q = get_elem? (get_queue source q) 0

unfoldable pub move_fist_from_to : QueueId → QueueId → M (Option ℕ)
move_fist_from_to source destiny = do
  pcb ← ask (λ k. get_pcb_from source k.queues)
  if_null pcb (pure none) (λ pid. move_pcb_from_to pid source destiny >> pure (some pid))

unfoldable pub add_pcb_to_queue : ℕ → QueueId → M (Unit {0})
add_pcb_to_queue pid destiny k =
    some (
      tt,
      record k { queues = set_queue destiny (get_queue destiny k.queues ++ pid ∷ []) k.queues },
    )

unfoldable pub get_queue_size : QueueId → Queues → ℕ
get_queue_size q queues = length (get_queue q queues)

unfoldable pub is_queue_empty : QueueId → Queues → Bool
is_queue_empty q queues = get_queue_size q queues == 0
