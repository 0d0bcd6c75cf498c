-- ===== src/Examples/Nucleo.antt =====
-- The theorems on the kernel, applied to concrete states.
use tp_2023_1c_kernel_flow.Base.{ℕ, ◌-◌, ◌≡◌, refl, arith, some, List, [], ◌∷◌}
use tp_2023_1c_kernel_flow.Kernel.Estado.{Kernel, update, set_pcb}
use tp_2023_1c_kernel_flow.Kernel.Colas.{
  get_queue, set_queue, get_queue_size, get_pcb_index_from_queue, move_in_queues, move_pcb_from_to,
  add_pcb_to_queue,
}
use tp_2023_1c_kernel_flow.Kernel.Disco.{wake_io}
use tp_2023_1c_kernel_flow.Kernel.Nucleo.{
  get_actual_multiprog, accept_new_process_in_ready, add_pcb, process_instrucciones,
  move_new_to_ready,
}
use tp_2023_1c_kernel_flow.Kernel.Procesos.{IsWithin}
use tp_2023_1c_kernel_flow.Kernel.Procesos.Hilos.{
  Steps, step, rest, arrives, io_ends, Steps-IsWithin,
}
use tp_2023_1c_kernel_flow.Kernel.Procesos.Admision.{admitted, move_new_to_ready_lem}
use tp_2023_1c_kernel_flow.Wire.Bytes.{read_u32}
use tp_2023_1c_kernel_flow.Wire.Package.{Package, op_number, tsegmentos}
use tp_2023_1c_kernel_flow.Wire.Communication.{get_tsegmento}
use tp_2023_1c_kernel_flow.Wire.Segments.{
  t_segments_table_create_from_buffer, read_segments_table, read_segments,
}
use tp_2023_1c_kernel_flow.Examples.Kernel.{lib, pcb, running}

-- Process 3 arrives where there is no place, and the I/O of process 2 ends.
abbrev plan : List ℕ → List ℕ
plan ps = ps

abbrev arrived : Kernel
arrived = record running {
  pcbs = update 3 pcb running.pcbs;
  all_pcb = 1 ∷ 2 ∷ 3 ∷ [];
  queues = record { new = 3 ∷ []; ready = []; exec = 1 ∷ []; block = 2 ∷ []; exit = [] };
}

abbrev woken : Kernel
woken = record arrived {
  queues = record { new = 3 ∷ []; ready = 2 ∷ []; exec = 1 ∷ []; block = []; exit = [] };
}

arrives_lem : process_instrucciones lib 2 5 3 pcb running ≡ some (tt, arrived)
unfolding process_instrucciones set_pcb add_pcb accept_new_process_in_ready get_actual_multiprog
    get_queue_size get_queue add_pcb_to_queue set_queue
arrives_lem = refl

io_lem : wake_io 2 arrived ≡ some (tt, woken)
unfolding wake_io move_pcb_from_to move_in_queues get_pcb_index_from_queue get_queue set_queue
io_lem = refl

steps : Steps lib 2 plan running woken
unfolding get_queue
steps =
    step running arrived woken (arrives 5 3 pcb running arrived refl arrives_lem)
      (step arrived woken woken (io_ends 2 arrived woken io_lem) (rest woken))

running-IsWithin : IsWithin 2 running.queues
unfolding get_actual_multiprog get_queue_size get_queue
running-IsWithin = record {
  multiprogramming = omega arith;
  one_runs = omega arith;
  once = λ pid. ground arith;
}

Steps-IsWithin_example : IsWithin 2 woken.queues
Steps-IsWithin_example =
    Steps-IsWithin lib 2 plan (λ ps pid. refl) (λ ps. refl) running woken steps running-IsWithin

-- The memory answers with an empty table for process 3.
abbrev table_package : Package
table_package = record {
  operation_code = 4;
  buffer = record { size = 8; stream = 3 ∷ 0 ∷ 0 ∷ 0 ∷ 0 ∷ 0 ∷ 0 ∷ 0 ∷ [] };
}

abbrev served : Kernel
served = record arrived { from_memory = table_package ∷ [] }

table_received : get_tsegmento table_package ≡ some (record { pid = 3; segment_list = [] })
unfolding get_tsegmento t_segments_table_create_from_buffer read_segments_table read_segments
    read_u32
table_received = refl

table_code : table_package.operation_code ≡ op_number tsegmentos
unfolding op_number
table_code = refl

move_new_to_ready_lem_example :
    (k' : Kernel) × (move_new_to_ready lib 4 2 served ≡ some (tt, k'))
    × (k'.queues ≡ admitted (4 - get_actual_multiprog served.queues) served.queues)
move_new_to_ready_lem_example =
    move_new_to_ready_lem lib 4 2 served (omega arith) (
      table_package,
      [],
      refl,
      table_code,
      record { pid = 3; segment_list = [] },
      table_received,
      tt,
    )
