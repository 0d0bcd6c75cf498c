-- ===== src/Examples/Estado.antt =====
-- The theorems on the state of the memory, applied to a memory of sixteen bytes, where segment 0 has
-- the first four and process 1 has a table.
use tp_2023_1c_kernel_flow.Base.{
  ℕ, zero, suc, ◌+◌, ◌≡◌, ◌≢◌, length, inr, refl, true, Option, none, some, List, [], ◌∷◌, arith,
  replicate, get_elem?,
}
use tp_2023_1c_kernel_flow.Wire.Types.{Segment, InfoWrite, segmentation_fault, success}
use tp_2023_1c_kernel_flow.Memoria.Algoritmos.{minus_one}
use tp_2023_1c_kernel_flow.Memoria.Bitarray.{bitarray_create}
use tp_2023_1c_kernel_flow.Memoria.Bitarray.Laws.{get-create}
use tp_2023_1c_kernel_flow.Memoria.Espacio.{set_from, first, unrecognised}
use tp_2023_1c_kernel_flow.Memoria.Espacio.Regions.{mark-IsExact, create-IsExact}
use tp_2023_1c_kernel_flow.Memoria.Estado.{
  Table, Memoria, find_pointer, find_segment, holds, get_pid_by_address, get_segments_table_by_pid,
}
use tp_2023_1c_kernel_flow.Memoria.Datos.{
  Reply, status_reply, info_reply, handle_info_read, handle_info_write,
}
use tp_2023_1c_kernel_flow.Memoria.Datos.ReadWrite.{
  InMemory, read_after_write, write_leaves_rest, access_past_memory, access_outside_segments,
}
use tp_2023_1c_kernel_flow.Memoria.Segmentos.{handle_create_segment, start_memory}
use tp_2023_1c_kernel_flow.Memoria.Segmentos.Start.{start_memory_lem}
use tp_2023_1c_kernel_flow.Memoria.Segmentos.Create.{IsMemoria, IsAnswer, create_segment_lem}

abbrev first_segment : Segment
first_segment = record { id = 0; size = 4; base_address = 0 }

abbrev one_segment : ℕ → Option Segment
one_segment zero = some first_segment
one_segment (suc p) = none

abbrev table_1 : Table
table_1 = record { pid = 1; segment_list = 0 ∷ [] }

abbrev started : Memoria
started = record {
  algorithm = first;
  memory_size = 16;
  segment_quantity = 4;
  memory_space = replicate 16 0;
  free_space_table = set_from (bitarray_create 16) 4 0 true;
  segment_0 = 0;
  all_segments_tables = table_1 ∷ [];
  heap = one_segment;
  fresh = 1;
}

abbrev write : InfoWrite
write = record { base_address = 1; info = record { block = 72 ∷ 79 ∷ []; size = 2 } }

abbrev behind : InfoWrite
behind = record { base_address = 9; info = record { block = 72 ∷ 79 ∷ []; size = 2 } }

abbrev long : InfoWrite
long = record { base_address = 1; info = record { block = replicate 16 1; size = 16 } }

write-InMemory : InMemory started 1 2
write-InMemory = record { space = refl; small = omega arith; inside = omega arith }

behind-InMemory : InMemory started 9 2
behind-InMemory = record { space = refl; small = omega arith; inside = omega arith }

pid_of_1 : get_pid_by_address 1 started ≡ some (some 1)
unfolding get_pid_by_address find_segment find_pointer holds
pid_of_1 = refl

pid_of_9 : get_pid_by_address 9 started ≡ some none
unfolding get_pid_by_address find_segment find_pointer holds
pid_of_9 = refl

read_after_write_example :
    (m' : Memoria) × (handle_info_write write started ≡ some (status_reply success, m'))
    × (handle_info_read (record { base_address = 1; size = 2 }) m' ≡ some (info_reply write.info))
read_after_write_example = read_after_write started write 1 pid_of_1 refl write-InMemory

write_leaves_rest_example :
    (m' : Memoria) × (handle_info_write write started ≡ some (status_reply success, m'))
    × (get_elem? m'.memory_space 5 ≡ get_elem? started.memory_space 5)
write_leaves_rest_example =
    write_leaves_rest started write 1 5 pid_of_1 refl write-InMemory (inr (omega arith))

access_past_memory_example :
    (handle_info_write long started ≡ some (status_reply segmentation_fault, started))
    × (handle_info_read (record { base_address = 1; size = 16 }) started ≡ none)
access_past_memory_example = access_past_memory started long 1 pid_of_1 (omega arith) (omega arith)

access_outside_segments_example :
    (handle_info_write behind started ≡ some (status_reply segmentation_fault, started))
    × (handle_info_read (record { base_address = 9; size = 2 }) started
        ≡ some (status_reply segmentation_fault))
access_outside_segments_example =
    access_outside_segments started behind
      (((first_segment, refl, omega arith, inr (omega arith), tt), tt)) behind-InMemory

started-IsMemoria : IsMemoria started
unfolding bitarray_create
started-IsMemoria = record {
  exact =
      mark-IsExact (bitarray_create 16) [] 0 4 (create-IsExact 16 (omega arith))
        (omega arith, λ d below. get-create 16 (0 + d));
}

table_of_1 : get_segments_table_by_pid 1 started.all_segments_tables ≡ some table_1
unfolding get_segments_table_by_pid
table_of_1 = refl

-- A number of one byte stands for the text.
abbrev number : List ℕ → ℕ
number [] = 0
number (n ∷ ns) = n

create_segment_lem_example :
    (reply : Reply) × (m' : Memoria) × (handle_create_segment number 1
        ((7 ∷ []) ∷ (5 ∷ []) ∷ [])
        started
      ≡ some (reply, m'))
    × IsMemoria m'
    × IsAnswer started 1 7 5 table_1 reply m'
create_segment_lem_example =
    create_segment_lem started number 1 (7 ∷ []) (5 ∷ []) [] table_1 started-IsMemoria table_of_1
      (omega arith)

first_known : first ≢ unrecognised
first_known = λ e. cc e

start_memory_lem_example :
    (m : Memoria) × (s : Segment) × (start_memory first 16 4 4 ≡ some m)
    × IsMemoria m
    × (m.heap m.segment_0 ≡ some s)
    × (s.size ≡ 4)
    × (s.base_address ≢ minus_one)
    × (length m.memory_space ≡ 16)
start_memory_lem_example =
    start_memory_lem first 16 4 4 first_known (omega arith) (omega arith) (omega arith)
