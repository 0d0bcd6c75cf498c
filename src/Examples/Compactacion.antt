-- ===== src/Examples/Compactacion.antt =====
-- The theorems on deletion and compaction, applied to a memory of sixteen bytes: segment 0 has the
-- first four, process 1 has three more behind a hole, and process 2 has none of its own.
use tp_2023_1c_kernel_flow.Base.{
  length-replicate, ℕ, zero, suc, ◌+◌, ◌<◌, ◌≡◌, ◌≢◌, refl, true, false, Option, none, some, List,
  [], ◌∷◌, arith, ◌==◌, ltb, if◌then◌else◌, replicate, occurrences,
}
use tp_2023_1c_kernel_flow.Wire.Types.{Segment}
use tp_2023_1c_kernel_flow.Memoria.Bitarray.{
  Bitarray, bitarray_create, bitarray_get, bitarray_set, raise_bit, test_bit,
}
use tp_2023_1c_kernel_flow.Memoria.Bitarray.Laws.{get-create, create-IsBitarray}
use tp_2023_1c_kernel_flow.Memoria.Espacio.{set_from, first, worst, unrecognised}
use tp_2023_1c_kernel_flow.Memoria.Espacio.Ranges.{inside, get-set_from}
use tp_2023_1c_kernel_flow.Memoria.Espacio.Regions.{IsExact, mark-IsExact, create-IsExact}
use tp_2023_1c_kernel_flow.Memoria.Estado.{
  Table, Memoria, find_pointer, find_segment, get_segment_by_id, get_segments_table_by_pid,
}
use tp_2023_1c_kernel_flow.Memoria.Datos.{Reply}
use tp_2023_1c_kernel_flow.Memoria.Segmentos.Create.{IsMemoria}
use tp_2023_1c_kernel_flow.Memoria.Borrado.{
  handle_delete_segment, handle_process_new, handle_process_end,
}
use tp_2023_1c_kernel_flow.Memoria.Borrado.Segmento.{IsLive, Removes}
use tp_2023_1c_kernel_flow.Memoria.Borrado.Ajeno.{foreign_segment_freed}
use tp_2023_1c_kernel_flow.Memoria.Borrado.Tabla.{AllLive, process_end_lem}
use tp_2023_1c_kernel_flow.Memoria.Compactacion.{
  compact_memory, compact_round, before, find_first_zero, find_last_one,
}
use tp_2023_1c_kernel_flow.Memoria.Compactacion.Ronda.{IsTabled, listed}
use tp_2023_1c_kernel_flow.Memoria.Compactacion.Final.{HasRoom}
use tp_2023_1c_kernel_flow.Memoria.Compactacion.Orden.{IsCompacted, compact_memory_lem}
use tp_2023_1c_kernel_flow.Memoria.Datos.Copia.{slice}
use tp_2023_1c_kernel_flow.Memoria.Compactacion.Llena.{full_memory_faults}

abbrev shared : Segment
shared = record { id = 0; size = 4; base_address = 0 }

abbrev own : Segment
own = record { id = 7; size = 3; base_address = 6 }

abbrev segments : ℕ → Option Segment
segments zero = some shared
segments (suc zero) = none
segments (suc (suc zero)) = some own
segments (suc (suc (suc p))) = none

abbrev first_bits : Bitarray
first_bits = set_from (bitarray_create 16) 4 0 true

abbrev bits : Bitarray
bits = set_from first_bits 3 6 true

abbrev owner : Table
owner = record { pid = 1; segment_list = 0 ∷ 2 ∷ [] }

abbrev other_table : Table
other_table = record { pid = 2; segment_list = 0 ∷ [] }

abbrev gapped : Memoria
gapped = record {
  algorithm = worst;
  memory_size = 16;
  segment_quantity = 4;
  memory_space = replicate 16 0;
  free_space_table = bits;
  segment_0 = 0;
  all_segments_tables = owner ∷ other_table ∷ [];
  heap = segments;
  fresh = 3;
}

get-first_bits : (j : ℕ) → bitarray_get first_bits j ≡ (if inside 0 4 j then true else false)
unfolding bitarray_create
get-first_bits j = ground (
  arith,
  get-set_from (bitarray_create 16) 4 0 j true (create-IsBitarray 16) (omega arith),
  get-create 16 j,
)

first_bits-IsExact : IsExact first_bits ((0, 4) ∷ [])
unfolding bitarray_create
first_bits-IsExact =
    mark-IsExact (bitarray_create 16) [] 0 4 (create-IsExact 16 (omega arith))
      (omega arith, λ d below. get-create 16 (0 + d))

bits-IsExact : IsExact bits ((6, 3) ∷ (0, 4) ∷ [])
unfolding set_from bitarray_set bitarray_create
bits-IsExact =
    mark-IsExact first_bits ((0, 4) ∷ []) 6 3 first_bits-IsExact
      (omega arith, λ d below. ground (arith, get-first_bits (6 + d)))

gapped-IsMemoria : IsMemoria gapped
gapped-IsMemoria = record { exact = bits-IsExact }

live_lem : (p : ℕ) → 0 < listed p gapped.all_segments_tables → IsLive gapped p
live_lem zero found = (omega arith, shared, refl)
live_lem (suc zero) found = absurd (omega arith)
live_lem (suc (suc zero)) found = (omega arith, own, refl)
live_lem (suc (suc (suc p))) found = absurd (ground arith)

listed_lem : (p : ℕ) → IsLive gapped p → 0 < listed p gapped.all_segments_tables
listed_lem zero alive = omega arith
listed_lem (suc zero) (_, s, e) = absurd (cc e)
listed_lem (suc (suc zero)) alive = omega arith
listed_lem (suc (suc (suc p))) (below, s, e) = absurd (cc e)

positive_lem : (p : ℕ) (s : Segment) → segments p ≡ some s → 0 < s.size
positive_lem zero s e = ground arith
positive_lem (suc zero) s e = absurd (cc e)
positive_lem (suc (suc zero)) s e = ground arith
positive_lem (suc (suc (suc p))) s e = absurd (cc e)

worst_known : worst ≢ unrecognised
worst_known = λ e. cc e

gapped-IsTabled : IsTabled gapped
unfolding set_from bitarray_set bitarray_create
gapped-IsTabled = record {
  memoria = gapped-IsMemoria;
  algorithm_known = worst_known;
  known = live_lem;
  all_listed = listed_lem;
  positive = positive_lem;
  space = refl;
}

bits-size : bits.size ≡ 16
unfolding set_from bitarray_set bitarray_create
bits-size = refl

gapped-HasRoom : HasRoom bits
unfolding set_from bitarray_set bitarray_create bitarray_get raise_bit test_bit
gapped-HasRoom = (4, rw bits-size (omega arith), refl)

-- What is left of an overlap: zeros, or the block that was read first.
abbrev zeros : (to from size : ℕ) → List ℕ → List ℕ
zeros to from size space = replicate size 0

abbrev read_first : (to from size : ℕ) → List ℕ → List ℕ
read_first to from size space = slice from size space

compact_memory_lem_example :
    (m' : Memoria) × (compact_memory zeros 273 gapped ≡ some m') × IsCompacted gapped m'
compact_memory_lem_example =
    compact_memory_lem zeros gapped 273 (λ to from size space inner. length-replicate size 0)
      gapped-IsTabled gapped-HasRoom (rw bits-size (omega arith))

-- `list_remove_element` on a list of numbers.
abbrev remove_first : List ℕ → ℕ → List ℕ
remove_first [] a = []
remove_first (x ∷ xs) a = if x == a then xs else x ∷ remove_first xs a

remove_first-Removes : Removes remove_first
remove_first-Removes [] a b = omega arith
remove_first-Removes (x ∷ xs) a b = ground (arith, remove_first-Removes xs a b)

-- A number of one byte stands for the text.
abbrev number : List ℕ → ℕ
number [] = 0
number (n ∷ ns) = n

found_7 : get_segment_by_id 7 gapped ≡ some (some 2)
unfolding get_segment_by_id find_segment find_pointer
found_7 = refl

owner_known : get_segments_table_by_pid 1 gapped.all_segments_tables ≡ some owner
unfolding get_segments_table_by_pid
owner_known = refl

other_known : get_segments_table_by_pid 2 gapped.all_segments_tables ≡ some other_table
unfolding get_segments_table_by_pid
other_known = refl

other-IsLive : (q : ℕ) → 0 < occurrences q other_table.segment_list → IsLive gapped q
other-IsLive q found = live_lem q (omega (arith, found))

foreign_segment_freed_example :
    (reply : Reply) × (m' : Memoria) × (handle_delete_segment remove_first number 2
        ((7 ∷ []) ∷ [])
        gapped
      ≡ some (reply, m'))
    × (get_segments_table_by_pid 1 m'.all_segments_tables ≡ some owner)
    × (m'.heap 2 ≡ none)
    × (handle_process_new 1 m' ≡ none)
foreign_segment_freed_example =
    foreign_segment_freed remove_first gapped number 2 1 2 (7 ∷ []) [] own other_table owner
      remove_first-Removes gapped-IsMemoria (omega arith) refl other_known owner_known (omega arith)
      found_7 (omega arith) (omega arith) other-IsLive

own-AllLive : AllLive gapped (2 ∷ [])
own-AllLive = record {
  live = λ q found. live_lem q (ground (arith, found));
  once = λ q. ground arith;
}

-- `list_remove_element` on the list of tables, which stands for a table by its process.
abbrev remove_table : List Table → Table → List Table
remove_table [] t = []
remove_table (x ∷ xs) t = if x.pid == t.pid then xs else x ∷ remove_table xs t

process_end_lem_example :
    (m' : Memoria) × (handle_process_end remove_table 1 gapped ≡ some m')
    × IsMemoria m'
    × ((q : ℕ) → m'.heap q ≡ (if ltb 0 (occurrences q (2 ∷ [])) then none else segments q))
    × (m'.heap 0 ≡ segments 0)
    × (m'.all_segments_tables ≡ remove_table gapped.all_segments_tables owner)
    × (m'.memory_space ≡ gapped.memory_space)
process_end_lem_example =
    process_end_lem remove_table gapped 1 (2 ∷ []) owner gapped-IsMemoria owner_known refl
      own-AllLive (omega arith)

abbrev only_shared : ℕ → Option Segment
only_shared zero = some shared
only_shared (suc p) = none

abbrev full_bits : Bitarray
full_bits = set_from (bitarray_create 4) 4 0 true

-- A memory of four bytes, all of them of segment 0.
abbrev full : Memoria
full = record {
  algorithm = first;
  memory_size = 4;
  segment_quantity = 4;
  memory_space = replicate 4 0;
  free_space_table = full_bits;
  segment_0 = 0;
  all_segments_tables = other_table ∷ [];
  heap = only_shared;
  fresh = 1;
}

full_bits-IsExact : IsExact full_bits ((0, 4) ∷ [])
unfolding bitarray_create
full_bits-IsExact =
    mark-IsExact (bitarray_create 4) [] 0 4 (create-IsExact 4 (omega arith))
      (omega arith, λ d below. get-create 4 (0 + d))

full-IsLive : (p : ℕ) → 0 < listed p full.all_segments_tables → IsLive full p
full-IsLive zero found = (omega arith, shared, refl)
full-IsLive (suc p) found = absurd (ground arith)

full-listed : (p : ℕ) → IsLive full p → 0 < listed p full.all_segments_tables
full-listed zero alive = omega arith
full-listed (suc p) (below, s, e) = absurd (cc e)

full_positive : (p : ℕ) (s : Segment) → only_shared p ≡ some s → 0 < s.size
full_positive zero s e = ground arith
full_positive (suc p) s e = absurd (cc e)

first_known : first ≢ unrecognised
first_known = λ e. cc e

full-IsTabled : IsTabled full
unfolding set_from bitarray_set bitarray_create
full-IsTabled = record {
  memoria = record { exact = full_bits-IsExact };
  algorithm_known = first_known;
  known = full-IsLive;
  all_listed = full-listed;
  positive = full_positive;
  space = refl;
}

full_bits-size : full_bits.size ≡ 4
unfolding set_from bitarray_set bitarray_create
full_bits-size = refl

all_set : (j : ℕ) → j < 4 → bitarray_get full_bits j ≡ true
unfolding bitarray_create
all_set j below =
    ground (arith, get-set_from (bitarray_create 4) 4 0 j true (create-IsBitarray 4) (omega arith))

full_memory_faults_example :
    (before (find_first_zero full.free_space_table) (find_last_one full.free_space_table) ≡ true)
    × (compact_round zeros full ≡ none)
    × (compact_memory zeros 100 full ≡ none)
full_memory_faults_example =
    full_memory_faults zeros full 100 full-IsTabled (rw full_bits-size (omega arith))
      (λ j below. all_set j (rw full_bits-size at below))
