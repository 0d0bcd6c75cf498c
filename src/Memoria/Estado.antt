-- ===== src/Memoria/Estado.antt =====
-- memoria/include/memory_vars.h and the lookups of memoria/src/utils.c: the state of the memory
-- process. The tables hold pointers, since segment 0 is shared by all of them; `heap` says what each
-- pointer points to, `none` where it was freed or never allocated. To follow such a pointer, or NULL,
-- is undefined in C: the outer `none` of an operation.
use mathlib.Core.Option
use tp_2023_1c_kernel_flow.Base.{
  ℕ, ◌+◌, Bool, ◌&&◌, Option, none, some, List, [], ◌∷◌, ◌++◌, leb, ltb, ◌==◌, bind, if◌then◌else◌,
}
use tp_2023_1c_kernel_flow.Wire.Bytes.{u32}
use tp_2023_1c_kernel_flow.Wire.Types.{Segment}
use tp_2023_1c_kernel_flow.Memoria.Bitarray.{Bitarray}
use tp_2023_1c_kernel_flow.Memoria.Espacio.{Algoritmo}

-- t_segments_table, with its pointers to segments.
pub record Table : Type 0 where
  pub pid : ℕ
  pub segment_list : List ℕ

pub record Memoria : Type 0 where
  pub algorithm : Algoritmo
  pub memory_size : ℕ
  pub segment_quantity : ℕ
  pub memory_space : List ℕ
  pub free_space_table : Bitarray
  pub segment_0 : ℕ
  pub all_segments_tables : List Table
  pub heap : ℕ → Option Segment
  -- The pointer that the next `malloc` of a segment returns.
  pub fresh : ℕ

unfoldable pub store : ℕ → Option Segment → (ℕ → Option Segment) → ℕ → Option Segment
store p s heap q = if q == p then s else heap q

-- The inner loop of the lookups: the first pointer of a list whose segment passes a test.
unfoldable pub find_pointer : (ℕ → Option Segment) → (Segment → Bool) → List ℕ → Option (Option ℕ)
find_pointer heap test [] = some none
find_pointer heap test (p ∷ ps) =
    let rest = find_pointer heap test ps in
    bind (heap p) λ s. if test s then some (some p) else rest

-- The outer loop: with the process that has the segment.
unfoldable pub find_segment :
    (ℕ → Option Segment) → (Segment → Bool) → List Table → Option (Option (ℕ × ℕ))
find_segment heap test [] = some none
find_segment heap test (t ∷ ts) =
    let rest = find_segment heap test ts in
    bind (find_pointer heap test t.segment_list)
      λ found. elim found [ none ↦ rest | some p ↦ some (some (t.pid, p)) ]

unfoldable pub get_segment_by_id : ℕ → Memoria → Option (Option ℕ)
get_segment_by_id id m =
    Option.map (λ found. Option.map (λ ((_, p) : ℕ × ℕ). p) found)
      (find_segment m.heap (λ s. s.id == id) m.all_segments_tables)

unfoldable pub get_segment_by_address : ℕ → Memoria → Option (Option ℕ)
get_segment_by_address address m =
    Option.map (λ found. Option.map (λ ((_, p) : ℕ × ℕ). p) found)
      (find_segment m.heap (λ s. s.base_address == address) m.all_segments_tables)

-- The test of `get_pid_by_address`; the sum is a uint32_t.
unfoldable pub holds : ℕ → Segment → Bool
holds address s = leb s.base_address address && ltb address (u32 (s.base_address + s.size))

-- `none` inside is -1.
unfoldable pub get_pid_by_address : ℕ → Memoria → Option (Option ℕ)
get_pid_by_address address m =
    Option.map (λ found. Option.map (λ ((pid, _) : ℕ × ℕ). pid) found)
      (find_segment m.heap (holds address) m.all_segments_tables)

unfoldable pub get_segments_table_by_pid : ℕ → List Table → Option Table
get_segments_table_by_pid pid [] = none
get_segments_table_by_pid pid (t ∷ ts) =
    let rest = get_segments_table_by_pid pid ts in if t.pid == pid then some t else rest

-- `list_add` on the list of the first table of a process.
unfoldable pub append_to_table : ℕ → ℕ → List Table → List Table
append_to_table pid p [] = []
append_to_table pid p (t ∷ ts) =
    let rest = append_to_table pid p ts in
    if t.pid == pid then record t { segment_list = t.segment_list ++ p ∷ [] } ∷ ts else t ∷ rest
