-- ===== src/Memoria/Segmentos/Create.antt =====
-- memoria/src/modulos.c: CREATE_SEGMENT, on every branch.
use tp_2023_1c_kernel_flow.Base.{
  ℕ, zero, suc, ◌<◌, ◌≤◌, ◌≡◌, ◌≢◌, ◌⊎◌, inl, inr, refl, ap, sym, subst, true, false, Option, none,
  some, List, [], ◌∷◌, arith, leb, ◌==◌, length, Bool-cases, leb→le,
}
use tp_2023_1c_kernel_flow.Wire.Bytes.{u32}
use tp_2023_1c_kernel_flow.Wire.Types.{
  Segment, out_of_memory, compactation_required, max_seg_quantity_reached,
}
use tp_2023_1c_kernel_flow.Memoria.Bitarray.{Bitarray}
use tp_2023_1c_kernel_flow.Memoria.Algoritmos.{minus_one}
use tp_2023_1c_kernel_flow.Memoria.Espacio.{is_malloc_possible, get_base_adress}
use tp_2023_1c_kernel_flow.Memoria.Espacio.Regions.{Region, IsExact, get_base_adress-IsExact}
use tp_2023_1c_kernel_flow.Memoria.Estado.{
  Table, Memoria, store, get_segments_table_by_pid, append_to_table,
}
use tp_2023_1c_kernel_flow.Memoria.Datos.{Reply, status_reply, segment_reply}
use tp_2023_1c_kernel_flow.Memoria.Segmentos.{
  new_segment, create_segment, free, create_segments_table, add_segment_to_table, place_segment,
  handle_create_segment,
}

abbrev pub with_region : Option Segment → List Region → List Region
with_region none rs = rs
with_region (some s) rs = (s.base_address, s.size) ∷ rs

-- The regions of the segments that are allocated, below a pointer.
abbrev pub live_regions : (ℕ → Option Segment) → ℕ → List Region
live_regions heap zero = []
live_regions heap (suc n) = with_region (heap n) (live_regions heap n)

-- The bits set are those of the allocated segments, each held by one segment only.
pub record IsMemoria (m : Memoria) : Type 0 where
  pub exact : IsExact m.free_space_table (live_regions m.heap m.fresh)

store_self : (p : ℕ) (s : Option Segment) (heap : ℕ → Option Segment) → store p s heap p ≡ s
unfolding store
store_self p s heap = ground arith

store_other :
    (p q : ℕ) (s : Option Segment) (heap : ℕ → Option Segment) → q < p → store p s heap q ≡ heap q
unfolding store
store_other p q s heap below = ground arith

live_regions-store :
    (n p : ℕ) (s : Option Segment) (heap : ℕ → Option Segment)
    → n ≤ p
    → live_regions (store p s heap) n ≡ live_regions heap n
live_regions-store zero p s heap below = refl
live_regions-store (suc n) p s heap below =
    rw (store_other p n s heap (omega arith), live_regions-store n p s heap (omega arith))

live_regions-freed :
    (n : ℕ) (s : Option Segment) (heap : ℕ → Option Segment)
    → live_regions (store n none (store n s heap)) (suc n) ≡ live_regions heap n
live_regions-freed n s heap = rw (
  store_self n none (store n s heap),
  live_regions-store n n none (store n s heap) (omega arith),
  live_regions-store n n s heap (omega arith),
)

-- What a request for a segment is answered, with the state that it leaves.
abbrev pub IsServed : Memoria → ℕ → ℕ → ℕ → Reply → Memoria → Type 0
IsServed m pid id size reply m' =
    (s : Segment) × (reply ≡ segment_reply s)
    × (s.id ≡ u32 id)
    × (s.size ≡ u32 size)
    × (s.base_address ≢ minus_one)
    × (m'.heap m.fresh ≡ some s)
    × (m'.all_segments_tables ≡ append_to_table pid m.fresh m.all_segments_tables)

abbrev pub IsCompaction : Memoria → Reply → Memoria → Type 0
IsCompaction m reply m' =
    (reply ≡ status_reply compactation_required)
    × (m'.free_space_table ≡ m.free_space_table)
    × (m'.all_segments_tables ≡ m.all_segments_tables)

module _ (m : Memoria) (pid id size : ℕ) (t : Table)
    (found : get_segments_table_by_pid pid m.all_segments_tables ≡ some t) where
  known_lem :
      (m1 : Memoria)
      → get_segments_table_by_pid pid m1.all_segments_tables ≡ some t
      → create_segments_table pid m1 ≡ m1
  unfolding create_segments_table
  known_lem m1 known = rw (known, create_segments_table)

  add_lem :
      (m1 : Memoria) (p : ℕ)
      → get_segments_table_by_pid pid m1.all_segments_tables ≡ some t
      → add_segment_to_table pid p m1
        ≡ record m1 { all_segments_tables = append_to_table pid p m1.all_segments_tables }
  unfolding add_segment_to_table
  add_lem m1 p known = rw (known_lem m1 known)

  served_lem :
      (get_base_adress m.algorithm m.free_space_table (u32 size)).0 ≢ minus_one
      → IsExact (get_base_adress m.algorithm m.free_space_table (u32 size)).1 (
          ((get_base_adress m.algorithm m.free_space_table (u32 size)).0, u32 size)
          ∷ live_regions m.heap m.fresh)
      → (reply : Reply) × (m' : Memoria) × (place_segment pid
            (some m.fresh)
            (new_segment id size m).1
          ≡ some (reply, m'))
        × IsMemoria m'
        × IsServed m pid id size reply m'
  unfolding place_segment new_segment
  served_lem placed exact =
      let segment : Segment = record {
        id = u32 id;
        size = u32 size;
        base_address = (get_base_adress m.algorithm m.free_space_table (u32 size)).0;
      } in
      let self = store_self m.fresh (some segment) m.heap in
      let test : (segment.base_address == minus_one) ≡ false = ground arith in
      (
        segment_reply segment,
        record (new_segment id size m).1 {
          all_segments_tables = append_to_table pid m.fresh m.all_segments_tables;
        },
        rw self (rw (test, add_lem (new_segment id size m).1 m.fresh found)),
        record {
          exact =
              rw (self, live_regions-store m.fresh m.fresh (some segment) m.heap (omega arith))
                exact;
        },
        (segment, refl, refl, refl, placed, self, refl),
      )

  refused_lem :
      get_base_adress m.algorithm m.free_space_table (u32 size) ≡ (minus_one, m.free_space_table)
      → IsMemoria m
      → (reply : Reply) × (m' : Memoria) × (place_segment pid
            (some m.fresh)
            (new_segment id size m).1
          ≡ some (reply, m'))
        × IsMemoria m'
        × IsCompaction m reply m'
  unfolding place_segment new_segment free
  refused_lem refused h =
      let segment : Segment = record {
        id = u32 id;
        size = u32 size;
        base_address = (get_base_adress m.algorithm m.free_space_table (u32 size)).0;
      } in
      let self = store_self m.fresh (some segment) m.heap in
      let base : segment.base_address ≡ minus_one =
        ap (λ (placed : ℕ × Bitarray). placed.0) refused in
      let table = ap (λ (placed : ℕ × Bitarray). placed.1) refused in
      let test : (segment.base_address == minus_one) ≡ true = ground arith in
      (
        status_reply compactation_required,
        free m.fresh (new_segment id size m).1,
        rw self (rw test),
        record {
          exact = rw table (
              subst (λ rs. IsExact m.free_space_table rs)
                (sym (live_regions-freed m.fresh (some segment) m.heap)) h.exact);
        },
        (refl, table, refl),
      )

  place_lem :
      IsMemoria m
      → 0 < u32 size
      → (reply : Reply) × (m' : Memoria) × (place_segment pid
            (some m.fresh)
            (new_segment id size m).1
          ≡ some (reply, m'))
        × IsMemoria m'
        × (IsCompaction m reply m' ⊎ IsServed m pid id size reply m')
  place_lem h positive =
      elim (get_base_adress-IsExact m.algorithm m.free_space_table (live_regions m.heap m.fresh)
        (u32 size) h.exact positive) [
          | inl (placed, exact) ↦
              let (reply, m', answer, ok, served) = served_lem placed exact in
              (reply, m', answer, ok, inr served)
          | inr refused ↦
              let (reply, m', answer, ok, compaction) = refused_lem refused h in
              (reply, m', answer, ok, inl compaction)
        ]

-- The four answers, and the state that each leaves.
abbrev pub IsAnswer : Memoria → ℕ → ℕ → ℕ → Table → Reply → Memoria → Type 0
IsAnswer m pid id size t reply m' =
    ((reply ≡ status_reply max_seg_quantity_reached)
      × (m.segment_quantity ≤ length t.segment_list)
      × (m' ≡ m))
    ⊎ (((reply ≡ status_reply out_of_memory)
          × (is_malloc_possible m.free_space_table size ≡ false)
          × (m' ≡ m))
        ⊎ (IsCompaction m reply m' ⊎ IsServed m pid id size reply m'))

-- Let the set bits be those of the allocated segments, and the process have a table. For an
-- instruction with both parameters and a size of at least one byte, the handler ends in one of
-- four ways, and the set bits are again those of the allocated segments: the table is full and
-- nothing changes; fewer bytes are free than asked for and nothing changes; compaction is asked
-- for, and the bits and the tables are as before; or the segment answered, with its id, its size
-- and an address that is not -1, is allocated and appended to the table.
pub create_segment_lem :
    (m : Memoria) (atoi : List ℕ → ℕ) (pid : ℕ) (id size : List ℕ) (rest : List (List ℕ))
    (t : Table)
    → IsMemoria m
    → get_segments_table_by_pid pid m.all_segments_tables ≡ some t
    → 0 < u32 (atoi size)
    → (reply : Reply) × (m' : Memoria) × (handle_create_segment atoi pid (id ∷ size ∷ rest) m
        ≡ some (reply, m'))
      × IsMemoria m'
      × IsAnswer m pid (atoi id) (atoi size) t reply m'
unfolding handle_create_segment create_segment new_segment place_segment
create_segment_lem m atoi pid id size rest t h found positive =
    elim (Bool-cases (leb m.segment_quantity (length t.segment_list))) [
      | inl full ↦ (
        status_reply max_seg_quantity_reached,
        m,
        rw (found, full),
        h,
        inl (refl, leb→le _ _ full, refl),
      )
      | inr room ↦ elim (Bool-cases (is_malloc_possible m.free_space_table (atoi size))) [
        | inr short ↦ (
          status_reply out_of_memory,
          m,
          rw (found, room, short, place_segment),
          h,
          inr (inl (refl, short, refl)),
        )
        | inl possible ↦
            let (reply, m', answer, ok, which) =
              place_lem m pid (atoi id) (atoi size) t found h positive in
            (reply, m', rw (found, room, possible) answer, ok, inr (inr which))
      ]
    ]
