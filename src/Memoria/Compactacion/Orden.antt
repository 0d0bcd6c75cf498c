-- ===== src/Memoria/Compactacion/Orden.antt =====
-- memoria/src/compactacion.c: the loop ends, and leaves no hole below a segment.
use tp_2023_1c_kernel_flow.Base.{
  ℕ, zero, suc, ◌+◌, ◌-◌, ◌*◌, ◌<◌, ◌≤◌, ◌≡◌, inl, inr, refl, ◌∙◌, List, some, arith, get_elem?,
}
use tp_2023_1c_kernel_flow.Wire.Types.{Segment}
use tp_2023_1c_kernel_flow.Memoria.Estado.{Memoria}
use tp_2023_1c_kernel_flow.Memoria.Compactacion.Datos.{KeepsLength, ReadsFirst}
use tp_2023_1c_kernel_flow.Memoria.Compactacion.{compact_round, compact_memory}
use tp_2023_1c_kernel_flow.Memoria.Compactacion.Ronda.{IsTabled}
use tp_2023_1c_kernel_flow.Memoria.Compactacion.Hueco.{IsGap, first_one_lem, found_segment}
use tp_2023_1c_kernel_flow.Memoria.Compactacion.Lugar.{placed}
use tp_2023_1c_kernel_flow.Memoria.Compactacion.Paso.{
  IsMove, relocated, move_segment_lem, relocated-IsTabled, size-relocated,
}
use tp_2023_1c_kernel_flow.Memoria.Compactacion.Bytes.{KeepsSegments, relocated-KeepsSegments}
use tp_2023_1c_kernel_flow.Memoria.Compactacion.Final.{IsPacked, HasRoom, first_zero_lem, order_lem}
use tp_2023_1c_kernel_flow.Memoria.Compactacion.Progreso.{distance, IsAhead, ahead_lem}

-- A round: the segment stays in the tables, and the end is nearer.
abbrev IsRound : Type 0 → Memoria → ℕ → ℕ → Memoria → Type 0
IsRound P m z w m' =
    IsTabled m'
    × KeepsSegments P m m'
    × (m'.fresh ≡ m.fresh)
    × (m'.all_segments_tables ≡ m.all_segments_tables)
    × (m'.free_space_table.size ≡ m.free_space_table.size)
    × ((z' : ℕ) × (w' : ℕ) × IsAhead m'.free_space_table z' w'
        × (distance m.free_space_table.size z' w' < distance m.free_space_table.size z w))

KeepsSegments-trans :
    {P : Type 0} (m m1 m' : Memoria)
    → m1.fresh ≡ m.fresh
    → KeepsSegments P m m1
    → KeepsSegments P m1 m'
    → KeepsSegments P m m'
KeepsSegments-trans m m1 m' same first second q s low there =
    let (s1, there1, id1, size1, bytes1) = first q s low there in
    let (s2, there2, id2, size2, bytes2) = second q s1 (rw same low) there1 in
    (
      s2,
      there2,
      id2 ∙ id1,
      size2 ∙ size1,
      λ holds d below. bytes2 holds d (rw size1 below) ∙ bytes1 holds d below,
    )

KeepsSegments-refl : {P : Type 0} (m : Memoria) → KeepsSegments P m m
KeepsSegments-refl m q s low there = (s, there, refl, refl, λ holds d below. refl)

abbrev IsEnd : Type 0 → Memoria → Memoria → Type 0
IsEnd P m m' =
    IsTabled m'
    × IsPacked m'.free_space_table
    × KeepsSegments P m m'
    × (m'.all_segments_tables ≡ m.all_segments_tables)

-- Every segment keeps its id and its size.
abbrev pub KeepsSizes : Memoria → Memoria → Type 0
KeepsSizes m m' =
    (q : ℕ) (s : Segment)
    → q < m.fresh
    → m.heap q ≡ some s
    → (s' : Segment) × (m'.heap q ≡ some s') × (s'.id ≡ s.id) × (s'.size ≡ s.size)

-- Every segment keeps its bytes, wherever it lies.
abbrev pub KeepsBytes : Memoria → Memoria → Type 0
KeepsBytes m m' =
    (q : ℕ) (s : Segment)
    → q < m.fresh
    → m.heap q ≡ some s
    → (s' : Segment) × (m'.heap q ≡ some s')
      × ((d : ℕ)
          → d < s.size
          → get_elem? m'.memory_space (s'.base_address + d)
            ≡ get_elem? m.memory_space (s.base_address + d))

-- The state in which compaction ends.
abbrev pub IsCompacted : Memoria → Memoria → Type 0
IsCompacted m m' =
    IsTabled m'
    × IsPacked m'.free_space_table
    × KeepsSizes m m'
    × (m'.all_segments_tables ≡ m.all_segments_tables)

round_lem :
    (ov : (to from size : ℕ) → List ℕ → List ℕ)
    → KeepsLength ov
    → (m : Memoria) (z w l : ℕ) → IsTabled m
    → IsAhead m.free_space_table z w
    → IsGap m.free_space_table z l
    → (m' : Memoria) × (compact_round ov m ≡ some m') × IsRound (ReadsFirst ov) m z w m'
unfolding compact_round
round_lem ov lens m z w l h a gap =
    let (o, first_one, next) = first_one_lem m.free_space_table z l gap in
    let (p, s, found, low, there, at_o) = found_segment m h z o next in
    let (b, chosen, hole, place) = placed m h z l o p s gap next low there at_o in
    let v : IsMove m z l o p s b = record {
      gap = gap;
      next = next;
      low = low;
      there = there;
      at_o = at_o;
      chosen = chosen;
      found = hole;
      place = place;
    } in
    (
      relocated ov p s b m,
      rw (a.first_zero, first_one, found) (rw there (move_segment_lem ov lens m h z l o p b s v)),
      (
        relocated-IsTabled ov lens m h z l o p b s v,
        relocated-KeepsSegments ov lens m h z l o p b s v,
        refl,
        refl,
        size-relocated ov lens m h z l o p b s v,
        ahead_lem ov lens m z w l o p b s h a v,
      ),
    )

loop_lem :
    (ov : (to from size : ℕ) → List ℕ → List ℕ)
    → KeepsLength ov
    → (fuel : ℕ) (m : Memoria) (z w : ℕ) → IsTabled m
    → IsAhead m.free_space_table z w
    → distance m.free_space_table.size z w < fuel
    → (m' : Memoria) × (compact_memory ov fuel m ≡ some m') × IsEnd (ReadsFirst ov) m m'
unfolding compact_memory
loop_lem ov lens zero m z w h a enough = absurd (omega (arith, enough))
loop_lem ov lens (suc fuel) m z w h a enough =
    elim (order_lem m.free_space_table z a.first_zero a.zero_lem) [
      | inl (ended, packed) ↦ (m, rw ended refl, (h, packed, KeepsSegments-refl m, refl))
      | inr (more, l, gap) ↦
          let (m1, runs, (h1, keeps, fresh, tables, sized, (z1, w1, a1, nearer))) =
            round_lem ov lens m z w l h a gap in
          let (m', rest, (h', packed, kept, same)) =
            loop_lem ov lens fuel m1 z1 w1 h1 a1 (rw sized (omega (arith, nearer, enough))) in
          (
            m',
            rw (more, runs) rest,
            (h', packed, KeepsSegments-trans m m1 m' fresh keeps kept, same ∙ tables),
          )
    ]

enough_lem : (n z fuel : ℕ) → n * n + n < fuel → distance n z z < fuel
enough_lem n z fuel h = grind (arith, λ (le : n - z ≤ n). le)

end_lem :
    (ov : (to from size : ℕ) → List ℕ → List ℕ) (m : Memoria) (fuel : ℕ)
    → KeepsLength ov
    → IsTabled m
    → HasRoom m.free_space_table
    → m.free_space_table.size * m.free_space_table.size + m.free_space_table.size < fuel
    → (m' : Memoria) × (compact_memory ov fuel m ≡ some m') × IsEnd (ReadsFirst ov) m m'
end_lem ov m fuel lens h room enough =
    let (z, first_zero, facts) = first_zero_lem m.free_space_table room in
    loop_lem ov lens fuel m z z h
      (record {
        first_zero = first_zero;
        zero_lem = facts;
        open_until = λ j low high. absurd (omega arith);
      })
      (enough_lem m.free_space_table.size z fuel enough)

-- Let `memcpy` between blocks that overlap leave any bytes in the block that it writes, as many as it
-- copies. Where the algorithm is one of the three, the set bits are those of the allocated segments,
-- the tables hold those segments, none is empty, the bytes are as many as the bits, n of them, and one
-- is free at least: compaction ends within n * n + n rounds, without a fault. Afterwards no free bit
-- lies below a set one, the tables are as before, every segment has its id and its size, and the first
-- four conditions hold again.
pub compact_memory_lem :
    (ov : (to from size : ℕ) → List ℕ → List ℕ) (m : Memoria) (fuel : ℕ)
    → KeepsLength ov
    → IsTabled m
    → HasRoom m.free_space_table
    → m.free_space_table.size * m.free_space_table.size + m.free_space_table.size < fuel
    → (m' : Memoria) × (compact_memory ov fuel m ≡ some m') × IsCompacted m m'
compact_memory_lem ov m fuel lens h room enough =
    let (m', ends, (tabled, packed, keeps, tables)) = end_lem ov m fuel lens h room enough in
    (
      m',
      ends,
      (
        tabled,
        packed,
        (λ q s low there.
            let (s', there', id, size, _) = keeps q s low there in (s', there', id, size)),
        tables,
      ),
    )
