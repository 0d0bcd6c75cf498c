-- ===== src/Memoria/Compactacion/Paso.antt =====
-- memoria/src/compactacion.c: the state after a round.
use tp_2023_1c_kernel_flow.Base.{
  ℕ, ◌+◌, ◌-◌, ◌<◌, ◌≤◌, ◌≡◌, ◌≢◌, ◌⊎◌, inl, inr, refl, ◌∙◌, sym, true, false, List, none, some,
  arith, ◌==◌, if◌then◌else◌, length,
}
use tp_2023_1c_kernel_flow.Wire.Types.{Segment}
use tp_2023_1c_kernel_flow.Memoria.Bitarray.{bitarray_get}
use tp_2023_1c_kernel_flow.Memoria.Algoritmos.Runs.{IsHole}
use tp_2023_1c_kernel_flow.Memoria.Espacio.{set_from, get_base_adress}
use tp_2023_1c_kernel_flow.Memoria.Espacio.Ranges.{inside, size-set_from, get-set_from}
use tp_2023_1c_kernel_flow.Memoria.Espacio.Regions.{mark-IsExact}
use tp_2023_1c_kernel_flow.Memoria.Estado.{Memoria, store}
use tp_2023_1c_kernel_flow.Memoria.Segmentos.Create.{IsMemoria, live_regions}
use tp_2023_1c_kernel_flow.Memoria.Segmentos.Live.{get-store, store-store, put_back-IsExact}
use tp_2023_1c_kernel_flow.Memoria.Borrado.Segmento.{IsLive}
use tp_2023_1c_kernel_flow.Memoria.Compactacion.{move_segment}
use tp_2023_1c_kernel_flow.Memoria.Compactacion.Ronda.{IsTabled}
use tp_2023_1c_kernel_flow.Memoria.Compactacion.Datos.{
  KeepsLength, moved_space, move_data_lem, length-moved_space,
}
use tp_2023_1c_kernel_flow.Memoria.Compactacion.Hueco.{IsGap, IsNext}
use tp_2023_1c_kernel_flow.Memoria.Compactacion.Lugar.{
  cleared-IsExact, in_memory, get-cleared, size-cleared,
}

-- What a round moves: the segment that begins at `o`, the first set bit behind the first hole at `z`,
-- goes to the address `b` that the algorithm answers.
pub record IsMove (m : Memoria) (z l o p : ℕ) (s : Segment) (b : ℕ) : Type 0 where
  pub gap : IsGap m.free_space_table z l
  pub next : IsNext m.free_space_table z o
  pub low : p < m.fresh
  pub there : m.heap p ≡ some s
  pub at_o : s.base_address ≡ o
  pub chosen :
      get_base_adress m.algorithm (set_from m.free_space_table s.size s.base_address false) s.size
      ≡ (b, set_from (set_from m.free_space_table s.size s.base_address false) s.size b true)
  pub found : IsHole (set_from m.free_space_table s.size s.base_address false) b s.size
  pub place : (b ≡ z) ⊎ (s.base_address + s.size ≤ b)

-- The state after a segment moved to an address.
abbrev pub relocated : ((to from size : ℕ) → List ℕ → List ℕ) → ℕ → Segment → ℕ → Memoria → Memoria
relocated ov p s b m = record m {
  free_space_table =
      set_from (set_from m.free_space_table s.size s.base_address false) s.size b true;
  memory_space = moved_space ov b s.base_address s.size m.memory_space;
  heap = store p (some (record s { base_address = b })) m.heap;
}

module _ (ov : (to from size : ℕ) → List ℕ → List ℕ) (lens : KeepsLength ov) (m : Memoria)
    (h : IsTabled m) (z l o p b : ℕ) (s : Segment) (v : IsMove m z l o p s b) where
  pub fits : b + s.size ≤ (set_from m.free_space_table s.size s.base_address false).size
  fits = v.found.0

  pub inner : s.base_address + s.size ≤ length m.memory_space
  inner = rw h.space (in_memory m h z l o p s v.gap v.next v.low v.there v.at_o)

  pub room : b + s.size ≤ length m.memory_space
  room = omega (arith, fits, size-cleared m h z l o p s v.gap v.next v.low v.there v.at_o, h.space)

  pub move_segment_lem : move_segment ov p s m ≡ some (relocated ov p s b m)
  unfolding move_segment
  move_segment_lem =
      rw v.chosen
        (rw (move_data_lem ov lens b s.base_address s.size m.memory_space inner room) refl)

  pub heap-relocated :
      (q : ℕ)
      → (relocated ov p s b m).heap q
        ≡ (if q == p then some (record s { base_address = b }) else m.heap q)
  heap-relocated q = get-store p q (some (record s { base_address = b })) m.heap

  pub relocated-IsMemoria : IsMemoria (relocated ov p s b m)
  relocated-IsMemoria = record {
    exact =
        put_back-IsExact (relocated ov p s b m).free_space_table m.fresh p
          (relocated ov p s b m).heap (record s { base_address = b }) v.low
          (ground (arith, heap-relocated p))
          (rw (store-store p none (some (record s { base_address = b })) m.heap) (
            mark-IsExact (set_from m.free_space_table s.size s.base_address false)
              (live_regions (store p none m.heap) m.fresh) b s.size
              (cleared-IsExact m h z l o p s v.gap v.next v.low v.there v.at_o) v.found));
  }

  pub size-relocated : (relocated ov p s b m).free_space_table.size ≡ m.free_space_table.size
  size-relocated =
      size-set_from (set_from m.free_space_table s.size s.base_address false) s.size b true
      ∙ size-cleared m h z l o p s v.gap v.next v.low v.there v.at_o

  pub relocated-IsTabled : IsTabled (relocated ov p s b m)
  relocated-IsTabled = record {
    memoria = relocated-IsMemoria;
    algorithm_known = h.algorithm_known;
    known = λ q found. live q (h.known q found);
    all_listed = λ q alive. h.all_listed q (live_before q alive);
    positive = λ q s' e. positive q s' e;
    space =
        length-moved_space ov lens b s.base_address s.size m.memory_space inner room
        ∙ (h.space ∙ sym size-relocated);
  }
    where
      split : (a b : ℕ) → (a ≡ b) ⊎ (a ≢ b)
      split a b = omega arith

      live : (q : ℕ) → IsLive m q → IsLive (relocated ov p s b m) q
      live q (below, s', e) = elim (split q p) [
        | inl same ↦ (below, record s { base_address = b }, ground (arith, heap-relocated q, same))
        | inr ne ↦ (below, s', ground (arith, heap-relocated q, ne, e))
      ]

      live_before : (q : ℕ) → IsLive (relocated ov p s b m) q → IsLive m q
      live_before q (below, s', e) = elim (split q p) [
        | inl same ↦ (below, s, rw same v.there)
        | inr ne ↦ (below, s', ground (arith, heap-relocated q, ne, e))
      ]

      positive : (q : ℕ) (s' : Segment) → (relocated ov p s b m).heap q ≡ some s' → 0 < s'.size
      positive q s' e = elim (split q p) [
        | inl same ↦
            let big = h.positive p s v.there in ground (arith, heap-relocated q, same, e, big)
        | inr ne ↦ h.positive q s' (ground (arith, heap-relocated q, ne, e))
      ]

  get-relocated :
      (j : ℕ)
      → bitarray_get (relocated ov p s b m).free_space_table j ≡ (
          if inside b s.size j
          then true
          else if inside s.base_address s.size j
          then false
          else bitarray_get m.free_space_table j)
  get-relocated j =
      let e = cleared-IsExact m h z l o p s v.gap v.next v.low v.there v.at_o in
      rw
        (
          get-set_from (set_from m.free_space_table s.size s.base_address false) s.size b j true
              e.packed fits,
          get-cleared m h z l o p s v.gap v.next v.low v.there v.at_o j,
        )
        refl

  -- The bits below the hole are set.
  pub filled : (j : ℕ) → j < z → bitarray_get (relocated ov p s b m).free_space_table j ≡ true
  filled j lt = ground (arith, get-relocated j, v.gap.lower j, v.next.ordered, v.at_o, v.place)

  -- In the hole, the bits before the segment's old place are set if the segment moved there.
  pub filled_start : b ≡ z → bitarray_get (relocated ov p s b m).free_space_table z ≡ true
  filled_start e = ground (arith, get-relocated z, h.positive p s v.there)

  -- Where the segment moved to the hole, the last bit of its old place is clear.
  pub left_clear :
      b ≡ z
      → bitarray_get (relocated ov p s b m).free_space_table (s.base_address + s.size - 1) ≡ false
  left_clear e = ground (
    arith,
    get-relocated (s.base_address + s.size - 1),
    h.positive p s v.there,
    v.next.ordered,
    v.at_o,
  )

  -- Where it moved elsewhere, the hole has grown by its old place.
  pub left_open :
      s.base_address + s.size ≤ b
      → (j : ℕ) → z ≤ j
      → j ≤ o
      → bitarray_get (relocated ov p s b m).free_space_table j ≡ false
  left_open behind j low high =
      ground (arith, get-relocated j, v.next.between j low, h.positive p s v.there, v.at_o)
