-- ===== src/Memoria/Compactacion/Bytes.antt =====
-- memoria/src/compactacion.c: a round keeps the bytes of every segment.
use tp_2023_1c_kernel_flow.Base.{
  List, ℕ, ◌+◌, ◌<◌, ◌≤◌, ◌≡◌, ◌≢◌, ◌⊎◌, inl, inr, refl, ap, sym, subst, true, false, none, some,
  arith, Bool-cases, get_elem?,
}
use tp_2023_1c_kernel_flow.Wire.Types.{Segment}
use tp_2023_1c_kernel_flow.Memoria.Espacio.Ranges.{inside}
use tp_2023_1c_kernel_flow.Memoria.Espacio.Regions.{cover}
use tp_2023_1c_kernel_flow.Memoria.Estado.{Memoria, store}
use tp_2023_1c_kernel_flow.Memoria.Segmentos.Create.{live_regions}
use tp_2023_1c_kernel_flow.Memoria.Segmentos.Live.{get-store, store-store, cover-live_regions}
use tp_2023_1c_kernel_flow.Memoria.Compactacion.Ronda.{IsTabled}
use tp_2023_1c_kernel_flow.Memoria.Compactacion.Datos.{
  KeepsLength, ReadsFirst, get-moved_space_inside, get-moved_space_outside,
}
use tp_2023_1c_kernel_flow.Memoria.Compactacion.Lugar.{size-cleared}
use tp_2023_1c_kernel_flow.Memoria.Compactacion.Paso.{
  IsMove, relocated, fits, inner, room, heap-relocated, relocated-IsMemoria, size-relocated,
}

-- Every segment keeps its id and its size, and its bytes where `P` holds.
abbrev pub KeepsSegments : Type 0 → Memoria → Memoria → Type 0
KeepsSegments P m m' =
    (q : ℕ) (s : Segment)
    → q < m.fresh
    → m.heap q ≡ some s
    → (s' : Segment) × (m'.heap q ≡ some s')
      × (s'.id ≡ s.id)
      × (s'.size ≡ s.size)
      × (P
          → (d : ℕ) → d < s.size
          → get_elem? m'.memory_space (s'.base_address + d)
            ≡ get_elem? m.memory_space (s.base_address + d))

module _ (ov : (to from size : ℕ) → List ℕ → List ℕ) (lens : KeepsLength ov) (m : Memoria)
    (h : IsTabled m) (z l o p b : ℕ) (s : Segment) (v : IsMove m z l o p s b) where
  -- No other segment lies where the segment moved to.
  apart :
      (q : ℕ) (s' : Segment) (j : ℕ)
      → q < m.fresh
      → m.heap q ≡ some s'
      → q ≢ p
      → inside s'.base_address s'.size j ≡ true
      → inside b s.size j ≡ false
  apart q s' j low' there' ne within = elim (Bool-cases (inside b s.size j)) [
    | inr out ↦ out
    | inl both ↦
        let e = (relocated-IsMemoria ov lens m h z l o p b s v).exact in
        let below : j < (relocated ov p s b m).free_space_table.size =
          rw (size-relocated ov lens m h z l o p b s v) (ground (arith, both, fits_old)) in
        let first_one = cover-live_regions m.fresh p j (relocated ov p s b m).heap v.low in
        let others : cover j (live_regions (store p none (relocated ov p s b m).heap) m.fresh)
            ≡ cover j (live_regions (store p none m.heap) m.fresh) =
          rw (store-store p none (some (record s { base_address = b })) m.heap) refl in
        let second = cover-live_regions m.fresh q j (store p none m.heap) low' in
        absurd (
          ground (
            arith,
            e.exact j below,
            first_one,
            others,
            second,
            heap-relocated ov lens m h z l o p b s v p,
            get-store p q none m.heap,
          ))
  ]
    where
      fits_old : b + s.size ≤ m.free_space_table.size
      fits_old =
          rw (size-cleared m h z l o p s v.gap v.next v.low v.there v.at_o) at
            (fits ov lens m h z l o p b s v)

  pub relocated-KeepsSegments : KeepsSegments (ReadsFirst ov) m (relocated ov p s b m)
  relocated-KeepsSegments q s' low' there' = elim (split q p) [
    | inl same ↦
        let equal : s' ≡ s = segment_of same in
        (
          record s { base_address = b },
          ground (arith, heap-relocated ov lens m h z l o p b s v q, same),
          ap (λ (x : Segment). x.id) (sym equal),
          ap (λ (x : Segment). x.size) (sym equal),
          λ first d below.
              subst
                (λ (x : Segment).
                  get_elem? (relocated ov p s b m).memory_space (b + d)
                  ≡ get_elem? m.memory_space (x.base_address + d))
                (sym equal)
                (get-moved_space_inside ov lens b s.base_address s.size m.memory_space
                  (inner ov lens m h z l o p b s v) (room ov lens m h z l o p b s v) first d
                  (subst (λ (x : Segment). d < x.size) equal below)),
        )
    | inr ne ↦ (
      s',
      ground (arith, heap-relocated ov lens m h z l o p b s v q, ne, there'),
      refl,
      refl,
      λ first d below.
          let within : inside s'.base_address s'.size (s'.base_address + d) ≡ true = ground arith in
          let out = apart q s' (s'.base_address + d) low' there' ne within in
          get-moved_space_outside ov lens b s.base_address s.size m.memory_space
            (inner ov lens m h z l o p b s v) (room ov lens m h z l o p b s v) (s'.base_address + d)
            (outside (s'.base_address + d) out),
    )
  ]
    where
      split : (a b : ℕ) → (a ≡ b) ⊎ (a ≢ b)
      split a b = omega arith

      segment_of : q ≡ p → s' ≡ s
      segment_of same = let e : m.heap p ≡ some s' = rw (← same) there' in cc

      outside : (j : ℕ) → inside b s.size j ≡ false → (j < b) ⊎ (b + s.size ≤ j)
      outside j out = ground arith
