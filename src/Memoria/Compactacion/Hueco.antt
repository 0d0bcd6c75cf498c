-- ===== src/Memoria/Compactacion/Hueco.antt =====
-- memoria/src/compactacion.c: the segment behind the first hole, and the hole that it moves to.
use tp_2023_1c_kernel_flow.Base.{
  ℕ, ◌-◌, ◌<◌, ◌≤◌, ◌≡◌, ◌≢◌, ◌⊎◌, inl, inr, refl, subst, true, false, some, arith, ◌==◌,
  Option-cases, ==_iff,
}
use tp_2023_1c_kernel_flow.Wire.Types.{Segment}
use tp_2023_1c_kernel_flow.Memoria.Bitarray.{Bitarray, bitarray_get}
use tp_2023_1c_kernel_flow.Memoria.Espacio.Ranges.{inside}
use tp_2023_1c_kernel_flow.Memoria.Estado.{Memoria, get_segment_by_address}
use tp_2023_1c_kernel_flow.Memoria.Segmentos.Live.{cover-live_regions}
use tp_2023_1c_kernel_flow.Memoria.Algoritmos.{as_uint32}
use tp_2023_1c_kernel_flow.Memoria.Compactacion.{find_up, find_first_one_after_first_zero}
use tp_2023_1c_kernel_flow.Memoria.Compactacion.Busqueda.{IsFound, find_up_lem}
use tp_2023_1c_kernel_flow.Memoria.Compactacion.Ronda.{IsTabled, cover_witness, find_segment_lem}

-- The bits around the first hole: those below it are set, and so is one behind it.
pub record IsGap (t : Bitarray) (z l : ℕ) : Type 0 where
  pub clear : bitarray_get t z ≡ false
  pub lower : (j : ℕ) → j < z → bitarray_get t j ≡ true
  pub set : bitarray_get t l ≡ true
  pub ordered : z < l
  pub in_bounds : l < t.size

-- The first set bit behind a hole.
pub record IsNext (t : Bitarray) (z o : ℕ) : Type 0 where
  pub ordered : z < o
  pub in_bounds : o < t.size
  pub set : bitarray_get t o ≡ true
  pub between : (j : ℕ) → z ≤ j → j < o → bitarray_get t j ≡ false

pub first_one_lem :
    (t : Bitarray) (z l : ℕ)
    → IsGap t z l
    → (o : ℕ) × (find_first_one_after_first_zero t (some z) ≡ some o) × IsNext t z o
unfolding find_first_one_after_first_zero
first_one_lem t z l g = elim (Option-cases (find_up (λ b. b) t (t.size - z) z)) [
  | inl missed ↦
      let found =
        subst (IsFound (λ b. b) t z (t.size - z)) missed (find_up_lem (λ b. b) t (t.size - z) z) in
      absurd
        (cc (found l (omega (arith, g.ordered)) (omega (arith, g.in_bounds, g.ordered)), g.set))
  | inr (o, e) ↦
      let found =
        subst (IsFound (λ b. b) t z (t.size - z)) e (find_up_lem (λ b. b) t (t.size - z) z) in
      (
        o,
        e,
        record {
          ordered = elim (split o z) [
            | inl same ↦
                let here : bitarray_get t z ≡ true = rw (← same) found.2 in
                absurd (cc (here, g.clear))
            | inr ne ↦ omega (arith, found.0, ne)
          ];
          in_bounds = omega (arith, found.1, g.in_bounds, g.ordered);
          set = found.2;
          between = found.3;
        },
      )
]
  where
    split : (o z : ℕ) → (o ≡ z) ⊎ (o ≢ z)
    split o z = omega arith

module _ (m : Memoria) (h : IsTabled m) where
  -- A segment's bits are set.
  pub held-set :
      (p : ℕ) (s : Segment) (j : ℕ)
      → p < m.fresh
      → m.heap p ≡ some s
      → j < m.free_space_table.size
      → inside s.base_address s.size j ≡ true
      → bitarray_get m.free_space_table j ≡ true
  held-set p s j low there below within =
      ground (arith, h.memoria.exact.exact j below, cover-live_regions m.fresh p j m.heap low)

  -- A segment begins at the first set bit behind a hole.
  pub behind_hole :
      (z o : ℕ)
      → IsNext m.free_space_table z o
      → (p : ℕ) × (s : Segment) × (p < m.fresh) × (m.heap p ≡ some s) × (s.base_address ≡ o)
  behind_hole z o next =
      let covered = h.memoria.exact.exact o next.in_bounds in
      let (p, s, low, there, within) =
        cover_witness m.fresh o m.heap (ground (arith, covered, next.set)) in
      elim (split s.base_address o) [
        | inl same ↦ (p, s, low, there, same)
        | inr ne ↦
            let inner : inside s.base_address s.size (o - 1) ≡ true = ground (arith, within, ne) in
            let used = held-set p s (o - 1) low there (omega (arith, next.in_bounds)) inner in
            let free =
              next.between (o - 1) (omega (arith, next.ordered)) (omega (arith, next.ordered)) in
            absurd (cc (used, free))
      ]
    where
      split : (a b : ℕ) → (a ≡ b) ⊎ (a ≢ b)
      split a b = omega arith

  -- The loop finds such a segment.
  pub found_segment :
      (z o : ℕ)
      → IsNext m.free_space_table z o
      → (p : ℕ) × (s : Segment) × (get_segment_by_address (as_uint32 (some o)) m ≡ some (some p))
        × (p < m.fresh)
        × (m.heap p ≡ some s)
        × (s.base_address ≡ o)
  unfolding get_segment_by_address as_uint32
  found_segment z o next =
      let (p, s, low, there, same) = behind_hole z o next in
      let passed : (s.base_address == o) ≡ true = ground (arith, same) in
      let (pid, q, s', e, found, hit) =
        find_segment_lem m.heap (λ s. s.base_address == o) m.all_segments_tables p s
          (λ q found. ((h.known q found).1, (h.known q found).2)) (h.all_listed p (low, s, there))
          (there, passed) in
      (q, s', rw e refl, (h.known q found).0, hit.0, (==_iff s'.base_address o).0 hit.1)
