-- ===== src/Memoria/Compactacion/Llena.antt =====
-- memoria/src/compactacion.c: a memory without a free byte.
use tp_2023_1c_kernel_flow.Base.{
  ℕ, zero, suc, ◌-◌, ◌<◌, ◌≡◌, inl, inr, refl, subst, Bool, true, false, not, none, some, List, [],
  ◌∷◌, arith, ◌==◌, Option-cases,
}
use tp_2023_1c_kernel_flow.Wire.Types.{Segment}
use tp_2023_1c_kernel_flow.Memoria.Bitarray.{bitarray_get}
use tp_2023_1c_kernel_flow.Memoria.Algoritmos.{minus_one, as_uint32}
use tp_2023_1c_kernel_flow.Memoria.Estado.{Table, Memoria, find_segment, get_segment_by_address}
use tp_2023_1c_kernel_flow.Memoria.Segmentos.Live.{Heap, take_out-IsExact}
use tp_2023_1c_kernel_flow.Memoria.Compactacion.{
  find_first_zero, find_last_one, find_first_one_after_first_zero, before, compact_round,
  compact_memory,
}
use tp_2023_1c_kernel_flow.Memoria.Compactacion.Busqueda.{
  IsFound, IsLast, find_up_lem, find_down_lem,
}
use tp_2023_1c_kernel_flow.Memoria.Compactacion.Ronda.{IsTabled, listed, find_pointer_lem}

none_found :
    (heap : Heap) (test : Segment → Bool) (ts : List Table)
    → ((q : ℕ) → 0 < listed q ts → (s : Segment) × (heap q ≡ some s))
    → ((q : ℕ) (s : Segment) → 0 < listed q ts → heap q ≡ some s → test s ≡ false)
    → find_segment heap test ts ≡ some none
unfolding find_segment
none_found heap test [] known failed = refl
none_found heap test (t ∷ ts) known failed =
    elim (find_pointer_lem heap test t.segment_list (λ q here. known q (omega (arith, here)))) [
      | inl (q, s, e, here, hit) ↦ absurd (cc (failed q s (omega (arith, here)) hit.0, hit.1))
      | inr (e, _) ↦
          let rest =
            none_found heap test ts (λ q there. known q (omega (arith, there)))
              (λ q s there. failed q s (omega (arith, there))) in
          rw e rest
    ]

module _ (ov : (to from size : ℕ) → List ℕ → List ℕ) (m : Memoria) (h : IsTabled m)
    (big : 1 < m.free_space_table.size)
    (full : (j : ℕ) → j < m.free_space_table.size → bitarray_get m.free_space_table j ≡ true) where
  no_zero : find_first_zero m.free_space_table ≡ none
  unfolding find_first_zero
  no_zero =
      let t = m.free_space_table in
      elim (Option-cases (find_first_zero t)) [
        | inl missed ↦ missed
        | inr (z, e) ↦
            let found = subst (IsFound not t 0 t.size) e (find_up_lem not t t.size 0) in
            absurd (cc (full z (omega (arith, found.1)), found.2))
      ]

  some_one : (l : ℕ) × (find_last_one m.free_space_table ≡ some l)
  unfolding find_last_one
  some_one =
      let t = m.free_space_table in
      elim (Option-cases (find_last_one t)) [
        | inl missed ↦
            let last = subst (IsLast t (t.size - 1)) missed (find_down_lem t (t.size - 1)) in
            absurd (cc (full 1 big, last 1 (omega arith) (omega arith)))
        | inr found ↦ found
      ]

  nowhere :
      (q : ℕ) (s : Segment)
      → 0 < listed q m.all_segments_tables
      → m.heap q ≡ some s
      → (s.base_address == minus_one) ≡ false
  nowhere q s found there =
      let exact =
        take_out-IsExact m.free_space_table m.fresh q m.heap s (h.known q found).0 there
          h.memoria.exact in
      ground (arith, exact.in_bounds.0, exact.addressable)

  round_faults : compact_round ov m ≡ none
  unfolding compact_round get_segment_by_address as_uint32 find_first_one_after_first_zero
  round_faults =
      let missed =
        none_found m.heap (λ s. s.base_address == minus_one) m.all_segments_tables
          (λ q found. ((h.known q found).1, (h.known q found).2)) nowhere in
      rw no_zero (rw missed refl)

-- For a memory of two bytes or more, none of them free, whose set bits are those of the allocated
-- segments and whose tables hold those segments: the loop of the compaction is entered, though there
-- is nothing to move, and its first round follows NULL; so the compaction has no result, whatever the
-- fuel.
pub full_memory_faults :
    (ov : (to from size : ℕ) → List ℕ → List ℕ) (m : Memoria) (fuel : ℕ)
    → IsTabled m
    → 1 < m.free_space_table.size
    → ((j : ℕ) → j < m.free_space_table.size → bitarray_get m.free_space_table j ≡ true)
    → (before (find_first_zero m.free_space_table) (find_last_one m.free_space_table) ≡ true)
      × (compact_round ov m ≡ none)
      × (compact_memory ov fuel m ≡ none)
unfolding compact_memory before
full_memory_faults ov m fuel h big full = (entered, round_faults ov m h big full, stuck fuel)
  where
    entered : before (find_first_zero m.free_space_table) (find_last_one m.free_space_table) ≡ true
    entered = let (l, last) = some_one ov m h big full in rw (no_zero ov m h big full, last) refl

    stuck : (fuel : ℕ) → compact_memory ov fuel m ≡ none
    stuck zero = refl
    stuck (suc fuel) =
        let (l, last) = some_one ov m h big full in
        rw (no_zero ov m h big full, last) (rw (round_faults ov m h big full) refl)
