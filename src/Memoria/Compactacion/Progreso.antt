-- ===== src/Memoria/Compactacion/Progreso.antt =====
-- memoria/src/compactacion.c: each round brings the end of the loop nearer.
use tp_2023_1c_kernel_flow.Base.{
  List, ℕ, ◌+◌, ◌-◌, ◌*◌, ◌<◌, ◌≤◌, ◌≡◌, ◌≢◌, ◌⊎◌, inl, inr, subst, false, some, arith,
}
use tp_2023_1c_kernel_flow.Wire.Types.{Segment}
use tp_2023_1c_kernel_flow.Memoria.Bitarray.{Bitarray, bitarray_get}
use tp_2023_1c_kernel_flow.Memoria.Estado.{Memoria}
use tp_2023_1c_kernel_flow.Memoria.Compactacion.{find_first_zero}
use tp_2023_1c_kernel_flow.Memoria.Compactacion.Ronda.{IsTabled}
use tp_2023_1c_kernel_flow.Memoria.Compactacion.Lugar.{in_memory}
use tp_2023_1c_kernel_flow.Memoria.Compactacion.Datos.{KeepsLength}
use tp_2023_1c_kernel_flow.Memoria.Compactacion.Paso.{
  IsMove, relocated, size-relocated, filled, filled_start, left_clear, left_open,
}
use tp_2023_1c_kernel_flow.Memoria.Compactacion.Final.{HasRoom, IsFirstZero, first_zero_lem}

-- How far a state is from the end of the loop: the first free bit is at `z`, and no bit from there
-- up to `w` is set.
abbrev pub distance : ℕ → ℕ → ℕ → ℕ
distance n z w = (n - z) * n + (n - w)

pub record IsAhead (t : Bitarray) (z w : ℕ) : Type 0 where
  pub first_zero : find_first_zero t ≡ some z
  pub zero_lem : IsFirstZero t z
  pub open_until : (j : ℕ) → z ≤ j → j < w → bitarray_get t j ≡ false

distance_further : (n z w z' : ℕ) → z < z' → z' < n → distance n z' z' < distance n z w
distance_further n z w z' further below =
    let d = z' - z in let e : n - z ≡ (n - z') + d = omega arith in grind (arith, e)

-- Where the segment moved to the first hole, that hole begins further to the right; where it moved
-- elsewhere, the hole is larger.
pub ahead_lem :
    (ov : (to from size : ℕ) → List ℕ → List ℕ)
    → KeepsLength ov
    → (m : Memoria) (z w l o p b : ℕ) (s : Segment) → IsTabled m
    → IsAhead m.free_space_table z w
    → IsMove m z l o p s b
    → (z' : ℕ) × (w' : ℕ) × IsAhead (relocated ov p s b m).free_space_table z' w'
      × (distance m.free_space_table.size z' w' < distance m.free_space_table.size z w)
ahead_lem ov lens m z w l o p b s h a v = elim v.place [
  | inl to_hole ↦
      let (z', e, facts) = first_zero_lem (relocated ov p s b m).free_space_table (room to_hole) in
      let further : z < z' = progress to_hole z' facts in
      (
        z',
        z',
        record {
          first_zero = e;
          zero_lem = facts;
          open_until = λ j low high. absurd (omega arith);
        },
        distance_further m.free_space_table.size z w z' further (rw sized at facts.0),
      )
  | inr behind ↦
      let still = left_open ov lens m h z l o p b s v behind in
      let (z', e, facts) = first_zero_lem (relocated ov p s b m).free_space_table (
        z,
        rw sized (omega (arith, a.zero_lem.0)),
        still z (omega arith) (omega (arith, v.next.ordered)),
      ) in
      let same : z' ≡ z = stays z' facts (still z (omega arith) (omega (arith, v.next.ordered))) in
      (
        z,
        o + 1,
        record {
          first_zero = rw (← same) e;
          zero_lem = subst (IsFirstZero (relocated ov p s b m).free_space_table) same facts;
          open_until = λ j low high. still j low (omega (arith, high));
        },
        omega (arith, w_le, v.next.in_bounds),
      )
]
  where
    sized : (relocated ov p s b m).free_space_table.size ≡ m.free_space_table.size
    sized = size-relocated ov lens m h z l o p b s v

    room : b ≡ z → HasRoom (relocated ov p s b m).free_space_table
    room to_hole = (
      s.base_address + s.size - 1,
      rw sized (
          omega (
            arith,
            in_memory m h z l o p s v.gap v.next v.low v.there v.at_o,
            h.positive p s v.there,
          )),
      left_clear ov lens m h z l o p b s v to_hole,
    )

    le_or_lt : (a c : ℕ) → (a ≤ c) ⊎ (c < a)
    le_or_lt a c = omega arith

    eq_or_ne : (a c : ℕ) → (a ≡ c) ⊎ (a ≢ c)
    eq_or_ne a c = omega arith

    progress : b ≡ z → (z' : ℕ) → IsFirstZero (relocated ov p s b m).free_space_table z' → z < z'
    progress to_hole z' facts = elim (le_or_lt z' z) [
      | inr gt ↦ gt
      | inl le ↦ elim (eq_or_ne z' z) [
        | inl same ↦
            let free : bitarray_get (relocated ov p s b m).free_space_table z ≡ false =
              rw (← same) facts.1 in
            absurd (cc (filled_start ov lens m h z l o p b s v to_hole, free))
        | inr ne ↦
            absurd (cc (filled ov lens m h z l o p b s v z' (omega (arith, le, ne)), facts.1))
      ]
    ]

    stays :
        (z' : ℕ)
        → IsFirstZero (relocated ov p s b m).free_space_table z'
        → bitarray_get (relocated ov p s b m).free_space_table z ≡ false
        → z' ≡ z
    stays z' facts free = elim (le_or_lt z' z) [
      | inr gt ↦ absurd (cc (facts.2 z gt, free))
      | inl le ↦ elim (eq_or_ne z' z) [
        | inl same ↦ same
        | inr ne ↦
            absurd (cc (filled ov lens m h z l o p b s v z' (omega (arith, le, ne)), facts.1))
      ]
    ]

    w_le : w ≤ o
    w_le = elim (le_or_lt w o) [
      | inl le ↦ le
      | inr lt ↦ absurd (cc (a.open_until o (omega (arith, v.next.ordered)) lt, v.next.set))
    ]
