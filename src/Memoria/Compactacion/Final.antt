-- ===== src/Memoria/Compactacion/Final.antt =====
-- memoria/src/compactacion.c: what the test of the loop says of the bits.
use tp_2023_1c_kernel_flow.Base.{
  ℕ, ◌-◌, ◌<◌, ◌≤◌, ◌≡◌, ◌≢◌, ◌⊎◌, inl, inr, refl, subst, Bool, true, false, not, some, arith, ltb,
  ltb→lt, Bool-cases, Option-cases,
}
use tp_2023_1c_kernel_flow.Memoria.Bitarray.{Bitarray, bitarray_get}
use tp_2023_1c_kernel_flow.Memoria.Compactacion.{find_first_zero, find_last_one, before}
use tp_2023_1c_kernel_flow.Memoria.Compactacion.Busqueda.{
  IsFound, IsLast, find_up_lem, find_down_lem,
}
use tp_2023_1c_kernel_flow.Memoria.Compactacion.Hueco.{IsGap}

-- No free bit lies below a set one.
abbrev pub IsPacked : Bitarray → Type 0
IsPacked t = (i j : ℕ) → i < j → j < t.size → bitarray_get t j ≡ true → bitarray_get t i ≡ true

-- Some bit is free.
abbrev pub HasRoom : Bitarray → Type 0
HasRoom t = (k : ℕ) × (k < t.size) × (bitarray_get t k ≡ false)

-- What the first scan finds where a bit is free.
abbrev pub IsFirstZero : Bitarray → ℕ → Type 0
IsFirstZero t z =
    (z < t.size) × (bitarray_get t z ≡ false) × ((j : ℕ) → j < z → bitarray_get t j ≡ true)

pub not_inverse : (b : Bool) → not b ≡ false → b ≡ true
not_inverse true e = refl
not_inverse false e = absurd (cc e)

pub not-false : (b : Bool) → not b ≡ true → b ≡ false
not-false true e = absurd (cc e)
not-false false e = refl

pub first_zero_lem :
    (t : Bitarray) → HasRoom t → (z : ℕ) × (find_first_zero t ≡ some z) × IsFirstZero t z
unfolding find_first_zero
first_zero_lem t (k, below, free) = elim (Option-cases (find_first_zero t)) [
  | inl missed ↦
      let all = subst (IsFound not t 0 t.size) missed (find_up_lem not t t.size 0) in
      absurd (cc (not_inverse _ (all k (omega arith) (omega arith)), free))
  | inr (z, e) ↦
      let found = subst (IsFound not t 0 t.size) e (find_up_lem not t t.size 0) in
      (
        z,
        e,
        (
          omega (arith, found.1),
          not-false _ found.2,
          λ j lt. not_inverse _ (found.3 j (omega arith) lt),
        ),
      )
]

-- Either nothing is set behind the first free bit, or a gap is left.
pub order_lem :
    (t : Bitarray) (z : ℕ)
    → find_first_zero t ≡ some z
    → IsFirstZero t z
    → ((before (find_first_zero t) (find_last_one t) ≡ false) × IsPacked t)
      ⊎ ((before (find_first_zero t) (find_last_one t) ≡ true) × (l : ℕ) × IsGap t z l)
unfolding find_last_one before
order_lem t z first_zero (inside, free, lower) = elim (Option-cases (find_last_one t)) [
  | inl missed ↦
      let last = subst (IsLast t (t.size - 1)) missed (find_down_lem t (t.size - 1)) in
      inl (
        rw (first_zero, missed) refl,
        λ i j lt below used. absurd (cc (used, last j (omega arith) (omega arith))),
      )
  | inr (l, e) ↦
      let last = subst (IsLast t (t.size - 1)) e (find_down_lem t (t.size - 1)) in
      elim (Bool-cases (ltb z l)) [
        | inl left ↦ inr (
          rw (first_zero, e) left,
          l,
          record {
            clear = free;
            lower = lower;
            set = last.2;
            ordered = ltb→lt z l left;
            in_bounds = omega (arith, last.0, last.1);
          },
        )
        | inr done ↦ inl (
          rw (first_zero, e) done,
          λ i j lt below used. elim (split l j) [
            | inl behind ↦ absurd (cc (used, last.3 j behind (omega arith)))
            | inr le ↦ elim (same l z) [
              | inl equal ↦
                  let clash : bitarray_get t l ≡ false = rw equal free in
                  absurd (cc (clash, last.2))
              | inr ne ↦ lower i (ground (arith, done, ne, le, lt))
            ]
          ],
        )
      ]
]
  where
    split : (l j : ℕ) → (l < j) ⊎ (j ≤ l)
    split l j = omega arith

    same : (a b : ℕ) → (a ≡ b) ⊎ (a ≢ b)
    same a b = omega arith
