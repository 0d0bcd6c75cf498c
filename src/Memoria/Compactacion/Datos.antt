-- ===== src/Memoria/Compactacion/Datos.antt =====
-- memoria/src/utils.c: the bytes after `move_data`.
use tp_2023_1c_kernel_flow.Base.{
  ℕ, ◌+◌, ◌<◌, ◌≤◌, ◌≡◌, ◌⊎◌, inl, inr, refl, ap, ◌∙◌, ltb, ◌&&◌, Bool-cases, some, List, arith,
  length, get_elem?,
}
use tp_2023_1c_kernel_flow.Memoria.Datos.Copia.{
  copied, slice, copy_into_lem, length-copied, get-copied_inside, get-copied_outside, length-slice,
  read_slice, get-slice,
}
use tp_2023_1c_kernel_flow.Memoria.Compactacion.{memcpy_bytes, move_data}

-- What is left of blocks that overlap is as long as the block.
abbrev pub KeepsLength : ((to from size : ℕ) → List ℕ → List ℕ) → Type 0
KeepsLength memcpy_overlap =
    (to from size : ℕ) (space : List ℕ)
    → from + size ≤ length space
    → length (memcpy_overlap to from size space) ≡ size

-- The block is read before any of it is written, as `memmove` does.
abbrev pub ReadsFirst : ((to from size : ℕ) → List ℕ → List ℕ) → Type 0
ReadsFirst memcpy_overlap =
    (to from size : ℕ) (space : List ℕ)
    → from + size ≤ length space
    → memcpy_overlap to from size space ≡ slice from size space

module _ (ov : (to from size : ℕ) → List ℕ → List ℕ) where
  abbrev moved_bytes : ℕ → ℕ → ℕ → List ℕ → List ℕ
  moved_bytes to from n xs = memcpy_bytes ov to from n xs (slice from n xs)

  -- The bytes with a block moved.
  abbrev pub moved_space : ℕ → ℕ → ℕ → List ℕ → List ℕ
  moved_space to from n xs = copied to (moved_bytes to from n xs) xs

module _ (ov : (to from size : ℕ) → List ℕ → List ℕ) (lens : KeepsLength ov) (to from n : ℕ)
    (xs : List ℕ) (inner : from + n ≤ length xs) (room : to + n ≤ length xs) where
  length-moved_bytes : length (moved_bytes ov to from n xs) ≡ n
  unfolding memcpy_bytes
  length-moved_bytes = elim (Bool-cases (ltb to (from + n) && ltb from (to + n))) [
    | inl both ↦ rw both (lens to from n xs inner)
    | inr apart ↦ rw apart (length-slice from n xs inner)
  ]

  moved_bytes_first : ReadsFirst ov → moved_bytes ov to from n xs ≡ slice from n xs
  unfolding memcpy_bytes
  moved_bytes_first first = elim (Bool-cases (ltb to (from + n) && ltb from (to + n))) [
    | inl both ↦ rw both (first to from n xs inner)
    | inr apart ↦ rw apart refl
  ]

  fits : to + length (moved_bytes ov to from n xs) ≤ length xs
  fits = omega (arith, room, length-moved_bytes)

  pub move_data_lem : move_data ov to from n xs ≡ some (moved_space ov to from n xs)
  unfolding move_data
  move_data_lem =
      rw (read_slice from n xs inner) (copy_into_lem to (moved_bytes ov to from n xs) xs fits)

  pub length-moved_space : length (moved_space ov to from n xs) ≡ length xs
  length-moved_space = length-copied to (moved_bytes ov to from n xs) xs fits

  pub get-moved_space_inside :
      ReadsFirst ov
      → (d : ℕ) → d < n
      → get_elem? (moved_space ov to from n xs) (to + d) ≡ get_elem? xs (from + d)
  get-moved_space_inside first d below =
      get-copied_inside to (moved_bytes ov to from n xs) xs fits d
        (omega (arith, below, length-moved_bytes))
      ∙ (ap (λ bs. get_elem? bs d) (moved_bytes_first first) ∙ get-slice from n xs inner d below)

  pub get-moved_space_outside :
      (j : ℕ) → (j < to) ⊎ (to + n ≤ j) → get_elem? (moved_space ov to from n xs) j ≡ get_elem? xs j
  get-moved_space_outside j outside =
      get-copied_outside to (moved_bytes ov to from n xs) xs fits j
        (omega (arith, outside, length-moved_bytes))
