-- ===== src/Memoria/Datos/Copia.antt =====
-- `memcpy` into a block: which bytes change.
use tp_2023_1c_kernel_flow.Base.{
  ℕ, ◌+◌, ◌<◌, ◌≤◌, ◌≡◌, ◌⊎◌, refl, ◌∙◌, subst, false, some, List, ◌++◌, arith, ltb, length, take,
  drop, get_elem?, length-append, length-take, length-drop, le→not-ltb, get_elem?-take,
  get_elem?-drop, get_elem?-append_left, get_elem?-append_right,
}
use tp_2023_1c_kernel_flow.Wire.Bytes.{read_block}
use tp_2023_1c_kernel_flow.Memoria.Datos.{copy_into}
use tp_2023_1c_kernel_flow.Memoria.Datos.ReadWrite.{get-splice, read_block_lem}

abbrev pub copied : ℕ → List ℕ → List ℕ → List ℕ
copied base bytes xs = take base xs ++ (bytes ++ drop (base + length bytes) xs)

-- A slice of a list.
abbrev pub slice : ℕ → ℕ → List ℕ → List ℕ
slice base n xs = take n (drop base xs)

module _ (base : ℕ) (bytes xs : List ℕ) (fits : base + length bytes ≤ length xs) where
  pub copy_into_lem : copy_into base bytes xs ≡ some (copied base bytes xs)
  unfolding copy_into
  copy_into_lem =
      let inside : ltb (length xs) (base + length bytes) ≡ false = le→not-ltb _ _ fits in
      rw inside refl

  pub length-copied : length (copied base bytes xs) ≡ length xs
  length-copied = simp (length-append, length-take, length-drop) (omega (arith, fits))

  pub get-copied_inside :
      (d : ℕ) → d < length bytes → get_elem? (copied base bytes xs) (base + d) ≡ get_elem? bytes d
  get-copied_inside d below =
      let taken : length (take base xs) ≡ base = omega (arith, length-take base xs, fits) in
      subst (λ k. get_elem? (copied base bytes xs) (k + d) ≡ get_elem? bytes d) taken
        (get_elem?-append_right (take base xs) (bytes ++ drop (base + length bytes) xs) d
          ∙ get_elem?-append_left bytes _ d below)

  pub get-copied_outside :
      (j : ℕ)
      → (j < base) ⊎ (base + length bytes ≤ j)
      → get_elem? (copied base bytes xs) j ≡ get_elem? xs j
  get-copied_outside j outside = get-splice base bytes xs j fits outside

module _ (base n : ℕ) (xs : List ℕ) (fits : base + n ≤ length xs) where
  pub length-slice : length (slice base n xs) ≡ n
  length-slice = omega (arith, length-take n (drop base xs), length-drop base xs, fits)

  pub read_slice : read_block n (drop base xs) ≡ some (slice base n xs, drop n (drop base xs))
  read_slice = read_block_lem n (drop base xs) (omega (arith, length-drop base xs, fits))

  pub get-slice : (d : ℕ) → d < n → get_elem? (slice base n xs) d ≡ get_elem? xs (base + d)
  get-slice d below = get_elem?-take n d (drop base xs) below ∙ get_elem?-drop base d xs
