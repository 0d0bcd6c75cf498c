-- ===== src/Filesystem/Calculo/Libre.antt =====
-- filesystem/src/filesystem_calculate.c: the block that `obtener_bloque_libre` takes.
use tp_2023_1c_kernel_flow.Base.{
  ℕ, zero, suc, ◌+◌, ◌<◌, ◌≤◌, ◌≡◌, ◌⊎◌, inl, inr, refl, subst, Bool, true, false, Option, none,
  some, arith, ◌==◌, if◌then◌else◌, Bool-cases,
}
use tp_2023_1c_kernel_flow.Filesystem.Estado.{Commons, IsCommons, Filesystem}
use tp_2023_1c_kernel_flow.Filesystem.Calculo.{find_free, mark, obtener_bloque_libre}

-- The lowest free block from `i` on and below `n`, or that there is none.
abbrev pub IsLowest : {c : Commons} → Filesystem c → ℕ → ℕ → Option ℕ → Type 0
IsLowest {c} fs i n none = (j : ℕ) → i ≤ j → j < n → c.bitarray_test_bit fs.bitmap j ≡ true
IsLowest {c} fs i n (some b) =
    (i ≤ b)
    × (b < n)
    × (c.bitarray_test_bit fs.bitmap b ≡ false)
    × ((j : ℕ) → i ≤ j → j < b → c.bitarray_test_bit fs.bitmap j ≡ true)

abbrev pub is_found : ℕ → Option ℕ → Bool
is_found j none = false
is_found j (some b) = b == j

same_or_above : (i j : ℕ) → i ≤ j → (i ≡ j) ⊎ (i + 1 ≤ j)
same_or_above i j low = omega arith

taken_from :
    {c : Commons} (fs : Filesystem c) (i n : ℕ)
    → c.bitarray_test_bit fs.bitmap i ≡ true
    → ((j : ℕ) → i + 1 ≤ j → j < n → c.bitarray_test_bit fs.bitmap j ≡ true)
    → (j : ℕ) → i ≤ j
    → j < n
    → c.bitarray_test_bit fs.bitmap j ≡ true
taken_from fs i n taken rest j low high = elim (same_or_above i j low) [
  | inl same ↦ rw (← same) taken
  | inr above ↦ rest j above high
]

IsLowest-before :
    {c : Commons} (fs : Filesystem c) (i n : ℕ) (found : Option ℕ)
    → c.bitarray_test_bit fs.bitmap i ≡ true
    → IsLowest fs (i + 1) n found
    → IsLowest fs i n found
IsLowest-before {c} fs i n none taken rest = taken_from fs i n taken rest
IsLowest-before {c} fs i n (some b) taken (above, below, free, rest) =
    (omega (arith, above), below, free, taken_from fs i b taken rest)

find_free_lem :
    {c : Commons} (fs : Filesystem c) (rounds i : ℕ)
    → IsLowest fs i (i + rounds) (find_free fs rounds i)
unfolding find_free
find_free_lem {c} fs zero i = λ j low high. absurd (omega (arith, low, high))
find_free_lem {c} fs (suc rounds) i = elim (Bool-cases (c.bitarray_test_bit fs.bitmap i)) [
  | inl taken ↦
      let swap : i + 1 + rounds ≡ i + suc rounds = omega arith in
      rw taken (
        IsLowest-before fs i (i + suc rounds) _ taken (
          subst (λ n. IsLowest fs (i + 1) n (find_free fs rounds (i + 1))) swap
            (find_free_lem fs rounds (i + 1))))
  | inr free ↦
      rw free (omega arith, omega arith, free, λ j low high. absurd (omega (arith, low, high)))
]

marked :
    {c : Commons} (fs : Filesystem c)
    → IsCommons c
    → (found : Option ℕ)
    → ((mark found fs).blocks ≡ fs.blocks)
      × ((mark found fs).files ≡ fs.files)
      × ((j : ℕ)
          → c.bitarray_test_bit (mark found fs).bitmap j
            ≡ (if is_found j found then true else c.bitarray_test_bit fs.bitmap j))
unfolding mark
marked fs law none = (refl, refl, λ j. refl)
marked fs law (some b) = (refl, refl, law.test-set fs.bitmap b)

-- Let the commons library keep its promises. Either a block is answered that was free, the lowest one of
-- the file system, and it is taken, or every block is taken and -1 is answered. No other block changes
-- its bit, nothing else of the file system changes.
pub obtener_bloque_libre_lem :
    {c : Commons} (fs : Filesystem c)
    → IsCommons c
    → (found : Option ℕ) × (fs' : Filesystem c) × (obtener_bloque_libre fs ≡ some (found, fs'))
      × IsLowest fs 0 fs.block_count found
      × (fs'.blocks ≡ fs.blocks)
      × (fs'.files ≡ fs.files)
      × ((j : ℕ)
          → c.bitarray_test_bit fs'.bitmap j
            ≡ (if is_found j found then true else c.bitarray_test_bit fs.bitmap j))
unfolding obtener_bloque_libre
obtener_bloque_libre_lem {c} fs law =
    let found = find_free fs fs.block_count 0 in
    let (same_blocks, same_files, bits) = marked fs law found in
    (
      found,
      mark found fs,
      refl,
      subst (λ n. IsLowest fs 0 n found) (omega arith) (find_free_lem fs fs.block_count 0),
      same_blocks,
      same_files,
      bits,
    )
