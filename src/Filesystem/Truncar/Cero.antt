-- ===== src/Filesystem/Truncar/Cero.antt =====
-- filesystem/src/filesystem_instructions.c: a file is truncated to 0 bytes.
use tp_2023_1c_kernel_flow.Base.{
  ℕ, zero, suc, ◌+◌, ◌*◌, ◌<◌, ◌≤◌, ◌≡◌, inl, inr, refl, ap, ◌∙◌, Bool, true, false, Option, none,
  some, List, [], ◌∷◌, ◌++◌, arith, ltb, ◌==◌, if◌then◌else◌, length, take, Bool-cases,
  Option-cases,
}
use tp_2023_1c_kernel_flow.Wire.Bytes.{u32}
use tp_2023_1c_kernel_flow.Filesystem.Estado.{
  Fcb, Commons, IsCommons, Filesystem, M, pure, ◌>>=◌, ◌>>◌, get_bitmap_size, load_fcb, update_fcb,
  get_cpb, get_fcb_path,
}
use tp_2023_1c_kernel_flow.Filesystem.Calculo.{
  set_free_block_bitmap, read_pointers, obtener_punteros_indirectos, count_pointers,
  cantidad_punteros_indirectos,
}
use tp_2023_1c_kernel_flow.Filesystem.Truncar.{
  is_greater_than_max_size_file_allowed, free_first, free_all, shrink_to_zero, resize,
  truncate_open, truncate_file,
}

abbrev pub is_one_of : ℕ → List ℕ → Bool
is_one_of j [] = false
is_one_of j (b ∷ bs) = if b == j then true else is_one_of j bs

abbrev pub AllBelow : ℕ → List ℕ → Type 0
AllBelow n [] = Unit {0}
AllBelow n (b ∷ bs) = (b < n) × AllBelow n bs

-- The blocks of a file behind the direct one: those that the pointers name, and the block of pointers.
abbrev pub indirect_blocks : Fcb → Option (List ℕ) → List ℕ
indirect_blocks fcb none = []
indirect_blocks fcb (some ps) = take (count_pointers ps) ps ++ (fcb.puntero_indirecto ∷ [])

abbrev pub own_blocks : Fcb → Option (List ℕ) → List ℕ
own_blocks fcb punteros = fcb.puntero_directo ∷ indirect_blocks fcb punteros

abbrev pub emptied : Fcb → Fcb
emptied fcb = record fcb { tamanio_archivo = 0; puntero_directo = 0; puntero_indirecto = 0 }

AllBelow-append : (n : ℕ) (xs ys : List ℕ) → AllBelow n (xs ++ ys) → AllBelow n xs × AllBelow n ys
AllBelow-append n [] ys h = (tt, h)
AllBelow-append n (x ∷ xs) ys (first, rest) =
    let (low, high) = AllBelow-append n xs ys rest in ((first, low), high)

count_pointers_le : (ps : List ℕ) → count_pointers ps ≤ length ps
unfolding count_pointers
count_pointers_le [] = omega arith
count_pointers_le (p ∷ ps) = ground (arith, count_pointers_le ps)

module _ (c : Commons) where
  abbrev clean_each : List ℕ → c.Bits → c.Bits
  clean_each [] bits = bits
  clean_each (b ∷ bs) bits = clean_each bs (c.bitarray_clean_bit bits b)

  clean_each-append :
      (xs ys : List ℕ) (bits : c.Bits)
      → clean_each ys (clean_each xs bits) ≡ clean_each (xs ++ ys) bits
  clean_each-append [] ys bits = refl
  clean_each-append (x ∷ xs) ys bits = clean_each-append xs ys (c.bitarray_clean_bit bits x)

  test-clean_each :
      IsCommons c
      → (bs : List ℕ) (bits : c.Bits) (j : ℕ)
      → c.bitarray_test_bit (clean_each bs bits) j
        ≡ (if is_one_of j bs then false else c.bitarray_test_bit bits j)
  test-clean_each law [] bits j = refl
  test-clean_each law (b ∷ bs) bits j =
      let rest = test-clean_each law bs (c.bitarray_clean_bit bits b) j in
      let one = law.test-clean bits b j in
      elim (Bool-cases (is_one_of j bs)) [
        | inl among ↦ rw rest (rw among (ground (arith, one)))
        | inr not_among ↦ rw rest (rw not_among (ground (arith, one)))
      ]

module _ {c : Commons} where
  abbrev cleaned : List ℕ → Filesystem c → Filesystem c
  cleaned bs fs = record fs { bitmap = clean_each c bs fs.bitmap }

  run_next :
      {A B : Type 0} (m : M c A) (f : A → M c B) (fs fs' : Filesystem c) (a : A)
      → m fs ≡ some (a, fs')
      → (m >>= f) fs ≡ f a fs'
  run_next m f fs fs' a e = rw (e, ◌>>=◌) refl

  clean_one :
      (b : ℕ) (fs : Filesystem c)
      → b < 8 * get_bitmap_size fs
      → set_free_block_bitmap b fs ≡ some (tt, cleaned (b ∷ []) fs)
  unfolding set_free_block_bitmap
  clean_one b fs below =
      let test : ltb b (8 * get_bitmap_size fs) ≡ true = ground (arith, below) in rw test refl

  free_first_lem :
      (n : ℕ) (ps : List ℕ) (fs : Filesystem c)
      → n ≤ length ps
      → AllBelow (8 * get_bitmap_size fs) (take n ps)
      → free_first n ps fs ≡ some (tt, cleaned (take n ps) fs)
  unfolding free_first get_bitmap_size
  free_first_lem zero ps fs le below = refl
  free_first_lem (suc n) [] fs le below = absurd (omega (arith, le))
  free_first_lem (suc n) (p ∷ ps) fs le (first, rest) =
      run_next (set_free_block_bitmap p) (λ _. free_first n ps) fs (cleaned (p ∷ []) fs) tt
        (clean_one p fs first)
      ∙ free_first_lem n ps (cleaned (p ∷ []) fs) (omega (arith, le)) rest

  free_all_lem :
      (n : ℕ) (ps : List ℕ) (fcb : Fcb) (fs : Filesystem c)
      → n ≤ length ps
      → AllBelow (8 * get_bitmap_size fs) (take n ps ++ (fcb.puntero_indirecto ∷ []))
      → free_all n ps fcb fs
        ≡ some (
          record fcb { puntero_indirecto = 0 },
          cleaned (take n ps ++ (fcb.puntero_indirecto ∷ [])) fs,
        )
  unfolding free_all get_bitmap_size
  free_all_lem n ps fcb fs le below =
      let (pointers, own) = AllBelow-append (8 * get_bitmap_size fs) (take n ps) _ below in
      let last = clean_each-append c (take n ps) (fcb.puntero_indirecto ∷ []) fs.bitmap in
      run_next (free_first n ps)
        (λ _.
          set_free_block_bitmap fcb.puntero_indirecto
          >> pure (record fcb { puntero_indirecto = 0 }))
        fs (cleaned (take n ps) fs) tt (free_first_lem n ps fs le pointers)
      ∙ (run_next (set_free_block_bitmap fcb.puntero_indirecto)
            (λ _. pure (record fcb { puntero_indirecto = 0 })) (cleaned (take n ps) fs) _ tt
            (clean_one fcb.puntero_indirecto (cleaned (take n ps) fs) own.0)
          ∙ rw last refl)

  same_pointers :
      (fcb : Fcb) (bs : List ℕ) (fs : Filesystem c)
      → obtener_punteros_indirectos (record fcb { puntero_directo = 0 }) (cleaned bs fs)
        ≡ obtener_punteros_indirectos fcb fs
  unfolding obtener_punteros_indirectos get_cpb
  same_pointers fcb bs fs = refl

  none_means_0 :
      (fcb : Fcb) (fs : Filesystem c)
      → obtener_punteros_indirectos fcb fs ≡ some none
      → fcb.puntero_indirecto ≡ 0
  unfolding obtener_punteros_indirectos
  none_means_0 fcb fs e =
      elim (Option-cases
        (read_pointers fs.blocks (get_cpb fs) (u32 (fs.block_size * fcb.puntero_indirecto)))) [
          | inl fault ↦ ground (arith, fault, e)
          | inr (ps, read) ↦ ground (arith, read, e)
        ]

  shrink_to_zero_lem :
      (fcb : Fcb) (punteros : Option (List ℕ)) (fs : Filesystem c)
      → obtener_punteros_indirectos fcb fs ≡ some punteros
      → AllBelow (8 * get_bitmap_size fs) (own_blocks fcb punteros)
      → shrink_to_zero fcb fs
        ≡ some (
          record fcb { puntero_directo = 0; puntero_indirecto = 0 },
          cleaned (own_blocks fcb punteros) fs,
        )
  unfolding shrink_to_zero cantidad_punteros_indirectos get_bitmap_size
  shrink_to_zero_lem fcb none fs stored (first, rest) =
      let none_left : fcb.puntero_indirecto ≡ 0 = none_means_0 fcb fs stored in
      run_next (set_free_block_bitmap fcb.puntero_directo) _ fs
        (cleaned (fcb.puntero_directo ∷ []) fs) tt (clean_one fcb.puntero_directo fs first)
      ∙ rw (same_pointers fcb (fcb.puntero_directo ∷ []) fs) (
          rw stored (
            ap
              (λ (i : ℕ). some (
                record fcb { puntero_directo = 0; puntero_indirecto = i },
                cleaned (own_blocks fcb none) fs,
              ))
              none_left))
  shrink_to_zero_lem fcb (some ps) fs stored (first, rest) =
      run_next (set_free_block_bitmap fcb.puntero_directo) _ fs
        (cleaned (fcb.puntero_directo ∷ []) fs) tt (clean_one fcb.puntero_directo fs first)
      ∙ rw (same_pointers fcb (fcb.puntero_directo ∷ []) fs) (
          rw stored (
            free_all_lem (count_pointers ps) ps (record fcb { puntero_directo = 0 })
              (cleaned (fcb.puntero_directo ∷ []) fs) (count_pointers_le ps) rest))

module _ {c : Commons} (fcb : Fcb) where
  -- The state after the truncation.
  abbrev closed : Option (List ℕ) → Filesystem c → Filesystem c
  closed punteros fs = record (cleaned (own_blocks fcb punteros) fs) {
    files = c.config_save fs.files (get_fcb_path fcb.nombre_archivo fs) (emptied fcb);
  }

  resize_to_0 :
      (fs : Filesystem c) → 0 < fcb.tamanio_archivo → resize fcb 0 fs ≡ shrink_to_zero fcb fs
  unfolding resize
  resize_to_0 fs some_bytes =
      let larger : ltb fcb.tamanio_archivo 0 ≡ false = ground arith in
      let smaller : ltb 0 fcb.tamanio_archivo ≡ true = ground (arith, some_bytes) in
      rw (larger, smaller) refl

  truncate_open_lem :
      (punteros : Option (List ℕ)) (fs : Filesystem c)
      → 0 < fcb.tamanio_archivo
      → obtener_punteros_indirectos fcb fs ≡ some punteros
      → AllBelow (8 * get_bitmap_size fs) (own_blocks fcb punteros)
      → truncate_open fcb 0 fs ≡ some (true, closed punteros fs)
  unfolding truncate_open update_fcb get_fcb_path
  truncate_open_lem punteros fs some_bytes stored below =
      run_next (resize fcb 0) _ fs (cleaned (own_blocks fcb punteros) fs) _
        (resize_to_0 fs some_bytes ∙ shrink_to_zero_lem fcb punteros fs stored below)

  truncate_opened :
      (nombre : List ℕ) (fs fs' : Filesystem c)
      → load_fcb nombre fs ≡ some fcb
      → truncate_open fcb 0 fs ≡ some (true, fs')
      → truncate_file nombre 0 fs ≡ some (true, fs')
  unfolding truncate_file is_greater_than_max_size_file_allowed
  truncate_opened nombre fs fs' opened done =
      let small : ltb (u32 (fs.block_size * (1 + get_cpb fs))) 0 ≡ false = ground arith in
      rw (opened, truncate_file) (rw small done)

  load_closed :
      (punteros : Option (List ℕ)) (nombre : List ℕ) (fs : Filesystem c)
      → IsCommons c
      → fcb.nombre_archivo ≡ nombre
      → load_fcb nombre (closed punteros fs) ≡ some (emptied fcb)
  unfolding load_fcb get_fcb_path
  load_closed punteros nombre fs law named = rw (← named) (law.values-save fs.files _ (emptied fcb))

-- Let the commons library keep its promises, and let the blocks of a file of at least one byte be blocks
-- of the bitmap. Truncating it to 0 bytes is done: the FCB that is saved has no bytes and no blocks, the
-- contents of the blocks stay, and the free blocks are those that were free, the direct block, the
-- blocks that the pointers name, and the block of the pointers.
pub truncate_to_0_lem :
    {c : Commons} (fs : Filesystem c) (fcb : Fcb) (punteros : Option (List ℕ)) (nombre : List ℕ)
    → IsCommons c
    → load_fcb nombre fs ≡ some fcb
    → fcb.nombre_archivo ≡ nombre
    → 0 < fcb.tamanio_archivo
    → obtener_punteros_indirectos fcb fs ≡ some punteros
    → AllBelow (8 * get_bitmap_size fs) (own_blocks fcb punteros)
    → (fs' : Filesystem c) × (truncate_file nombre 0 fs ≡ some (true, fs'))
      × (load_fcb nombre fs' ≡ some (emptied fcb))
      × (fs'.blocks ≡ fs.blocks)
      × ((j : ℕ)
          → c.bitarray_test_bit fs'.bitmap j ≡ (
              if is_one_of j (own_blocks fcb punteros)
              then false
              else c.bitarray_test_bit fs.bitmap j))
truncate_to_0_lem {c} fs fcb punteros nombre law opened named some_bytes stored below = (
  closed fcb punteros fs,
  truncate_opened fcb nombre fs (closed fcb punteros fs) opened
      (truncate_open_lem fcb punteros fs some_bytes stored below),
  load_closed fcb punteros nombre fs law named,
  refl,
  test-clean_each c law (own_blocks fcb punteros) fs.bitmap,
)
