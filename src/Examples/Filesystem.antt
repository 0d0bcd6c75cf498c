-- ===== src/Examples/Filesystem.antt =====
-- The theorems on the file system, applied to a file of blocks of twelve bytes: a file has the direct
-- block 1, and the blocks 3, 4 and 5 by the pointers in block 2.
use tp_2023_1c_kernel_flow.Base.{
  ℕ, ◌+◌, ◌*◌, ◌≤◌, ◌≡◌, refl, Bool, true, false, ◌&&◌, Option, some, List, [], ◌∷◌, ◌++◌, arith,
  ◌==◌, if◌then◌else◌, replicate, length, get_elem?,
}
use tp_2023_1c_kernel_flow.Wire.Bytes.{read_u32}
use tp_2023_1c_kernel_flow.Wire.Types.{Info}
use tp_2023_1c_kernel_flow.Filesystem.Estado.{
  Fcb, Commons, IsCommons, Filesystem, load_fcb, get_fcb_path, get_cpb, get_bitmap_size,
}
use tp_2023_1c_kernel_flow.Filesystem.Calculo.{
  read_pointers, obtener_punteros_indirectos, count_pointers, obtener_bloque_libre,
}
use tp_2023_1c_kernel_flow.Filesystem.Calculo.Libre.{IsLowest, is_found, obtener_bloque_libre_lem}
use tp_2023_1c_kernel_flow.Filesystem.Truncar.{truncate_file}
use tp_2023_1c_kernel_flow.Filesystem.Truncar.Cero.{
  AllBelow, is_one_of, own_blocks, emptied, truncate_to_0_lem,
}
use tp_2023_1c_kernel_flow.Filesystem.Acceso.{puntero_at, read_bytes}
use tp_2023_1c_kernel_flow.Filesystem.Acceso.Tercero.{third_block_not_read}

abbrev same_path : List ℕ → List ℕ → Bool
same_path [] [] = true
same_path [] (y ∷ ys) = false
same_path (x ∷ xs) [] = false
same_path (x ∷ xs) (y ∷ ys) = (x == y) && same_path xs ys

same_path_self : (xs : List ℕ) → same_path xs xs ≡ true
same_path_self [] = refl
same_path_self (x ∷ xs) = ground (arith, same_path_self xs)

-- Bits and files as functions.
abbrev functions : Commons
functions = record {
  Bits = ℕ → Bool;
  bitarray_test_bit = λ b i. b i;
  bitarray_set_bit = λ b i j. if i == j then true else b j;
  bitarray_clean_bit = λ b i j. if i == j then false else b j;
  Files = List ℕ → Option Fcb;
  config_values = λ f path. f path;
  config_save = λ f path fcb other. if same_path path other then some fcb else f other;
}

functions-IsCommons : IsCommons functions
functions-IsCommons = record {
  test-set = λ b i j. refl;
  test-clean = λ b i j. refl;
  values-save = λ f path fcb. rw (same_path_self path) refl;
}

abbrev notes : Fcb
notes = record {
  nombre_archivo = b'n' ∷ [];
  tamanio_archivo = 48;
  puntero_directo = 1;
  puntero_indirecto = 2;
}

abbrev stored_blocks : List ℕ
stored_blocks =
    replicate 24 0
    ++ ((3 ∷ 0 ∷ 0 ∷ 0 ∷ []) ++ ((4 ∷ 0 ∷ 0 ∷ 0 ∷ []) ++ ((5 ∷ 0 ∷ 0 ∷ 0 ∷ []) ++ replicate 36 7)))

abbrev disk : Filesystem functions
disk = record {
  block_size = 12;
  block_count = 6;
  bitmap = λ i. true;
  blocks = stored_blocks;
  files = λ path. some notes;
  path_fcb = [];
}

notes_open : load_fcb (b'n' ∷ []) disk ≡ some notes
unfolding load_fcb get_fcb_path
notes_open = refl

notes_pointers : obtener_punteros_indirectos notes disk ≡ some (some (3 ∷ 4 ∷ 5 ∷ []))
unfolding obtener_punteros_indirectos get_cpb read_pointers read_u32
notes_pointers = refl

abbrev message : Info
message = record { block = replicate 20 9; size = 20 }

pointer_0 : puntero_at (some (3 ∷ 4 ∷ 5 ∷ [])) 0 ≡ some 3
unfolding puntero_at
pointer_0 = refl

pointer_1 : puntero_at (some (3 ∷ 4 ∷ 5 ∷ [])) (0 + 1) ≡ some 4
unfolding puntero_at
pointer_1 = refl

pointer_2 : puntero_at (some (3 ∷ 4 ∷ 5 ∷ [])) (0 + 1 + 1) ≡ some 5
unfolding puntero_at
pointer_2 = refl

third_block_not_read_example :
    (stream : List ℕ) × (read_bytes (replicate 36 1) notes ((0 + 1) * 12) (3 * 12) disk
      ≡ some stream)
    × (length stream ≡ 3 * 12)
    × ((j : ℕ) → 2 * 12 ≤ j → get_elem? stream j ≡ get_elem? (replicate 36 1) j)
third_block_not_read_example =
    third_block_not_read disk notes (some (3 ∷ 4 ∷ 5 ∷ [])) 0 3 4 5 (replicate 36 1) (omega arith)
      (omega arith) notes_pointers pointer_0 pointer_1 pointer_2 (omega arith) (omega arith)
      (omega arith) refl

notes_small : AllBelow (8 * get_bitmap_size disk) (own_blocks notes (some (3 ∷ 4 ∷ 5 ∷ [])))
unfolding get_bitmap_size count_pointers
notes_small = omega arith

truncate_to_0_lem_example :
    (fs' : Filesystem functions) × (truncate_file (b'n' ∷ []) 0 disk ≡ some (true, fs'))
    × (load_fcb (b'n' ∷ []) fs' ≡ some (emptied notes))
    × (fs'.blocks ≡ stored_blocks)
    × ((j : ℕ)
        → fs'.bitmap j
          ≡ (if is_one_of j (own_blocks notes (some (3 ∷ 4 ∷ 5 ∷ []))) then false else true))
truncate_to_0_lem_example =
    truncate_to_0_lem disk notes (some (3 ∷ 4 ∷ 5 ∷ [])) (b'n' ∷ []) functions-IsCommons notes_open
      refl (omega arith) notes_pointers notes_small

abbrev taken_but_4 : Filesystem functions
taken_but_4 = record disk { bitmap = λ j. if j == 4 then false else true }

obtener_bloque_libre_lem_example :
    (found : Option ℕ) × (fs' : Filesystem functions) × (obtener_bloque_libre taken_but_4
      ≡ some (found, fs'))
    × IsLowest taken_but_4 0 6 found
    × (fs'.blocks ≡ stored_blocks)
    × (fs'.files ≡ taken_but_4.files)
    × ((j : ℕ) → fs'.bitmap j ≡ (if is_found j found then true else if j == 4 then false else true))
obtener_bloque_libre_lem_example = obtener_bloque_libre_lem taken_but_4 functions-IsCommons
