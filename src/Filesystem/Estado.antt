-- ===== src/Filesystem/Estado.antt =====
-- filesystem/include/filesystem_vars.h and filesystem/src/filesystem_core.c: the state of the file
-- system. The files of blocks and of the bitmap are mapped in memory, so the state holds their
-- contents; a fault of the process is `none`.
use tp_2023_1c_kernel_flow.Base.{
  ℕ, ◌+◌, ◌*◌, ◌/◌, ◌≡◌, Bool, true, false, Option, none, some, List, ◌∷◌, ◌++◌, ◌==◌,
  if◌then◌else◌,
}
use tp_2023_1c_kernel_flow.Wire.Bytes.{u32}

-- t_fcb.
pub record Fcb : Type 0 where
  pub nombre_archivo : List ℕ
  pub tamanio_archivo : ℕ
  pub puntero_directo : ℕ
  pub puntero_indirecto : ℕ

-- What is called of the commons library: its bit array, and the configuration files that keep the
-- FCBs. `config_values` answers what `config_create` and the reads of the four keys give for a path,
-- `none` for NULL; `config_save` what the file of a path is after the four keys are set and saved.
pub record Commons : Type 1 where
  pub Bits : Type 0
  pub bitarray_test_bit : Bits → ℕ → Bool
  pub bitarray_set_bit : Bits → ℕ → Bits
  pub bitarray_clean_bit : Bits → ℕ → Bits
  pub Files : Type 0
  pub config_values : Files → List ℕ → Option Fcb
  pub config_save : Files → List ℕ → Fcb → Files

-- What is documented of them: a bit is what was written last, and so are the values of a path.
pub record IsCommons (c : Commons) : Type 0 where
  pub test-set :
      (b : c.Bits) (i j : ℕ)
      → c.bitarray_test_bit (c.bitarray_set_bit b i) j
        ≡ (if i == j then true else c.bitarray_test_bit b j)
  pub test-clean :
      (b : c.Bits) (i j : ℕ)
      → c.bitarray_test_bit (c.bitarray_clean_bit b i) j
        ≡ (if i == j then false else c.bitarray_test_bit b j)
  pub values-save :
      (f : c.Files) (path : List ℕ) (fcb : Fcb)
      → c.config_values (c.config_save f path fcb) path ≡ some fcb

module _ (c : Commons) where
  pub record Filesystem : Type 0 where
    pub block_size : ℕ
    pub block_count : ℕ
    pub bitmap : c.Bits
    pub blocks : List ℕ
    pub files : c.Files
    pub path_fcb : List ℕ

  abbrev pub M : Type 0 → Type 0
  M A = Filesystem → Option (A × Filesystem)

module _ {c : Commons} where
  abbrev pub pure : {A : Type 0} → A → M c A
  pure a fs = some (a, fs)

  infixl 5 ◌>>=◌ ◌>>◌
  abbrev pub ◌>>=◌ : {A B : Type 0} → M c A → (A → M c B) → M c B
  ◌>>=◌ m f fs = elim (m fs) [ none ↦ none | some (a, fs') ↦ f a fs' ]

  abbrev pub ◌>>◌ : {B : Type 0} → M c (Unit {0}) → M c B → M c B
  m >> n = m >>= λ _. n

  -- What an expression that only reads the state gives, and one that may fault.
  abbrev pub ask : {A : Type 0} → (Filesystem c → A) → M c A
  ask f fs = some (f fs, fs)

  abbrev pub follow : {A : Type 0} → Option A → M c A
  follow none fs = none
  follow (some a) fs = some (a, fs)

  unfoldable pub get_fcb_path : List ℕ → Filesystem c → List ℕ
  get_fcb_path filename fs = fs.path_fcb ++ (b'/' ∷ filename)

  -- NULL is `none`.
  unfoldable pub load_fcb : List ℕ → Filesystem c → Option Fcb
  load_fcb filename fs = c.config_values fs.files (get_fcb_path filename fs)

  -- The name of the file is left as it is.
  unfoldable pub update_fcb : Fcb → M c (Unit {0})
  update_fcb fcb fs =
      some
        (tt, record fs { files = c.config_save fs.files (get_fcb_path fcb.nombre_archivo fs) fcb })

  unfoldable pub create_fcb : List ℕ → M c Bool
  create_fcb filename fs = some (
    true,
    record fs {
      files = c.config_save fs.files (get_fcb_path filename fs) (record {
        nombre_archivo = filename;
        tamanio_archivo = 0;
        puntero_directo = 0;
        puntero_indirecto = 0;
      });
    },
  )

  unfoldable pub get_bitmap_size : Filesystem c → ℕ
  get_bitmap_size fs = u32 (fs.block_count + 7) / 8

  unfoldable pub get_blocks_size : Filesystem c → ℕ
  get_blocks_size fs = u32 (fs.block_size * fs.block_count)

  -- The division by `sizeof(uint32_t)`.
  unfoldable pub get_cpb : Filesystem c → ℕ
  get_cpb fs = fs.block_size / 4
