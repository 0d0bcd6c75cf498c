-- ===== src/Memoria/Bitarray/Laws.antt =====
-- libs/src/bitarray.c: the packed bytes behave as a map from the indices in bounds to bits.
use tp_2023_1c_kernel_flow.Base.{
  ℕ, zero, suc, ◌+◌, ◌/◌, ◌%◌, ◌^◌, ◌<◌, ◌≡◌, refl, ◌∙◌, Bool, false, List, [], ◌∷◌, arith, leb,
  ◌==◌, if◌then◌else◌, length, get_or, set, length-set, replicate, length-replicate, Bool-cases,
  inl, inr,
}
use tp_2023_1c_kernel_flow.Wire.Bytes.{AllBelow}
use tp_2023_1c_kernel_flow.Memoria.Bitarray.{
  Bitarray, bitarray_create, bitarray_set, bitarray_get, raise_bit, clear_bit, test_bit,
}
use tp_2023_1c_kernel_flow.Memoria.Bitarray.Bytes.{test_bit-written, written-lt}

-- The array has a byte for every eight bits, and holds bytes.
pub record IsBitarray (b : Bitarray) : Type 0 where
  pub enough : length b.array ≡ (b.size + 7) / 8
  pub bytes : AllBelow 256 b.array

get_or-lt : (xs : List ℕ) (i : ℕ) → AllBelow 256 xs → get_or xs i 0 < 256
get_or-lt [] i h = omega arith
get_or-lt (x ∷ xs) zero h = h.0
get_or-lt (x ∷ xs) (suc i) h = get_or-lt xs i h.1

AllBelow-set : (xs : List ℕ) (i v : ℕ) → v < 256 → AllBelow 256 xs → AllBelow 256 (set xs i v)
AllBelow-set [] i v hv h = tt
AllBelow-set (x ∷ xs) zero v hv h = (hv, h.1)
AllBelow-set (x ∷ xs) (suc i) v hv h = (h.0, AllBelow-set xs i v hv h.1)

get_or-set :
    (xs : List ℕ) (i j v : ℕ)
    → i < length xs
    → get_or (set xs i v) j 0 ≡ (if i == j then v else get_or xs j 0)
get_or-set [] i j v h = elim h [ ]
get_or-set (x ∷ xs) zero zero v h = refl
get_or-set (x ∷ xs) zero (suc j) v h = ground arith
get_or-set (x ∷ xs) (suc i) zero v h = ground arith
get_or-set (x ∷ xs) (suc i) (suc j) v h = ground (arith, get_or-set xs i j v (omega arith))

pub size-set : (b : Bitarray) (i : ℕ) (v : Bool) → (bitarray_set b i v).size ≡ b.size
unfolding bitarray_set
size-set b i v = ground arith

pub set-IsBitarray :
    (b : Bitarray) (i : ℕ) (v : Bool) → IsBitarray b → IsBitarray (bitarray_set b i v)
unfolding bitarray_set
set-IsBitarray b i v h = elim (Bool-cases (leb b.size i)) [
  | inl out ↦ rw out h
  | inr inside ↦ rw inside (record {
    enough = length-set b.array (i / 8) _ ∙ h.enough;
    bytes =
        AllBelow-set b.array (i / 8) _
          (written-lt v _ (i % 8) (get_or-lt b.array (i / 8) h.bytes) (omega arith)) h.bytes;
  })
]

-- In a well-formed bit array, after a write to an index in bounds, a read of that index gives the
-- bit written, and a read of any other index gives what it gave before.
pub get-set :
    (b : Bitarray) (i j : ℕ) (v : Bool)
    → IsBitarray b
    → i < b.size
    → bitarray_get (bitarray_set b i v) j ≡ (if i == j then v else bitarray_get b j)
unfolding bitarray_set bitarray_get
get-set b i j v h inside =
    let byte = get_or b.array (i / 8) 0 in
    let value = if v then raise_bit byte (i % 8) else clear_bit byte (i % 8) in
    ground (
      arith,
      get_or-set b.array (i / 8) (j / 8) value (omega (arith, h.enough)),
      test_bit-written v byte (i % 8) (j % 8) (get_or-lt b.array (i / 8) h.bytes) (omega arith)
          (omega arith),
    )

replicate-AllBelow : (n : ℕ) → AllBelow 256 (replicate n 0)
replicate-AllBelow zero = tt
replicate-AllBelow (suc n) = (omega arith, replicate-AllBelow n)

pub create-IsBitarray : (n : ℕ) → IsBitarray (bitarray_create n)
unfolding bitarray_create
create-IsBitarray n = record {
  enough = length-replicate ((n + 7) / 8) 0;
  bytes = replicate-AllBelow ((n + 7) / 8);
}

abbrev zero_byte : ℕ
zero_byte = 0

get_or-replicate : (n i : ℕ) → get_or (replicate n zero_byte) i 0 ≡ zero_byte
get_or-replicate zero i = refl
get_or-replicate (suc n) zero = refl
get_or-replicate (suc n) (suc i) = get_or-replicate n i

-- A new array holds no bit.
pub get-create : (n i : ℕ) → bitarray_get (bitarray_create n) i ≡ false
unfolding bitarray_get bitarray_create test_bit
get-create n i =
    let unset : zero_byte / 2 ^ (i % 8) % 2 ≡ 0 = omega arith in
    rw (get_or-replicate ((n + 7) / 8) (i / 8), unset) (ground arith)
