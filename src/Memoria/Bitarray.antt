-- ===== src/Memoria/Bitarray.antt =====
-- libs/src/bitarray.c and libs/include/bitarray.h: bits packed in an array of unsigned char. A
-- message on the terminal is not modelled.
pub mod Bytes
pub mod Laws
use Prim.Native.Nat.{bit_and, bit_or}
use tp_2023_1c_kernel_flow.Base.{
  ℕ, ◌+◌, ◌-◌, ◌/◌, ◌%◌, ◌^◌, Bool, true, false, List, leb, ◌==◌, if◌then◌else◌, get_or, set,
  replicate,
}

pub record Bitarray : Type 0 where
  pub array : List ℕ
  pub size : ℕ

unfoldable pub bitarray_create : ℕ → Bitarray
bitarray_create size = record { array = replicate ((size + 7) / 8) 0; size = size }

-- `byte | (1 << k)` and `byte & ~(1 << k)`, in an unsigned char.
unfoldable pub raise_bit : ℕ → ℕ → ℕ
raise_bit byte k = bit_or byte (2 ^ k)

unfoldable pub clear_bit : ℕ → ℕ → ℕ
clear_bit byte k = bit_and byte (255 - 2 ^ k)

-- `(byte >> k) & 1`
unfoldable pub test_bit : ℕ → ℕ → Bool
test_bit byte k = byte / 2 ^ k % 2 == 1

-- An index out of bounds is refused.
unfoldable pub bitarray_set : Bitarray → ℕ → Bool → Bitarray
bitarray_set b index value =
    let byte = get_or b.array (index / 8) 0 in
    if leb b.size index then b else record b {
      array =
          set b.array (index / 8)
            (if value then raise_bit byte (index % 8) else clear_bit byte (index % 8));
    }

unfoldable pub bitarray_get : Bitarray → ℕ → Bool
bitarray_get b index =
    if leb b.size index then false else test_bit (get_or b.array (index / 8) 0) (index % 8)
