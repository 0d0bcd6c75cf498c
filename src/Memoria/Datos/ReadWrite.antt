-- ===== src/Memoria/Datos/ReadWrite.antt =====
-- memoria/src/utils.c and memoria/src/modulos.c: a read after a write, and accesses out of bounds.
use tp_2023_1c_kernel_flow.Base.{
  ◌⊎◌, get_elem?, ℕ, zero, suc, ◌+◌, ◌<◌, ◌≤◌, ◌≡◌, refl, subst, true, false, Option, none, some,
  List, [], ◌∷◌, ◌++◌, arith, ltb, length, length-append, take, length-take, drop, drop-append,
  length-drop, le→not-ltb, lt→ltb,
}
use tp_2023_1c_kernel_flow.Wire.Bytes.{
  u32, u32_max, read_block, copy_block, copy_block_self, read_block-Reads,
}
use tp_2023_1c_kernel_flow.Wire.Types.{segmentation_fault, success, InfoWrite, Segment}
use tp_2023_1c_kernel_flow.Memoria.Estado.{
  Table, Memoria, holds, find_pointer, find_segment, get_pid_by_address,
}
use tp_2023_1c_kernel_flow.Memoria.Datos.{
  out_of_memory_space, read_memory, copy_into, write_memory, status_reply, info_reply,
  handle_info_read, answer_write, handle_info_write,
}

-- An access of a size inside of the memory.
pub record InMemory (m : Memoria) (base size : ℕ) : Type 0 where
  pub space : length m.memory_space ≡ m.memory_size
  pub small : m.memory_size < u32_max
  pub inside : base + size ≤ m.memory_size

in_bounds_lem :
    (m : Memoria) (base size : ℕ) → InMemory m base size → out_of_memory_space base size m ≡ false
unfolding out_of_memory_space
in_bounds_lem m base size h = le→not-ltb _ _ (omega (arith, h.small, h.inside))

-- The memory after a write.
abbrev pub written : Memoria → InfoWrite → Memoria
written m w = record m {
  memory_space =
      take w.base_address m.memory_space
      ++ (w.info.block ++ drop (w.base_address + length w.info.block) m.memory_space);
}

write_memory_lem :
    (m : Memoria) (w : InfoWrite)
    → length w.info.block ≡ w.info.size
    → InMemory m w.base_address w.info.size
    → write_memory w.base_address w.info.size w.info.block m ≡ some (true, written m w)
unfolding write_memory copy_into
write_memory_lem m w measured h =
    let copied : copy_block w.info.size w.info.block ≡ some w.info.block =
      subst (λ n. copy_block n w.info.block ≡ some w.info.block) measured
        (copy_block_self w.info.block) in
    let fits : ltb (length m.memory_space) (w.base_address + length w.info.block) ≡ false =
      le→not-ltb _ _ (omega (arith, h.space, h.inside, measured)) in
    rw (in_bounds_lem m w.base_address w.info.size h, copied) (rw fits)

read_written :
    (m : Memoria) (w : InfoWrite)
    → length w.info.block ≡ w.info.size
    → InMemory m w.base_address w.info.size
    → read_memory w.base_address w.info.size (written m w) ≡ some (some w.info)
unfolding read_memory
read_written m w measured h =
    let before = take w.base_address m.memory_space in
    let after = drop (w.base_address + length w.info.block) m.memory_space in
    let taken : length before ≡ w.base_address =
      omega (arith, length-take w.base_address m.memory_space, h.space, h.inside) in
    let skipped : drop w.base_address (before ++ (w.info.block ++ after)) ≡ w.info.block ++ after =
      subst (λ n. drop n (before ++ (w.info.block ++ after)) ≡ w.info.block ++ after) taken
        (drop-append before (w.info.block ++ after)) in
    rw (
      in_bounds_lem (written m w) w.base_address w.info.size h',
      skipped,
      (read_block-Reads w.info.size w.info.block measured).apply after,
    )
  where
    h' : InMemory (written m w) w.base_address w.info.size
    h' = record {
      space =
          simp (length-append, length-take, length-drop)
            (omega (arith, measured, h.space, h.inside));
      small = h.small;
      inside = h.inside;
    }

-- Let the address belong to a segment of a process, and the block have the size that it states,
-- inside of the memory. The write is answered with SUCCESS, and a read of as many bytes at that
-- address then answers the block written.
pub read_after_write :
    (m : Memoria) (w : InfoWrite) (pid : ℕ)
    → get_pid_by_address w.base_address m ≡ some (some pid)
    → length w.info.block ≡ w.info.size
    → InMemory m w.base_address w.info.size
    → (m' : Memoria) × (handle_info_write w m ≡ some (status_reply success, m'))
      × (handle_info_read (record { base_address = w.base_address; size = w.info.size }) m'
          ≡ some (info_reply w.info))
unfolding handle_info_write handle_info_read answer_write get_pid_by_address
read_after_write m w pid found measured h = (
  written m w,
  rw (found, write_memory_lem m w measured h),
  rw (read_written m w measured h, found),
)

get-over :
    (bytes xs : List ℕ) (j : ℕ)
    → length bytes ≤ length xs
    → length bytes ≤ j
    → get_elem? (bytes ++ drop (length bytes) xs) j ≡ get_elem? xs j
get-over [] xs j fits behind = refl
get-over (b ∷ bytes) [] j fits behind = absurd (omega arith)
get-over (b ∷ bytes) (x ∷ xs) zero fits behind = absurd (omega arith)
get-over (b ∷ bytes) (x ∷ xs) (suc j) fits behind = get-over bytes xs j (omega arith) (omega arith)

pub get-splice :
    (base : ℕ) (bytes xs : List ℕ) (j : ℕ)
    → base + length bytes ≤ length xs
    → (j < base) ⊎ (base + length bytes ≤ j)
    → get_elem? (take base xs ++ (bytes ++ drop (base + length bytes) xs)) j ≡ get_elem? xs j
get-splice zero bytes xs j fits outside =
    let here : 0 + length bytes ≡ length bytes = omega arith in
    rw here (get-over bytes xs j (omega arith) (omega arith))
get-splice (suc base) bytes [] j fits outside = absurd (omega arith)
get-splice (suc base) bytes (x ∷ xs) zero fits outside = refl
get-splice (suc base) bytes (x ∷ xs) (suc j) fits outside =
    let e : suc base + length bytes ≡ suc (base + length bytes) = omega arith in
    rw e (get-splice base bytes xs j (omega arith) (omega arith))

-- Let the address belong to a segment of a process, and the block have the size that it states,
-- inside of the memory. The write is answered with SUCCESS, and a byte that is not one of those
-- written is as it was.
pub write_leaves_rest :
    (m : Memoria) (w : InfoWrite) (pid j : ℕ)
    → get_pid_by_address w.base_address m ≡ some (some pid)
    → length w.info.block ≡ w.info.size
    → InMemory m w.base_address w.info.size
    → (j < w.base_address) ⊎ (w.base_address + w.info.size ≤ j)
    → (m' : Memoria) × (handle_info_write w m ≡ some (status_reply success, m'))
      × (get_elem? m'.memory_space j ≡ get_elem? m.memory_space j)
unfolding handle_info_write answer_write
write_leaves_rest m w pid j found measured h outside = (
  written m w,
  rw (found, write_memory_lem m w measured h),
  get-splice w.base_address w.info.block m.memory_space j
      (omega (arith, h.space, h.inside, measured)) (omega (arith, outside, measured)),
)

pub read_block_lem :
    (n : ℕ) (xs : List ℕ) → n ≤ length xs → read_block n xs ≡ some (take n xs, drop n xs)
unfolding read_block
read_block_lem zero xs h = refl
read_block_lem (suc n) [] h = absurd (omega arith)
read_block_lem (suc n) (x ∷ xs) h = rw (read_block_lem n xs (omega arith))

read_memory_lem :
    (m : Memoria) (base size : ℕ)
    → InMemory m base size
    → read_memory base size m
      ≡ some (some (record { block = take size (drop base m.memory_space); size = size }))
unfolding read_memory
read_memory_lem m base size h = rw (
  in_bounds_lem m base size h,
  read_block_lem size (drop base m.memory_space)
      (omega (arith, length-drop base m.memory_space, h.space, h.inside)),
)

-- Where the address belongs to a segment but the access ends past the memory, and the sum of the
-- address and the size fits in a uint32_t, a write is answered with SEGMENTATION_FAULT and changes
-- nothing, and a read is a fault of the memory process.
pub access_past_memory :
    (m : Memoria) (w : InfoWrite) (pid : ℕ)
    → get_pid_by_address w.base_address m ≡ some (some pid)
    → m.memory_size < w.base_address + w.info.size
    → w.base_address + w.info.size < u32_max
    → (handle_info_write w m ≡ some (status_reply segmentation_fault, m))
      × (handle_info_read (record { base_address = w.base_address; size = w.info.size }) m ≡ none)
unfolding handle_info_write handle_info_read answer_write write_memory read_memory
    out_of_memory_space
access_past_memory m w pid found past range =
    let test : ltb m.memory_size (u32 (w.base_address + w.info.size)) ≡ true =
      lt→ltb _ _ (omega (arith, past, range)) in
    (rw (found, test), rw (test, found))

-- The pointers of a list may be followed, and an address is in none of their segments, whose ends fit
-- in a uint32_t.
abbrev pub NoneHolds : (ℕ → Option Segment) → ℕ → List ℕ → Type 0
NoneHolds heap address [] = Unit {0}
NoneHolds heap address (p ∷ ps) =
    (s : Segment) × (heap p ≡ some s)
    × (s.base_address + s.size < u32_max)
    × ((address < s.base_address) ⊎ (s.base_address + s.size ≤ address))
    × NoneHolds heap address ps

abbrev pub NoTableHolds : (ℕ → Option Segment) → ℕ → List Table → Type 0
NoTableHolds heap address [] = Unit {0}
NoTableHolds heap address (t ∷ ts) =
    NoneHolds heap address t.segment_list × NoTableHolds heap address ts

not-holds :
    (address : ℕ) (s : Segment)
    → s.base_address + s.size < u32_max
    → (address < s.base_address) ⊎ (s.base_address + s.size ≤ address)
    → holds address s ≡ false
unfolding holds
not-holds address s range out =
    let same : u32 (s.base_address + s.size) ≡ s.base_address + s.size = omega (arith, range) in
    rw same (ground (arith, out))

find_pointer-NoneHolds :
    (heap : ℕ → Option Segment) (address : ℕ) (ps : List ℕ)
    → NoneHolds heap address ps
    → find_pointer heap (holds address) ps ≡ some none
unfolding find_pointer
find_pointer-NoneHolds heap address [] h = refl
find_pointer-NoneHolds heap address (p ∷ ps) (s, there, range, out, rest) =
    rw (there, not-holds address s range out) (find_pointer-NoneHolds heap address ps rest)

find_segment-NoTableHolds :
    (heap : ℕ → Option Segment) (address : ℕ) (ts : List Table)
    → NoTableHolds heap address ts
    → find_segment heap (holds address) ts ≡ some none
unfolding find_segment
find_segment-NoTableHolds heap address [] h = refl
find_segment-NoTableHolds heap address (t ∷ ts) (first, rest) =
    rw (find_pointer-NoneHolds heap address t.segment_list first)
      (find_segment-NoTableHolds heap address ts rest)

-- Where the tables hold pointers that may be followed, and the address is in none of the segments
-- that they point to, whose ends fit in a uint32_t, for an access inside of the memory, a write is
-- answered with SEGMENTATION_FAULT and changes nothing, and so is a read.
pub access_outside_segments :
    (m : Memoria) (w : InfoWrite)
    → NoTableHolds m.heap w.base_address m.all_segments_tables
    → InMemory m w.base_address w.info.size
    → (handle_info_write w m ≡ some (status_reply segmentation_fault, m))
      × (handle_info_read (record { base_address = w.base_address; size = w.info.size }) m
          ≡ some (status_reply segmentation_fault))
unfolding handle_info_write handle_info_read get_pid_by_address
access_outside_segments m w outside h =
    let found = find_segment-NoTableHolds m.heap w.base_address m.all_segments_tables outside in
    (rw found refl, rw (read_memory_lem m w.base_address w.info.size h) (rw found refl))
