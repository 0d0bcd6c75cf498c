-- ===== src/Wire/Bytes.antt =====
-- memcpy to and from a stream: a number of four bytes, lowest first (as the x86 hosts lay it out),
-- and blocks. A read or a copy past the end of its block is undefined in C, and `none` here.
use mathlib.Core.Option
use tp_2023_1c_kernel_flow.Base.{
  ℕ, zero, suc, ◌+◌, ◌*◌, ◌/◌, ◌%◌, ◌<◌, ◌≡◌, refl, ap, Option, none, some, List, [], ◌∷◌, ◌++◌,
  subst, append-nil, append_assoc, arith, length,
}

abbrev pub u32_max : ℕ
u32_max = 4294967296

-- The value that a uint32_t keeps.
abbrev pub u32 : ℕ → ℕ
u32 n = n % u32_max

pub record Buffer : Type 0 where
  pub size : ℕ
  pub stream : List ℕ

-- The buffer whose stream is filled exactly.
abbrev pub packed : List ℕ → Buffer
packed bytes = record { size = length bytes; stream = bytes }

-- The result of a read at the front of a stream, with what is left of it.
abbrev pub Reader {ℓ} : Type ℓ → Type ℓ
Reader A = List ℕ → Option (A × List ℕ)

abbrev pub pure {ℓ} : {A : Type ℓ} → A → Reader A
pure a s = some (a, s)

infixl 5 ◌>>=◌
abbrev pub ◌>>=◌ {ℓ κ} : {A : Type ℓ} {B : Type κ} → Reader A → (A → Reader B) → Reader B
◌>>=◌ m f s = elim (m s) [ none ↦ none | some (a, s') ↦ f a s' ]

-- A value that the stream does not decide, or a fault.
abbrev pub lift {ℓ} : {A : Type ℓ} → Option A → Reader A
lift none s = none
lift (some a) s = some (a, s)

unfoldable pub u32_bytes : ℕ → List ℕ
u32_bytes n = (n % 256) ∷ (n / 256 % 256) ∷ (n / 65536 % 256) ∷ (n / 16777216 % 256) ∷ []

unfoldable pub read_u32 : Reader ℕ
read_u32 (a ∷ b ∷ c ∷ d ∷ s) = some (a + 256 * b + 65536 * c + 16777216 * d, s)
read_u32 _ = none

-- memcpy of n bytes out of the stream into a block of its own.
unfoldable pub read_block : ℕ → Reader (List ℕ)
read_block zero s = some ([], s)
read_block (suc n) [] = none
read_block (suc n) (x ∷ s) =
    Option.map (λ ((block, rest) : List ℕ × List ℕ). (x ∷ block, rest)) (read_block n s)

-- memcpy of n bytes of a block into the stream: the bytes written.
unfoldable pub copy_block : ℕ → List ℕ → Option (List ℕ)
copy_block zero block = some []
copy_block (suc n) [] = none
copy_block (suc n) (x ∷ block) = Option.map (λ bytes. x ∷ bytes) (copy_block n block)

unfoldable pub u32s_bytes : List ℕ → List ℕ
u32s_bytes [] = []
u32s_bytes (n ∷ ns) = u32_bytes n ++ u32s_bytes ns

unfoldable pub read_u32s : ℕ → Reader (List ℕ)
read_u32s zero = pure []
read_u32s (suc k) = read_u32 >>= λ n. read_u32s k >>= λ ns. pure (n ∷ ns)

-- `r` reads the value `a` off the front of any stream that begins with `bytes`.
pub record Reads {ℓ} {A : Type ℓ} (r : Reader A) (bytes : List ℕ) (a : A) : Type ℓ where
  pub apply : (s : List ℕ) → r (bytes ++ s) ≡ some (a, s)

pub Reads-pure {ℓ} : {A : Type ℓ} (a : A) → Reads (pure a) [] a
Reads-pure a = record { apply = λ s. refl }

pub Reads-bind {ℓ κ} :
    {A : Type ℓ} {B : Type κ} {m : Reader A} (f : A → Reader B) {bs cs : List ℕ} {a : A} {b : B}
    → Reads m bs a
    → Reads (f a) cs b
    → Reads (m >>= f) (bs ++ cs) b
Reads-bind {m = m} f {bs} {cs} {a} first rest = record {
  apply = λ s. rw (append_assoc, first.apply (cs ++ s), ◌>>=◌) (rest.apply s);
}

-- The last read of a record: nothing follows it.
pub Reads-last {ℓ κ} :
    {A : Type ℓ} {B : Type κ} {m : Reader A} (g : A → B) {bs : List ℕ} {a : A}
    → Reads m bs a
    → Reads (m >>= λ x. pure (g x)) bs (g a)
Reads-last g first = record { apply = λ s. rw (first.apply s, ◌>>=◌) }

pub lift-Reads {ℓ} : {A : Type ℓ} {o : Option A} {a : A} → o ≡ some a → Reads (lift o) [] a
lift-Reads h = record { apply = λ s. rw h }

pub Reads-nil {ℓ} :
    {A : Type ℓ} {r : Reader A} (bytes : List ℕ) {a : A} → Reads r (bytes ++ []) a → Reads r bytes a
Reads-nil {r = r} bytes {a} h = subst (λ bs. Reads r bs a) (append-nil bytes) h

-- Of a whole buffer: the value, with nothing left of the stream.
pub Reads-all {ℓ} :
    {A : Type ℓ} {r : Reader A} {bytes : List ℕ} {a : A} → Reads r bytes a → r bytes ≡ some (a, [])
Reads-all {bytes = bytes} h = rw append-nil at (h.apply [])

pub read_u32-Reads : (n : ℕ) → n < u32_max → Reads read_u32 (u32_bytes n) n
unfolding read_u32 u32_bytes
read_u32-Reads n h = record { apply = λ s. ap (λ (v : ℕ). some (v, s)) (omega arith) }

pub length-u32_bytes : (n : ℕ) → length (u32_bytes n) ≡ 4
unfolding u32_bytes
length-u32_bytes n = refl

read_block_append : (block s : List ℕ) → read_block (length block) (block ++ s) ≡ some (block, s)
unfolding read_block
read_block_append [] s = refl
read_block_append (x ∷ block) s = rw (read_block_append block s)

pub read_block-Reads :
    (n : ℕ) (block : List ℕ) → length block ≡ n → Reads (read_block n) block block
read_block-Reads n block h = record { apply = λ s. rw (← h) (read_block_append block s) }

pub copy_block_self : (block : List ℕ) → copy_block (length block) block ≡ some block
unfolding copy_block
copy_block_self [] = refl
copy_block_self (x ∷ block) = rw (copy_block_self block)

abbrev pub AllBelow : ℕ → List ℕ → Type 0
AllBelow n [] = Unit {0}
AllBelow n (x ∷ xs) = (x < n) × AllBelow n xs

pub read_u32s-Reads :
    (ns : List ℕ) → AllBelow u32_max ns → Reads (read_u32s (length ns)) (u32s_bytes ns) ns
unfolding read_u32s u32s_bytes
read_u32s-Reads [] h = Reads-pure []
read_u32s-Reads (n ∷ ns) h =
    Reads-bind _ (read_u32-Reads n h.0) (Reads-last _ (read_u32s-Reads ns h.1))

pub length-u32s_bytes : (ns : List ℕ) → length (u32s_bytes ns) ≡ 4 * length ns
unfolding u32s_bytes u32_bytes
length-u32s_bytes [] = refl
length-u32s_bytes (n ∷ ns) = omega (arith, length-u32s_bytes ns)
