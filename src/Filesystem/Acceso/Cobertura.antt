-- ===== src/Filesystem/Acceso/Cobertura.antt =====
-- filesystem/src/filesystem_instructions.c: the pieces of an access that starts in the direct block.
use tp_2023_1c_kernel_flow.Base.{
  ℕ, zero, suc, ◌+◌, ◌-◌, ◌*◌, ◌<◌, ◌≤◌, ◌≡◌, ◌≢◌, ◌⊎◌, inl, inr, refl, subst, true, false, Option,
  some, List, [], ◌∷◌, arith, ltb, length, get_elem?, Bool-cases, ltb→lt,
}
use tp_2023_1c_kernel_flow.Wire.Bytes.{u32, u32_max}
use tp_2023_1c_kernel_flow.Filesystem.Acceso.{
  Piece, piece, sub_u32, puntero_at, pieces_behind_direct,
}
use tp_2023_1c_kernel_flow.Filesystem.Acceso.Copias.{Chain, AllInside, ApartFrom, Apart}

-- The bytes of so many blocks.
abbrev pub span : ℕ → ℕ → ℕ
span zero size = 0
span (suc n) size = size + span n size

pub span-eq-mul : (n size : ℕ) → span n size ≡ n * size
span-eq-mul zero size = grind arith
span-eq-mul (suc n) size = grind (arith, span-eq-mul n size)

abbrev pub AllNe : ℕ → List ℕ → Type 0
AllNe p [] = Unit
AllNe p (q ∷ qs) = (p ≢ q) × AllNe p qs

abbrev pub Distinct : List ℕ → Type 0
Distinct [] = Unit
Distinct (q ∷ qs) = AllNe q qs × Distinct qs

-- The blocks lie in the file of blocks.
abbrev pub AllFit : ℕ → ℕ → List ℕ → Type 0
AllFit size n [] = Unit
AllFit size n (q ∷ qs) = (q * size + size ≤ n) × AllFit size n qs

-- A piece lies apart from each block of a list.
abbrev pub ApartBlocks : ℕ → Piece → List ℕ → Type 0
ApartBlocks size x [] = Unit
ApartBlocks size x (q ∷ qs) =
    ((x.bloque + x.bytes ≤ q * size) ⊎ (q * size + size ≤ x.bloque)) × ApartBlocks size x qs

next_block : (p q size : ℕ) → p < q → p * size + size ≤ q * size
next_block p q size lt =
    let d = q - p - 1 in let e : q ≡ p + 1 + d = omega arith in rw e (grind arith)

-- A piece of one block lies apart from every other block.
pub block_apart :
    (size p offset bytes stream : ℕ) (qs : List ℕ)
    → offset + bytes ≤ size
    → AllNe p qs
    → ApartBlocks size (piece (p * size + offset) stream bytes) qs
block_apart size p offset bytes stream [] fits ne = tt
block_apart size p offset bytes stream (q ∷ qs) fits ne = (
  elim (order p q) [
    | inl lt ↦ inl (omega (arith, next_block p q size lt, fits))
    | inr (inl gt) ↦ inr (omega (arith, next_block q p size gt))
    | inr (inr e) ↦ absurd (ne.0 e)
  ],
  block_apart size p offset bytes stream qs fits ne.1,
)
  where
    order : (a b : ℕ) → (a < b) ⊎ ((b < a) ⊎ (a ≡ b))
    order a b = omega arith

-- Pieces that fill the stream, one in each block of a list.
abbrev pub IsCovered : ℕ → ℕ → ℕ → ℕ → List ℕ → List Piece → Type 0
IsCovered size n s e qs ps =
    Chain s e ps
    × AllInside n ps
    × Apart ps
    × ((x : Piece) → ApartBlocks size x qs → ApartFrom x ps)

module _ (size n : ℕ) (punteros : Option (List ℕ)) (positive : 0 < size) (small : n < u32_max) where
  whole_lem :
      (q hechos restan : ℕ) (qs : List ℕ) (ps : List Piece)
      → q * size + size ≤ n
      → AllNe q qs
      → size < restan
      → IsCovered size n (hechos + size) (hechos + size + (restan - size)) qs ps
      → IsCovered size n hechos (hechos + restan) (q ∷ qs) (piece (q * size) hechos size ∷ ps)
  whole_lem q hechos restan qs ps fits ne more (chain, within, apart, away) = (
    (refl, subst (λ e. Chain (hechos + size) e ps) total chain),
    (fits, within),
    (
      away (piece (q * size) hechos size) (
          subst (λ b. ApartBlocks size (piece b hechos size) qs) here
            (block_apart size q 0 size hechos qs (omega arith) ne)),
      apart,
    ),
    λ x clear. (clear.0, away x clear.1),
  )
    where
      total : hechos + size + (restan - size) ≡ hechos + restan
      total = omega (arith, more)

      here : q * size + 0 ≡ q * size
      here = omega arith

  step_whole :
      (rounds i restan hechos q left : ℕ) (ps : List Piece)
      → puntero_at punteros i ≡ some q
      → ltb size restan ≡ true
      → u32 (q * size) ≡ q * size
      → sub_u32 restan size ≡ left
      → pieces_behind_direct size punteros rounds (i + 1) left (hechos + size) ≡ some ps
      → pieces_behind_direct size punteros (suc rounds) i restan hechos
        ≡ some (piece (q * size) hechos size ∷ ps)
  unfolding pieces_behind_direct
  step_whole rounds i restan hechos q left ps here more address less e =
      rw (here, more, less, address) (rw e refl)

  pub sub_lem : (a b : ℕ) → b ≤ a → a < u32_max → sub_u32 a b ≡ a - b
  unfolding sub_u32
  sub_lem a b le range = omega arith

  pub behind_lem :
      (qs : List ℕ) (i restan hechos : ℕ)
      → ((k : ℕ) → k < length qs → puntero_at punteros (i + k) ≡ get_elem? qs k)
      → Distinct qs
      → AllFit size n qs
      → restan ≤ span (length qs) size
      → span (length qs) size < restan + size
      → restan < u32_max
      → (ps : List Piece) × (pieces_behind_direct size punteros (length qs) i restan hechos
          ≡ some ps)
        × IsCovered size n hechos (hechos + restan) qs ps
  unfolding pieces_behind_direct
  behind_lem [] i restan hechos known distinct fits le lt range =
      ([], refl, (omega arith, tt, tt, λ x h. tt))
  behind_lem (q ∷ qs) i restan hechos known distinct fits le lt range =
      elim (Bool-cases (ltb size restan)) [
        | inl more ↦
            let big = ltb→lt size restan more in
            let (ps, e, covered) =
              behind_lem qs (i + 1) (restan - size) (hechos + size) later distinct.1 fits.1
                (omega (arith, le, big)) (omega (arith, lt, big)) (omega (arith, range)) in
            (
              piece (q * size) hechos size ∷ ps,
              step_whole (length qs) i restan hechos q (restan - size) ps here more address
                  (sub_lem restan size (omega (arith, big)) range) e,
              whole_lem q hechos restan qs ps fits.0 distinct.0 big covered,
            )
        | inr last ↦ last_one qs le lt last
      ]
    where
      here : puntero_at punteros i ≡ some q
      here = let e : i + 0 ≡ i = omega arith in rw e at (known 0 (omega arith))

      later : (k : ℕ) → k < length qs → puntero_at punteros (i + 1 + k) ≡ get_elem? qs k
      later k below =
          let e : i + suc k ≡ i + 1 + k = omega arith in
          rw e at (known (suc k) (omega (arith, below)))

      address : u32 (q * size) ≡ q * size
      address = omega (arith, fits.0, small, positive)

      last_one :
          (rs : List ℕ)
          → restan ≤ size + span (length rs) size
          → size + span (length rs) size < restan + size
          → ltb size restan ≡ false
          → (ps : List Piece) × (pieces_behind_direct size punteros
                (suc (length rs))
                i
                restan
                hechos
              ≡ some ps)
            × IsCovered size n hechos (hechos + restan) (q ∷ rs) ps
      last_one [] le' lt' last = (
        piece (q * size) hechos restan ∷ [],
        rw (here, last, address) refl,
        (
          (refl, refl),
          (ground (arith, fits.0, last), tt),
          (tt, tt),
          λ x clear. (ground (arith, clear.0, last), tt),
        ),
      )
      last_one (r ∷ rs) le' lt' last = absurd (ground (arith, last, lt'))
