-- ===== src/Filesystem/Acceso/Directo.antt =====
-- filesystem/src/filesystem_instructions.c: the count of blocks, and all pieces of an access that
-- starts in the direct block.
use native.Mathlib.Nat.{mod-lt, div-add-mod', div-eq_of_lt}
use tp_2023_1c_kernel_flow.Base.{
  ℕ, zero, suc, ◌+◌, ◌-◌, ◌*◌, ◌/◌, ◌%◌, ◌<◌, ◌≤◌, ◌≡◌, ◌⊎◌, inl, inr, refl, subst, false, Option,
  some, List, [], ◌∷◌, arith, ltb, ◌==◌, length, get_elem?, Bool-cases,
}
use tp_2023_1c_kernel_flow.Wire.Bytes.{u32, u32_max}
use tp_2023_1c_kernel_flow.Filesystem.Estado.{Fcb}
use tp_2023_1c_kernel_flow.Filesystem.Acceso.{
  Piece, piece, puntero_at, cantidad_de_bloques, pieces_from_direct, pieces,
}
use tp_2023_1c_kernel_flow.Filesystem.Acceso.Copias.{Chain}
use tp_2023_1c_kernel_flow.Filesystem.Acceso.Cobertura.{
  span, span-eq-mul, Distinct, AllFit, IsCovered, block_apart, behind_lem, sub_lem,
}

-- The blocks that are counted are those that the bytes lie in, if the access starts at the start of
-- its block or its last block is not whole.
abbrev IsCounted : ℕ → ℕ → ℕ → ℕ → Type 0
IsCounted size offset cant k = (span k size < offset + cant) × (offset + cant ≤ size + span k size)

IsCounted-whole :
    (size offset w : ℕ)
    → offset < size
    → 0 < w * size
    → offset ≡ 0
    → (k : ℕ) × (w ≡ suc k) × IsCounted size offset (w * size) k
IsCounted-whole size offset zero lt positive start = absurd (grind arith)
IsCounted-whole size offset (suc k) lt positive start =
    let e : suc k * size ≡ size + k * size = grind arith in
    (k, refl, (omega (arith, e, span-eq-mul k size), omega (arith, e, span-eq-mul k size)))

pub cantidad_lem :
    (size offset cant : ℕ)
    → offset < size
    → 0 < cant
    → (offset ≡ 0) ⊎ (0 < cant % size)
    → (k : ℕ) × (cantidad_de_bloques size offset cant ≡ suc k) × IsCounted size offset cant k
unfolding cantidad_de_bloques
cantidad_lem size offset cant lt positive regular = elim (Bool-cases (ltb 0 (cant % size))) [
  | inr whole ↦
      let none_left : cant % size ≡ 0 = ground (arith, whole) in
      let all : cant / size * size ≡ cant = omega (arith, parts, none_left) in
      let (k, e, counted) =
        IsCounted-whole size offset (cant / size) lt (omega (arith, all, positive))
          (omega (arith, regular, none_left)) in
      (
        k,
        ground (arith, e, all, whole),
        (omega (arith, counted.0, all), omega (arith, counted.1, all)),
      )
  | inl more ↦ elim (Bool-cases (ltb (size - offset) (cant % size))) [
    | inl over ↦ (
      suc (cant / size),
      rw (rest, over, more) (omega arith),
      (ground (arith, parts, over, spans), ground (arith, parts, small, spans)),
    )
    | inr under ↦ (
      cant / size,
      rw (rest, under, more) (omega arith),
      (ground (arith, parts, more, spans), ground (arith, parts, under, spans)),
    )
  ]
]
  where
    small : cant % size < size
    small = mod-lt cant (omega (arith, lt))

    parts : cant / size * size + cant % size ≡ cant
    parts = div-add-mod' cant size

    rest : cant - cant / size * size ≡ cant % size
    rest = omega (arith, parts)

    spans : span (cant / size) size ≡ cant / size * size
    spans = span-eq-mul (cant / size) size

module _ (size n : ℕ) (fcb : Fcb) (punteros : Option (List ℕ)) (positive : 0 < size)
    (small : n < u32_max) where
  address :
      fcb.puntero_directo * size + size ≤ n
      → u32 (fcb.puntero_directo * size) ≡ fcb.puntero_directo * size
  address fits = omega (arith, fits, small, positive)

  -- The piece in the direct block, before those of the pointers.
  direct-IsCovered :
      (offset bytes cant : ℕ) (qs : List ℕ) (ps : List Piece)
      → offset + bytes ≤ size
      → bytes ≤ cant
      → Distinct (fcb.puntero_directo ∷ qs)
      → AllFit size n (fcb.puntero_directo ∷ qs)
      → IsCovered size n bytes (bytes + (cant - bytes)) qs ps
      → IsCovered size n 0 cant
          (fcb.puntero_directo ∷ qs)
          (piece (fcb.puntero_directo * size + offset) 0 bytes ∷ ps)
  direct-IsCovered offset bytes cant qs ps fits le distinct inside (chain, within, apart, away) = (
    (
      refl,
      subst (λ e. Chain (0 + bytes) e ps) total
          (subst (λ s. Chain s (bytes + (cant - bytes)) ps) start chain),
    ),
    (omega (arith, inside.0, fits), within),
    (
      away (piece (fcb.puntero_directo * size + offset) 0 bytes)
          (block_apart size fcb.puntero_directo offset bytes 0 qs fits distinct.0),
      apart,
    ),
    λ x clear. (omega (arith, clear.0, fits), away x clear.1),
  )
    where
      total : bytes + (cant - bytes) ≡ cant
      total = omega (arith, le)

      start : bytes ≡ 0 + bytes
      start = omega arith

  from_direct_lem :
      (offset cant : ℕ) (qs : List ℕ)
      → offset < size
      → 0 < cant
      → cant < u32_max
      → IsCounted size offset cant (length qs)
      → ((k : ℕ) → k < length qs → puntero_at punteros k ≡ get_elem? qs k)
      → Distinct (fcb.puntero_directo ∷ qs)
      → AllFit size n (fcb.puntero_directo ∷ qs)
      → (ps : List Piece) × (pieces_from_direct size fcb punteros (suc (length qs)) offset cant
          ≡ some ps)
        × IsCovered size n 0 cant (fcb.puntero_directo ∷ qs) ps
  unfolding pieces_from_direct
  from_direct_lem offset cant [] lt some_bytes range counted known distinct fits = (
    piece (fcb.puntero_directo * size + offset) 0 cant ∷ [],
    rw (address fits.0) refl,
    direct-IsCovered offset cant cant [] [] (omega (arith, counted.1)) (omega arith) distinct fits
        (omega arith, tt, tt, λ x h. tt),
  )
  from_direct_lem offset cant (q ∷ qs) lt some_bytes range counted known distinct fits =
      let room = size - offset in
      let enough : room ≤ cant = omega (arith, counted.0) in
      let (ps, e, covered) =
        behind_lem size n punteros positive small (q ∷ qs) 0 (cant - room) room known' distinct.1
          fits.1 (omega (arith, counted.1)) (omega (arith, counted.0, lt)) (omega (arith, range)) in
      (
        piece (fcb.puntero_directo * size + offset) 0 room ∷ ps,
        rw
            (
              address fits.0,
              several,
              sub_lem size n punteros positive small cant room enough range,
              one_less,
            )
            (rw e refl),
        direct-IsCovered offset room cant (q ∷ qs) ps (omega (arith, lt)) enough distinct fits
            covered,
      )
    where
      several : (suc (suc (length qs)) == 1) ≡ false
      several = ground arith

      one_less : suc (suc (length qs)) - 1 ≡ suc (length qs)
      one_less = omega arith

      known' : (k : ℕ) → k < suc (length qs) → puntero_at punteros (0 + k) ≡ get_elem? (q ∷ qs) k
      known' k below = let e : 0 + k ≡ k = omega arith in rw e (known k below)

  pub pieces_lem :
      (offset cant : ℕ) (qs : List ℕ)
      → offset < size
      → 0 < cant
      → cant < u32_max
      → (offset ≡ 0) ⊎ (0 < cant % size)
      → cantidad_de_bloques size offset cant ≡ suc (length qs)
      → ((k : ℕ) → k < length qs → puntero_at punteros k ≡ get_elem? qs k)
      → Distinct (fcb.puntero_directo ∷ qs)
      → AllFit size n (fcb.puntero_directo ∷ qs)
      → (ps : List Piece) × (pieces size fcb punteros offset cant ≡ some ps)
        × IsCovered size n 0 cant (fcb.puntero_directo ∷ qs) ps
  unfolding pieces
  pieces_lem offset cant qs lt some_bytes range regular count known distinct fits =
      let (k, e, counted) = cantidad_lem size offset cant lt some_bytes regular in
      let same : k ≡ length qs = omega (arith, e, count) in
      let (ps, runs, covered) =
        from_direct_lem offset cant qs lt some_bytes range
          (subst (IsCounted size offset cant) same counted) known distinct fits in
      (ps, rw (block, here, count) runs, covered)
    where
      block : offset / size ≡ 0
      block = div-eq_of_lt lt

      here : offset - 0 * size ≡ offset
      here = omega arith
