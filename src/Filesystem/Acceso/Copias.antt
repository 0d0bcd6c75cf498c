-- ===== src/Filesystem/Acceso/Copias.antt =====
-- filesystem/src/filesystem_instructions.c: the copies of `write_file` and `read_file`, over pieces that
-- follow one another in the stream and lie apart in the blocks.
use tp_2023_1c_kernel_flow.Base.{
  ℕ, ◌+◌, ◌-◌, ◌<◌, ◌≤◌, ◌≡◌, ◌⊎◌, inl, inr, refl, ◌∙◌, sym, some, List, [], ◌∷◌, arith, length,
  get_elem?, get_elem?-ge, list_ext,
}
use tp_2023_1c_kernel_flow.Memoria.Datos.Copia.{
  copied, slice, copy_into_lem, length-copied, get-copied_inside, get-copied_outside, length-slice,
  read_slice, get-slice,
}
use tp_2023_1c_kernel_flow.Filesystem.Acceso.{Piece, copy_from_blocks, copy_to_blocks}

-- The pieces fill the stream from `s` to `e`, in order.
abbrev pub Chain : ℕ → ℕ → List Piece → Type 0
Chain s e [] = s ≡ e
Chain s e (p ∷ ps) = (p.stream ≡ s) × Chain (s + p.bytes) e ps

abbrev pub AllInside : ℕ → List Piece → Type 0
AllInside n [] = Unit
AllInside n (p ∷ ps) = (p.bloque + p.bytes ≤ n) × AllInside n ps

-- A piece lies apart from each of a list.
abbrev pub ApartFrom : Piece → List Piece → Type 0
ApartFrom p [] = Unit
ApartFrom p (q ∷ qs) =
    ((p.bloque + p.bytes ≤ q.bloque) ⊎ (q.bloque + q.bytes ≤ p.bloque)) × ApartFrom p qs

abbrev pub Apart : List Piece → Type 0
Apart [] = Unit
Apart (p ∷ ps) = ApartFrom p ps × Apart ps

-- The bytes of each piece are those of the stream.
abbrev pub Holds : List Piece → List ℕ → List ℕ → Type 0
Holds [] stream blocks = Unit
Holds (p ∷ ps) stream blocks =
    ((d : ℕ) → d < p.bytes → get_elem? blocks (p.bloque + d) ≡ get_elem? stream (p.stream + d))
    × Holds ps stream blocks

abbrev pub Outside : ℕ → List Piece → Type 0
Outside j [] = Unit
Outside j (p ∷ ps) = ((j < p.bloque) ⊎ (p.bloque + p.bytes ≤ j)) × Outside j ps

pub Chain-le : (s e : ℕ) (ps : List Piece) → Chain s e ps → s ≤ e
Chain-le s e [] h = omega arith
Chain-le s e (p ∷ ps) h = omega (arith, Chain-le (s + p.bytes) e ps h.1)

apart_outside :
    (p : Piece) (ps : List Piece) (d : ℕ) → d < p.bytes → ApartFrom p ps → Outside (p.bloque + d) ps
apart_outside p [] d below h = tt
apart_outside p (q ∷ qs) d below h = (omega (arith, h.0, below), apart_outside p qs d below h.1)

-- What the write does: the pieces hold the stream, and nothing else changes.
abbrev pub IsWritten : List Piece → List ℕ → List ℕ → List ℕ → Type 0
IsWritten ps stream blocks blocks' =
    (length blocks' ≡ length blocks)
    × Holds ps stream blocks'
    × ((j : ℕ) → Outside j ps → get_elem? blocks' j ≡ get_elem? blocks j)

pub copy_to_blocks_lem :
    (ps : List Piece) (s : ℕ) (stream blocks : List ℕ)
    → Chain s (length stream) ps
    → AllInside (length blocks) ps
    → Apart ps
    → (blocks' : List ℕ) × (copy_to_blocks ps stream blocks ≡ some blocks')
      × IsWritten ps stream blocks blocks'
unfolding copy_to_blocks
copy_to_blocks_lem [] s stream blocks chain within apart = (blocks, refl, (refl, tt, λ j out. refl))
copy_to_blocks_lem (p ∷ ps) s stream blocks chain within apart =
    let (blocks', runs, (sized, holds, same)) =
      copy_to_blocks_lem ps (s + p.bytes) stream next chain.1 (later within.1) apart.1 in
    (
      blocks',
      rw (read_slice p.stream p.bytes stream inner)
          (rw (copy_into_lem p.bloque (slice p.stream p.bytes stream) blocks fits) runs),
      (
        sized ∙ length-copied p.bloque (slice p.stream p.bytes stream) blocks fits,
        (
          λ d below.
              same (p.bloque + d) (apart_outside p ps d below apart.0)
              ∙ (get-copied_inside p.bloque (slice p.stream p.bytes stream) blocks fits d
                    (omega (arith, below, measured))
                  ∙ get-slice p.stream p.bytes stream inner d below),
          holds,
        ),
        λ j out.
            same j out.1
            ∙ get-copied_outside p.bloque (slice p.stream p.bytes stream) blocks fits j
                (omega (arith, out.0, measured)),
      ),
    )
  where
    inner : p.stream + p.bytes ≤ length stream
    inner = omega (arith, chain.0, Chain-le (s + p.bytes) (length stream) ps chain.1)

    measured : length (slice p.stream p.bytes stream) ≡ p.bytes
    measured = length-slice p.stream p.bytes stream inner

    fits : p.bloque + length (slice p.stream p.bytes stream) ≤ length blocks
    fits = omega (arith, measured, within.0)

    next : List ℕ
    next = copied p.bloque (slice p.stream p.bytes stream) blocks

    later : AllInside (length blocks) ps → AllInside (length next) ps
    later h = rw (length-copied p.bloque (slice p.stream p.bytes stream) blocks fits) h

-- What the read does, from `s` on.
abbrev IsRead : ℕ → List ℕ → List ℕ → List ℕ → Type 0
IsRead s stream garbage result =
    (length result ≡ length stream)
    × ((j : ℕ) → s ≤ j → j < length stream → get_elem? result j ≡ get_elem? stream j)
    × ((j : ℕ) → j < s → get_elem? result j ≡ get_elem? garbage j)

copy_from_blocks_lem :
    (ps : List Piece) (s : ℕ) (stream blocks garbage : List ℕ)
    → Chain s (length stream) ps
    → AllInside (length blocks) ps
    → Holds ps stream blocks
    → length garbage ≡ length stream
    → (result : List ℕ) × (copy_from_blocks ps blocks garbage ≡ some result)
      × IsRead s stream garbage result
unfolding copy_from_blocks
copy_from_blocks_lem [] s stream blocks garbage chain within holds sized =
    (garbage, refl, (sized, λ j low high. absurd (omega arith), λ j low. refl))
copy_from_blocks_lem (p ∷ ps) s stream blocks garbage chain within holds sized =
    let (result, runs, (sized', read, kept)) =
      copy_from_blocks_lem ps (s + p.bytes) stream blocks next chain.1 within.1 holds.1
        (length-copied p.stream (slice p.bloque p.bytes blocks) garbage fits ∙ sized) in
    (
      result,
      rw (read_slice p.bloque p.bytes blocks within.0)
          (rw (copy_into_lem p.stream (slice p.bloque p.bytes blocks) garbage fits) runs),
      (
        sized',
        λ j low high. elim (order j (s + p.bytes)) [
          | inr behind ↦ read j behind high
          | inl inside ↦
              let e : p.stream + (j - s) ≡ j = omega (arith, low, chain.0) in
              let below : j - s < p.bytes = omega (arith, low, inside) in
              kept j inside
              ∙ rw (← e) (
                  get-copied_inside p.stream (slice p.bloque p.bytes blocks) garbage fits (j - s)
                    (omega (arith, below, measured))
                  ∙ (get-slice p.bloque p.bytes blocks within.0 (j - s) below
                      ∙ holds.0 (j - s) below))
        ],
        λ j low.
            kept j (omega (arith, low))
            ∙ get-copied_outside p.stream (slice p.bloque p.bytes blocks) garbage fits j
                (inl (omega (arith, low, chain.0))),
      ),
    )
  where
    measured : length (slice p.bloque p.bytes blocks) ≡ p.bytes
    measured = length-slice p.bloque p.bytes blocks within.0

    fits : p.stream + length (slice p.bloque p.bytes blocks) ≤ length garbage
    fits =
        omega (arith, measured, sized, chain.0, Chain-le (s + p.bytes) (length stream) ps chain.1)

    next : List ℕ
    next = copied p.stream (slice p.bloque p.bytes blocks) garbage

    order : (a b : ℕ) → (a < b) ⊎ (b ≤ a)
    order a b = omega arith

-- Pieces that hold a stream are read to that stream.
pub copy_from_blocks_all :
    (ps : List Piece) (stream blocks garbage : List ℕ)
    → Chain 0 (length stream) ps
    → AllInside (length blocks) ps
    → Holds ps stream blocks
    → length garbage ≡ length stream
    → copy_from_blocks ps blocks garbage ≡ some stream
copy_from_blocks_all ps stream blocks garbage chain within holds sized =
    let (result, runs, (sized', read, _)) =
      copy_from_blocks_lem ps 0 stream blocks garbage chain within holds sized in
    let same : result ≡ stream = list_ext result stream λ i. elim (order i (length stream)) [
      | inl below ↦ read i (omega arith) below
      | inr above ↦
          get_elem?-ge result i (omega (arith, sized', above)) ∙ sym (get_elem?-ge stream i above)
    ] in
    rw same at runs
  where
    order : (a b : ℕ) → (a < b) ⊎ (b ≤ a)
    order a b = omega arith
