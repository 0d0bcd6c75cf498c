-- ===== src/Memoria/Compactacion/Ronda.antt =====
-- memoria/src/compactacion.c: the segments that a round can find.
use tp_2023_1c_kernel_flow.Base.{
  ℕ, zero, suc, ◌+◌, ◌<◌, ◌≡◌, ◌≢◌, ◌⊎◌, inl, inr, refl, Bool, true, false, none, some, List, [],
  ◌∷◌, arith, Bool-cases, Option-cases, length, occurrences,
}
use tp_2023_1c_kernel_flow.Wire.Types.{Segment}
use tp_2023_1c_kernel_flow.Memoria.Espacio.{unrecognised}
use tp_2023_1c_kernel_flow.Memoria.Espacio.Ranges.{inside}
use tp_2023_1c_kernel_flow.Memoria.Espacio.Regions.{cover}
use tp_2023_1c_kernel_flow.Memoria.Estado.{Table, Memoria, find_pointer, find_segment}
use tp_2023_1c_kernel_flow.Memoria.Segmentos.Create.{IsMemoria, live_regions}
use tp_2023_1c_kernel_flow.Memoria.Segmentos.Live.{Heap, cover-with_region}
use tp_2023_1c_kernel_flow.Memoria.Borrado.Segmento.{IsLive}

-- How often a pointer stands in the tables.
abbrev pub listed : ℕ → List Table → ℕ
listed p [] = 0
listed p (t ∷ ts) = occurrences p t.segment_list + listed p ts

-- The algorithm is known, the allocated segments are those of the tables, none is empty, and the
-- bytes are as many as the bits.
pub record IsTabled (m : Memoria) : Type 0 where
  pub memoria : IsMemoria m
  pub algorithm_known : m.algorithm ≢ unrecognised
  pub known : (p : ℕ) → 0 < listed p m.all_segments_tables → IsLive m p
  pub all_listed : (p : ℕ) → IsLive m p → 0 < listed p m.all_segments_tables
  pub positive : (p : ℕ) (s : Segment) → m.heap p ≡ some s → 0 < s.size
  pub space : length m.memory_space ≡ m.free_space_table.size

-- An address that is covered lies in an allocated segment.
pub cover_witness :
    (n j : ℕ) (heap : Heap)
    → 0 < cover j (live_regions heap n)
    → (p : ℕ) × (s : Segment) × (p < n)
      × (heap p ≡ some s)
      × (inside s.base_address s.size j ≡ true)
cover_witness zero j heap h = elim h [ ]
cover_witness (suc n) j heap h = elim (Option-cases (heap n)) [
  | inl freed ↦
      let (p, s, low, e, within) = cover_witness n j heap (rw freed at h) in
      (p, s, omega (arith, low), e, within)
  | inr (s, here) ↦ elim (Bool-cases (inside s.base_address s.size j)) [
    | inl within ↦ (n, s, omega arith, here, within)
    | inr without ↦
        let (p, s', low, e, within) =
          cover_witness n j heap (
            ground (arith, h, cover-with_region j (heap n) (live_regions heap n), here, without)) in
        (p, s', omega (arith, low), e, within)
  ]
]

-- What a lookup over the tables finds: where a segment of the tables passes the test, one that does.
abbrev pub IsHit : Heap → (Segment → Bool) → ℕ → Segment → Type 0
IsHit heap test q s = (heap q ≡ some s) × (test s ≡ true)

pub find_pointer_lem :
    (heap : Heap) (test : Segment → Bool) (ps : List ℕ)
    → ((q : ℕ) → 0 < occurrences q ps → (s : Segment) × (heap q ≡ some s))
    → ((q : ℕ) × (s : Segment) × (find_pointer heap test ps ≡ some (some q))
        × (0 < occurrences q ps)
        × IsHit heap test q s)
      ⊎ ((find_pointer heap test ps ≡ some none)
          × ((q : ℕ) (s : Segment) → 0 < occurrences q ps → heap q ≡ some s → test s ≡ false))
unfolding find_pointer
find_pointer_lem heap test [] known = inr (refl, λ q s found e. absurd (omega arith))
find_pointer_lem heap test (p ∷ ps) known =
    let (s, here) = known p (ground arith) in
    elim (Bool-cases (test s)) [
      | inl passed ↦ inl (p, s, rw here (rw passed), ground arith, (here, passed))
      | inr failed ↦
          elim (find_pointer_lem heap test ps (λ q found. known q (ground (arith, found)))) [
            | inl (q, s', e, found, hit) ↦
                inl (q, s', rw here (rw (failed, e)), ground (arith, found), hit)
            | inr (e, no_hit) ↦ inr (
              rw here (rw (failed, e)),
              λ q s' found e'. elim (split p q) [
                | inl same ↦ let there : heap p ≡ some s' = rw same e' in cc
                | inr ne ↦ no_hit q s' (ground (arith, found, ne)) e'
              ],
            )
          ]
    ]
  where
    split : (p q : ℕ) → (p ≡ q) ⊎ (p ≢ q)
    split p q = omega arith

-- Where a segment of the tables passes a test, the lookup finds one that does.
pub find_segment_lem :
    (heap : Heap) (test : Segment → Bool) (ts : List Table) (p : ℕ) (s : Segment)
    → ((q : ℕ) → 0 < listed q ts → (s' : Segment) × (heap q ≡ some s'))
    → 0 < listed p ts
    → IsHit heap test p s
    → (pid : ℕ) × (q : ℕ) × (s' : Segment) × (find_segment heap test ts ≡ some (some (pid, q)))
      × (0 < listed q ts)
      × IsHit heap test q s'
unfolding find_segment
find_segment_lem heap test [] p s known found hit = elim found [ ]
find_segment_lem heap test (t ∷ ts) p s known found hit =
    elim (find_pointer_lem heap test t.segment_list (λ q here. known q (omega (arith, here)))) [
      | inl (q, s', e, here, hit') ↦ (t.pid, q, s', rw e refl, omega (arith, here), hit')
      | inr (e, no_hit) ↦
          let later : 0 < listed p ts = ground (arith, found, absent no_hit) in
          let (pid, q, s', e', there, hit') =
            find_segment_lem heap test ts p s (λ q there. known q (omega (arith, there))) later
              hit in
          (pid, q, s', rw e e', omega (arith, there), hit')
    ]
  where
    absent :
        ((q : ℕ) (s' : Segment)
          → 0 < occurrences q t.segment_list
          → heap q ≡ some s'
          → test s' ≡ false)
        → occurrences p t.segment_list ≡ 0
    absent no_hit = elim (split (occurrences p t.segment_list)) [
      | inl none_there ↦ none_there
      | inr some_there ↦
          let (here, passed) = hit in
          let failed = no_hit p s some_there here in absurd (cc (failed, passed))
    ]
      where
        split : (n : ℕ) → (n ≡ 0) ⊎ (0 < n)
        split n = omega arith
