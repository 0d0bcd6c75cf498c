-- ===== src/Memoria/Algoritmos/Fit.antt =====
-- memoria/src/algoritmos.c: the loop that `BEST_FIT` and `WORST_FIT` share, over any preference.
use tp_2023_1c_kernel_flow.Base.{
  ℕ, zero, suc, ◌+◌, ◌-◌, ◌<◌, ◌≤◌, ◌≡◌, ◌⊎◌, inl, inr, refl, Bool, true, false, arith, Bool-cases,
  subst, sym, leb, ◌==◌, ◌&&◌, ◌||◌, leb→le, not-leb→lt,
}
use tp_2023_1c_kernel_flow.Memoria.Bitarray.{Bitarray, bitarray_get}
use tp_2023_1c_kernel_flow.Memoria.Algoritmos.{minus_one, get_free_space, fit_from}
use tp_2023_1c_kernel_flow.Memoria.Algoritmos.Runs.{free_space_le}
use tp_2023_1c_kernel_flow.Memoria.Algoritmos.Starts.{
  IsStart, locate, Boundary, Boundary-used, Boundary-past,
}

module _ (t : Bitarray) (need : ℕ) (small : t.size < minus_one) (Le : ℕ → ℕ → Type 0)
    (better : ℕ → ℕ → Bool) (better→Le : (a b : ℕ) → better a b ≡ true → Le a b)
    (not-better→Le : (a b : ℕ) → better a b ≡ false → Le b a)
    (Le-trans : (a b c : ℕ) → Le a b → Le b c → Le a c) (Le-refl : (a : ℕ) → Le a a) where
  -- What the loop knows in front of index `i`: no hole behind it has room, or the chosen one is the
  -- best of those that do.
  abbrev pub Chosen : ℕ → ℕ → ℕ → Type 0
  Chosen i size base =
      ((size ≡ minus_one)
        × (base ≡ minus_one)
        × ((k : ℕ) → k < i → IsStart t k → get_free_space t k < need))
      ⊎ (IsStart t base
          × (size ≡ get_free_space t base)
          × (need ≤ size)
          × ((k : ℕ)
              → k < i
              → IsStart t k
              → need ≤ get_free_space t k
              → Le size (get_free_space t k)))

  choose :
      (i size base : ℕ)
      → Chosen i size base
      → IsStart t i
      → leb need (get_free_space t i) ≡ true
      → (size == minus_one || better (get_free_space t i) size) ≡ true
      → Chosen (i + (get_free_space t i - 1) + 1) (get_free_space t i) i
  choose i size base c start room best = inr (
    start,
    refl,
    leb→le _ _ room,
    λ k low other fits. elim (locate t i k start low other) [
      | inl before ↦ old c k before other fits
      | inr same ↦ subst (λ j. Le (get_free_space t i) (get_free_space t j)) same (Le-refl _)
    ],
  )
    where
      improves : size ≤ t.size → better (get_free_space t i) size ≡ true
      improves le = ground arith

      old :
          Chosen i size base
          → (k : ℕ) → k < i
          → IsStart t k
          → need ≤ get_free_space t k
          → Le (get_free_space t i) (get_free_space t k)
      old (inl (_, _, none_left)) k before other fits =
          absurd (omega (arith, none_left k before other))
      old (inr (_, sized, _, least)) k before other fits =
          Le-trans _ size _ (better→Le _ _ (improves (omega (arith, free_space_le t base))))
            (least k before other fits)

  keep :
      (i size base : ℕ)
      → Chosen i size base
      → IsStart t i
      → (leb need (get_free_space t i) && (size == minus_one || better (get_free_space t i) size))
        ≡ false
      → Chosen (i + (get_free_space t i - 1) + 1) size base
  keep i size base (inl (no_size, no_base, none_left)) start worse = inl (
    no_size,
    no_base,
    λ k low other. elim (locate t i k start low other) [
      | inl before ↦ none_left k before other
      | inr same ↦ subst (λ j. get_free_space t j < need) same short
    ],
  )
    where
      short : get_free_space t i < need
      short = ground arith
  keep i size base (inr (start', sized, enough, least)) start worse = inr (
    start',
    sized,
    enough,
    λ k low other fits. elim (locate t i k start low other) [
      | inl before ↦ least k before other fits
      | inr same ↦
          subst (λ j. Le size (get_free_space t j)) same
            (not-better→Le _ _ (no_better (subst (λ j. need ≤ get_free_space t j) (sym same) fits)))
    ],
  )
    where
      no_better : need ≤ get_free_space t i → better (get_free_space t i) size ≡ false
      no_better fits = ground arith

  advance :
      (i size base : ℕ) → Chosen i size base → bitarray_get t i ≡ true → Chosen (i + 1) size base
  advance i size base c used = go c
    where
      split : (k : ℕ) → k < i + 1 → (k < i) ⊎ (i ≡ k)
      split k low = omega arith

      behind : (k : ℕ) → k < i + 1 → IsStart t k → k < i
      behind k low other = elim (split k low) [
        | inl before ↦ before
        | inr same ↦
            let still = subst (λ j. bitarray_get t j ≡ true) same used in
            let free = other.1 in ground arith
      ]

      go : Chosen i size base → Chosen (i + 1) size base
      go (inl (no_size, no_base, none_left)) =
          inl (no_size, no_base, λ k low other. none_left k (behind k low other) other)
      go (inr (start, sized, enough, least)) =
          inr (start, sized, enough, λ k low other fits. least k (behind k low other) other fits)

  abbrev pub Ends : ℕ → Type 0
  Ends r = (size : ℕ) × Chosen t.size size r

  Chosen-end : (i size base : ℕ) → t.size ≤ i → Chosen i size base → Ends base
  Chosen-end i size base out (inl (no_size, no_base, none_left)) =
      (size, inl (no_size, no_base, λ k low. none_left k (omega arith)))
  Chosen-end i size base out (inr (start, sized, enough, least)) =
      (size, inr (start, sized, enough, λ k low. least k (omega arith)))

  fit_round :
      (fuel i size base : ℕ)
      → i < t.size
      → Chosen i size base
      → Boundary t i
      → ((j s b : ℕ)
          → i < j
          → Chosen j s b
          → Boundary t j
          → Ends (fit_from better fuel t need j s b))
      → Ends (fit_from better (suc fuel) t need i size base)
  unfolding fit_from
  fit_round fuel i size base lt c bound later = elim (Bool-cases (bitarray_get t i)) [
    | inl used ↦
        rw (inside, used)
          (later (i + 1) size base (omega arith) (advance i size base c used)
            (Boundary-used t i used))
    | inr free ↦ elim (Bool-cases (leb need run && (size == minus_one || better run size))) [
      | inl taken ↦
          rw (inside, free, taken)
            (later past run i (omega arith)
              (choose i size base c (bound lt free) (both taken).0 (both taken).1)
              (Boundary-past t i (bound lt free)))
      | inr worse ↦
          rw (inside, free, worse)
            (later past size base (omega arith) (keep i size base c (bound lt free) worse)
              (Boundary-past t i (bound lt free)))
    ]
  ]
    where
      run : ℕ
      run = get_free_space t i

      past : ℕ
      past = i + (run - 1) + 1

      inside : leb t.size i ≡ false
      inside = ground arith

      both :
          (leb need run && (size == minus_one || better run size)) ≡ true
          → (leb need run ≡ true) × ((size == minus_one || better run size) ≡ true)
      both h = ground arith

  fit_from_lem :
      (fuel i size base : ℕ)
      → t.size < fuel + i
      → Chosen i size base
      → Boundary t i
      → Ends (fit_from better fuel t need i size base)
  unfolding fit_from
  fit_from_lem zero i size base h c bound = Chosen-end i size base (omega arith) c
  fit_from_lem (suc fuel) i size base h c bound = elim (Bool-cases (leb t.size i)) [
    | inl out ↦ rw out (Chosen-end i size base (leb→le _ _ out) c)
    | inr inside ↦
        fit_round fuel i size base (not-leb→lt _ _ inside) c bound
          (λ j s b low. fit_from_lem fuel j s b (omega arith))
  ]

  -- From the start of the table, with nothing chosen.
  pub fit_lem : Ends (fit_from better (suc t.size) t need 0 minus_one minus_one)
  fit_lem =
      fit_from_lem (suc t.size) 0 minus_one minus_one (omega arith)
        (inl (refl, refl, λ k low. absurd (omega arith)))
        (λ lt free. (lt, free, λ j e. absurd (omega arith)))
