-- ===== src/Filesystem/Acceso/Punteros.antt =====
-- filesystem/src/filesystem_calculate.c: the pointers that are read depend on the bytes of their block
-- only.
use tp_2023_1c_kernel_flow.Base.{
  ℕ, zero, suc, ◌+◌, ◌*◌, ◌<◌, ◌≤◌, ◌≡◌, ◌⊎◌, inl, inr, refl, ◌∙◌, sym, subst, Option, none, some,
  List, [], ◌∷◌, arith, bind, drop, get_elem?, get_elem?-drop,
}
use tp_2023_1c_kernel_flow.Wire.Bytes.{u32, u32_max, read_u32}
use tp_2023_1c_kernel_flow.Filesystem.Calculo.{read_pointers}

four_or_none :
    (xs : List ℕ)
    → ((read_u32 xs ≡ none) × (get_elem? xs 3 ≡ none))
      ⊎ ((a : ℕ) × (b : ℕ) × (c : ℕ) × (d : ℕ) × (rest : List ℕ) × (xs ≡ a ∷ b ∷ c ∷ d ∷ rest))
unfolding read_u32
four_or_none [] = inl (refl, refl)
four_or_none (a ∷ []) = inl (refl, refl)
four_or_none (a ∷ b ∷ []) = inl (refl, refl)
four_or_none (a ∷ b ∷ c ∷ []) = inl (refl, refl)
four_or_none (a ∷ b ∷ c ∷ d ∷ rest) = inr (a, b, c, d, rest, refl)

-- What is made of a number that is read depends on its four bytes only.
read_u32_same :
    {B : Type 0} (f : ℕ → Option B) (xs ys : List ℕ)
    → ((i : ℕ) → i < 4 → get_elem? xs i ≡ get_elem? ys i)
    → bind (read_u32 xs) (λ (p, _). f p) ≡ bind (read_u32 ys) (λ (p, _). f p)
unfolding read_u32
read_u32_same f xs ys h = elim (four_or_none xs) [
  | inl (short, none_x) ↦ elim (four_or_none ys) [
    | inl (short', _) ↦ rw (short, short') refl
    | inr (a, b, c, d, rest, e) ↦
        let there : get_elem? ys 3 ≡ some d = rw e refl in
        absurd (cc (none_x, there, h 3 (omega arith)))
  ]
  | inr (a, b, c, d, rest, e) ↦ elim (four_or_none ys) [
    | inl (_, none_y) ↦
        let there : get_elem? xs 3 ≡ some d = rw e refl in
        absurd (cc (none_y, there, h 3 (omega arith)))
    | inr (a', b', c', d', rest', e') ↦
        let same = λ (i : ℕ) (lt : i < 4).
          subst (λ zs. get_elem? (a ∷ b ∷ c ∷ d ∷ rest) i ≡ get_elem? zs i) e'
            (subst (λ zs. get_elem? zs i ≡ get_elem? ys i) e (h i lt)) in
        let e0 : a ≡ a' = cc (same 0 (omega arith)) in
        let e1 : b ≡ b' = cc (same 1 (omega arith)) in
        let e2 : c ≡ c' = cc (same 2 (omega arith)) in
        let e3 : d ≡ d' = cc (same 3 (omega arith)) in rw (e, e', e0, e1, e2, e3) refl
  ]
]

pub read_pointers_same :
    (n offset : ℕ) (xs ys : List ℕ)
    → offset + 4 * n < u32_max
    → ((j : ℕ) → offset ≤ j → j < offset + 4 * n → get_elem? xs j ≡ get_elem? ys j)
    → read_pointers xs n offset ≡ read_pointers ys n offset
unfolding read_pointers
read_pointers_same zero offset xs ys range h = refl
read_pointers_same (suc n) offset xs ys range h =
    let next : u32 (offset + 4) ≡ offset + 4 = omega (arith, range) in
    rw
      (
        next,
        read_pointers_same n (offset + 4) xs ys (omega (arith, range))
            (λ j low high. h j (omega (arith, low)) (omega (arith, high))),
      )
      (read_u32_same _ (drop offset xs) (drop offset ys) λ i lt.
        get_elem?-drop offset i xs
        ∙ (h (offset + i) (omega arith) (omega (arith, lt)) ∙ sym (get_elem?-drop offset i ys)))
