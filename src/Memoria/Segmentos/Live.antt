-- ===== src/Memoria/Segmentos/Live.antt =====
-- memoria/src/segmentos.c: the regions of the segments that are allocated, when one of them is freed
-- or changed.
use tp_2023_1c_kernel_flow.Base.{
  ℕ, zero, suc, ◌+◌, ◌<◌, ◌≤◌, ◌≡◌, ◌≢◌, ◌⊎◌, inl, inr, refl, sym, subst, fun_ext, Option, none,
  some, List, ◌∷◌, false, arith, ◌==◌, if◌then◌else◌,
}
use tp_2023_1c_kernel_flow.Wire.Types.{Segment}
use tp_2023_1c_kernel_flow.Memoria.Bitarray.{Bitarray}
use tp_2023_1c_kernel_flow.Memoria.Espacio.Ranges.{inside}
use tp_2023_1c_kernel_flow.Memoria.Espacio.Regions.{Region, IsExact, AllInBounds, cover}
use tp_2023_1c_kernel_flow.Memoria.Estado.{store}
use tp_2023_1c_kernel_flow.Memoria.Segmentos.Create.{with_region, live_regions}

abbrev pub Heap : Type 0
Heap = ℕ → Option Segment

pub get-store :
    (p q : ℕ) (s : Option Segment) (heap : Heap) → store p s heap q ≡ (if q == p then s else heap q)
unfolding store
get-store p q s heap = refl

pub store-store :
    (p : ℕ) (s s' : Option Segment) (heap : Heap) → store p s (store p s' heap) ≡ store p s heap
unfolding store
store-store p s s' heap = fun_ext (λ q. ground arith)

-- What an option of a segment adds to the cover of an address.
abbrev pub held : ℕ → Option Segment → ℕ
held j none = 0
held j (some s) = if inside s.base_address s.size j then 1 else 0

pub cover-with_region :
    (j : ℕ) (o : Option Segment) (rs : List Region)
    → cover j (with_region o rs) ≡ held j o + cover j rs
cover-with_region j none rs = omega arith
cover-with_region j (some s) rs = refl

same_below :
    (n p : ℕ) (heap : Heap) → n ≤ p → live_regions (store p none heap) n ≡ live_regions heap n
same_below zero p heap le = refl
same_below (suc n) p heap le =
    let other : (n == p) ≡ false = ground arith in
    rw (get-store p n none heap, other, same_below n p heap (omega arith))

-- The cover of an address is what one segment adds and the rest.
pub cover-live_regions :
    (n p j : ℕ) (heap : Heap)
    → p < n
    → cover j (live_regions heap n) ≡ held j (heap p) + cover j (live_regions (store p none heap) n)
cover-live_regions zero p j heap lt = elim lt [ ]
cover-live_regions (suc n) p j heap lt = elim (split n p) [
  | inl e ↦
      rw
        (
          cover-with_region j (heap n) (live_regions heap n),
          cover-with_region j (store p none heap n) (live_regions (store p none heap) n),
          get-store p n none heap,
        )
        (rw (same_below n p heap (omega arith)) (ground arith))
  | inr ne ↦
      rw
        (
          cover-with_region j (heap n) (live_regions heap n),
          cover-with_region j (store p none heap n) (live_regions (store p none heap) n),
          get-store p n none heap,
        )
        (ground (arith, cover-live_regions n p j heap (omega (arith, ne))))
]
  where
    split : (n p : ℕ) → (n ≡ p) ⊎ (n ≢ p)
    split n p = omega arith

abbrev Fits : ℕ → Option Segment → Type 0
Fits size none = Unit
Fits size (some s) = s.base_address + s.size ≤ size

bounds_split :
    (size : ℕ) (o : Option Segment) (rs : List Region)
    → AllInBounds size (with_region o rs)
    → Fits size o × AllInBounds size rs
bounds_split size none rs h = (tt, h)
bounds_split size (some s) rs h = h

bounds_join :
    (size : ℕ) (o : Option Segment) (rs : List Region)
    → Fits size o
    → AllInBounds size rs
    → AllInBounds size (with_region o rs)
bounds_join size none rs f h = h
bounds_join size (some s) rs f h = (f, h)

bounds_out :
    (size n p : ℕ) (heap : Heap)
    → p < n
    → AllInBounds size (live_regions heap n)
    → Fits size (heap p) × AllInBounds size (live_regions (store p none heap) n)
bounds_out size zero p heap lt h = elim lt [ ]
bounds_out size (suc n) p heap lt h =
    let (here, rest) = bounds_split size (heap n) (live_regions heap n) h in
    elim (split n p) [
      | inl e ↦
          let freed : store p none heap n ≡ none = ground (arith, get-store p n none heap) in
          (
            subst (λ q. Fits size (heap q)) e here,
            rw (freed, same_below n p heap (omega arith)) rest,
          )
      | inr ne ↦
          let kept : store p none heap n ≡ heap n = ground (arith, get-store p n none heap) in
          let (there, others) = bounds_out size n p heap (omega (arith, ne)) rest in
          (there, rw kept (bounds_join size (heap n) _ here others))
    ]
  where
    split : (n p : ℕ) → (n ≡ p) ⊎ (n ≢ p)
    split n p = omega arith

bounds_back :
    (size n p : ℕ) (heap : Heap)
    → Fits size (heap p)
    → AllInBounds size (live_regions (store p none heap) n)
    → AllInBounds size (live_regions heap n)
bounds_back size zero p heap f h = tt
bounds_back size (suc n) p heap f h =
    let (here, rest) = bounds_split size (store p none heap n) _ h in
    let others = bounds_back size n p heap f rest in
    elim (split n p) [
      | inl e ↦ bounds_join size (heap n) _ (subst (λ q. Fits size (heap q)) (sym e) f) others
      | inr ne ↦
          let kept : store p none heap n ≡ heap n = ground (arith, get-store p n none heap) in
          bounds_join size (heap n) _ (subst (Fits size) kept here) others
    ]
  where
    split : (n p : ℕ) → (n ≡ p) ⊎ (n ≢ p)
    split n p = omega arith

module _ (t : Bitarray) (n p : ℕ) (heap : Heap) (s : Segment) (below : p < n)
    (there : heap p ≡ some s) where
  -- One allocated segment, apart from the others.
  pub take_out-IsExact :
      IsExact t (live_regions heap n)
      → IsExact t ((s.base_address, s.size) ∷ live_regions (store p none heap) n)
  take_out-IsExact e = record {
    packed = e.packed;
    addressable = e.addressable;
    in_bounds =
        let (here, others) = bounds_out t.size n p heap below e.in_bounds in
        (rw there at here, others);
    exact = λ j inside_t. ground (arith, e.exact j inside_t, cover-live_regions n p j heap below);
  }

  pub put_back-IsExact :
      IsExact t ((s.base_address, s.size) ∷ live_regions (store p none heap) n)
      → IsExact t (live_regions heap n)
  put_back-IsExact e = record {
    packed = e.packed;
    addressable = e.addressable;
    in_bounds = bounds_back t.size n p heap (rw there e.in_bounds.0) e.in_bounds.1;
    exact = λ j inside_t. ground (arith, e.exact j inside_t, cover-live_regions n p j heap below);
  }
