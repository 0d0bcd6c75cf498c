-- ===== src/Kernel/Recursos/Busqueda.antt =====
-- kernel/src/kernel_sources.c: the search of a resource or an open file by its name.
use tp_2023_1c_kernel_flow.Base.{
  ℕ, ◌<◌, ◌≡◌, ◌⊎◌, inl, inr, refl, Bool, true, Option, none, some, List, [], ◌∷◌, arith,
  occurrences, Bool-cases,
}
use tp_2023_1c_kernel_flow.Kernel.Estado.{Recurso}
use tp_2023_1c_kernel_flow.Kernel.Recursos.{find_named}

-- Each pointer of a list is one that may be followed.
abbrev pub AreAllocated : (ℕ → Option Recurso) → List ℕ → Type 0
AreAllocated heap ps = (p : ℕ) → 0 < occurrences p ps → (r : Recurso) × (heap p ≡ some r)

pub find_named_lem :
    (is_name : List ℕ → Bool) (heap : ℕ → Option Recurso) (ps : List ℕ)
    → AreAllocated heap ps
    → (find_named is_name heap ps ≡ some none)
      ⊎ ((p : ℕ) × (r : Recurso) × (find_named is_name heap ps ≡ some (some p))
          × (heap p ≡ some r)
          × (is_name r.recurso ≡ true))
unfolding find_named
find_named_lem is_name heap [] all = inl refl
find_named_lem is_name heap (p ∷ ps) all =
    let (r, here) = all p (ground arith) in
    elim (Bool-cases (is_name r.recurso)) [
      | inl e ↦ inr (p, r, rw (here, e), here, e)
      | inr e ↦ elim (find_named_lem is_name heap ps (λ q found. all q (ground (arith, found)))) [
        | inl missing ↦ inl (rw (here, e, missing))
        | inr (q, s, found, there, named) ↦ inr (q, s, rw (here, e, found), there, named)
      ]
    ]
