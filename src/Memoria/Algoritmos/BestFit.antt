-- ===== src/Memoria/Algoritmos/BestFit.antt =====
-- memoria/src/algoritmos.c: `BEST_FIT` answers the smallest hole with room, `WORST_FIT` the largest,
-- among the whole holes of the table, or -1 where no hole has room.
use tp_2023_1c_kernel_flow.Base.{ℕ, ◌<◌, ◌≤◌, ◌≡◌, ◌⊎◌, inl, inr, arith, subst, ltb}
use tp_2023_1c_kernel_flow.Memoria.Bitarray.{Bitarray}
use tp_2023_1c_kernel_flow.Memoria.Algoritmos.{minus_one, get_free_space, best_fit, worst_fit}
use tp_2023_1c_kernel_flow.Memoria.Algoritmos.Runs.{IsHole, free_space_iff}
use tp_2023_1c_kernel_flow.Memoria.Algoritmos.Starts.{IsStart}
use tp_2023_1c_kernel_flow.Memoria.Algoritmos.Fit.{fit_lem}

-- `r` begins a whole hole with room for `need` bytes, and `Le` prefers it to any other such hole; or
-- `r` is -1 and no whole hole has room.
abbrev pub IsOptimum : (ℕ → ℕ → Type 0) → Bitarray → ℕ → ℕ → Type 0
IsOptimum Le t need r =
    (IsStart t r
      × IsHole t r need
      × ((k : ℕ) → IsStart t k → IsHole t k need → Le (get_free_space t r) (get_free_space t k)))
    ⊎ ((r ≡ minus_one) × ((k : ℕ) → IsStart t k → ¬ IsHole t k need))

IsOptimum-of_chosen :
    (t : Bitarray) (need : ℕ) (Le : ℕ → ℕ → Type 0) (r size : ℕ)
    → ((size ≡ minus_one)
        × (r ≡ minus_one)
        × ((k : ℕ) → k < t.size → IsStart t k → get_free_space t k < need))
      ⊎ (IsStart t r
          × (size ≡ get_free_space t r)
          × (need ≤ size)
          × ((k : ℕ)
              → k < t.size
              → IsStart t k
              → need ≤ get_free_space t k
              → Le size (get_free_space t k)))
    → IsOptimum Le t need r
IsOptimum-of_chosen t need Le r size (inl (_, refused, none_left)) = inr (
  refused,
  λ k start hole. absurd (
      omega (
        arith,
        none_left k start.0 start,
        (free_space_iff t k need (omega (arith, start.0))).0 hole,
      )),
)
IsOptimum-of_chosen t need Le r size (inr (start, sized, enough, least)) = inl (
  start,
  (free_space_iff t r need (omega (arith, start.0))).1 (omega arith),
  λ k other hole.
      subst (λ s. Le s (get_free_space t k)) sized
        (least k other.0 other ((free_space_iff t k need (omega (arith, other.0))).0 hole)),
)

-- For a table of less than 2^32 - 1 bits, `best_fit` answers the start of a whole hole with room,
-- and no whole hole with room is smaller; or it answers -1 and no whole hole has room.
pub best_fit_smallest :
    (t : Bitarray) (need : ℕ) → t.size < minus_one → IsOptimum ◌≤◌ t need (best_fit t need)
unfolding best_fit
best_fit_smallest t need small =
    let (size, chosen) =
      fit_lem t need small ◌≤◌ (λ a b. ltb a b) (λ a b h. ground arith) (λ a b h. ground arith)
        (λ a b c h k. omega arith) (λ a. omega arith) in
    IsOptimum-of_chosen t need ◌≤◌ _ size chosen

-- For a table of less than 2^32 - 1 bits, `worst_fit` answers the start of a whole hole with room,
-- and no whole hole with room is larger; or it answers -1 and no whole hole has room.
pub worst_fit_largest :
    (t : Bitarray) (need : ℕ)
    → t.size < minus_one
    → IsOptimum (λ a b. b ≤ a) t need (worst_fit t need)
unfolding worst_fit
worst_fit_largest t need small =
    let (size, chosen) =
      fit_lem t need small (λ a b. b ≤ a) (λ a b. ltb b a) (λ a b h. ground arith)
        (λ a b h. ground arith) (λ a b c h k. omega arith) (λ a. omega arith) in
    IsOptimum-of_chosen t need (λ a b. b ≤ a) _ size chosen
