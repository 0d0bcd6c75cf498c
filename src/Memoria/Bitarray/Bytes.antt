-- ===== src/Memoria/Bitarray/Bytes.antt =====
-- libs/src/bitarray.c: one bit of a byte, checked at every byte and every pair of positions.
use tp_2023_1c_kernel_flow.Base.{
  ℕ, zero, suc, ◌<◌, ◌≡◌, refl, inl, inr, Bool-cases, Bool, true, false, ◌&&◌, arith, ltb, ◌==◌,
  if◌then◌else◌, ltb→lt,
}
use tp_2023_1c_kernel_flow.Memoria.Bitarray.{raise_bit, clear_bit, test_bit}

-- Whether a test passes at every number in front of a bound, counted down from it.
passes : (test : ℕ → Bool) (bound : ℕ) → Bool
passes test zero = true
passes test (suc last) = let before = passes test last in if test last then before else false

passes-at :
    (test : ℕ → Bool) {bound : ℕ} (i : ℕ) → passes test bound ≡ true → i < bound → test i ≡ true
unfolding passes
passes-at test {bound = zero} i ok inside = absurd (omega arith)
passes-at test {bound = suc last} i ok inside =
    let before = passes-at test {bound = last} i in
    elim (Bool-cases (test last)) [
      | inl passed ↦ ground (arith, passed, before)
      | inr failed ↦ absurd (ground (arith, failed))
    ]

abbrev same : Bool → Bool → Bool
same true true = true
same false false = true
same _ _ = false

same_eq : (a b : Bool) → same a b ≡ true → a ≡ b
same_eq true true h = refl
same_eq false false h = refl
same_eq true false h = ground arith
same_eq false true h = ground arith

-- The bit at k is raised and cleared, the other bits stay, and the result is a byte.
abbrev row : ℕ → ℕ → ℕ → Bool
row x k j =
    same (test_bit (raise_bit x k) j) (if k == j then true else test_bit x j)
    && (same (test_bit (clear_bit x k) j) (if k == j then false else test_bit x j)
        && (ltb (raise_bit x k) 256 && ltb (clear_bit x k) 256))

table : passes (λ x. passes (λ k. passes (row x k) 8) 8) 256 ≡ true
unfolding passes raise_bit clear_bit test_bit
table = refl

row_holds : (x k j : ℕ) → x < 256 → k < 8 → j < 8 → row x k j ≡ true
row_holds x k j hx hk hj =
    let at_byte = passes-at (λ x. passes (λ k. passes (row x k) 8) 8) {bound = 256} x table hx in
    let at_bit = passes-at (λ k. passes (row x k) 8) {bound = 8} k at_byte hk in
    passes-at (row x k) {bound = 8} j at_bit hj

and_both : (a b : Bool) → (a && b) ≡ true → (a ≡ true) × (b ≡ true)
and_both a b h = ground arith

row_bounds :
    (x k j : ℕ)
    → row x k j ≡ true
    → (ltb (raise_bit x k) 256 ≡ true) × (ltb (clear_bit x k) 256 ≡ true)
row_bounds x k j h = let tests = and_both _ _ h in and_both _ _ (and_both _ _ tests.1).1

pub test_bit-written :
    (v : Bool) (x k j : ℕ)
    → x < 256
    → k < 8
    → j < 8
    → test_bit (if v then raise_bit x k else clear_bit x k) j ≡ (if k == j then v else test_bit x j)
test_bit-written true x k j hx hk hj = same_eq _ _ (and_both _ _ (row_holds x k j hx hk hj)).0
test_bit-written false x k j hx hk hj =
    same_eq _ _ (and_both _ _ (and_both _ _ (row_holds x k j hx hk hj)).1).0

pub written-lt :
    (v : Bool) (x k : ℕ) → x < 256 → k < 8 → (if v then raise_bit x k else clear_bit x k) < 256
written-lt true x k hx hk = ltb→lt _ _ (row_bounds x k 0 (row_holds x k 0 hx hk (omega arith))).0
written-lt false x k hx hk = ltb→lt _ _ (row_bounds x k 0 (row_holds x k 0 hx hk (omega arith))).1
