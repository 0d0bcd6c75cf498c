-- ===== src/Cpu/Ciclo/Final.antt =====
-- cpu/src/instruction_cycle.c: the loop of execute_process ends, since each cycle takes the next
-- instruction and the context does not change otherwise.
use tp_2023_1c_kernel_flow.Base.{
  ℕ, zero, suc, ◌+◌, ◌-◌, ◌<◌, ◌≡◌, refl, sym, ap, subst, arith, true, Bool-cases, inl, inr, Option,
  none, some, List, [], ◌∷◌, length, get_elem?, if◌then◌else◌,
}
use tp_2023_1c_kernel_flow.Wire.Types.{Instruccion, PcontextoDesalojo}
use tp_2023_1c_kernel_flow.Wire.Bytes.{u32, u32_max}
use tp_2023_1c_kernel_flow.Cpu.Estado.{Library, Cpu, M, ask, ◌>>=◌, follow, set_ejecutando}
use tp_2023_1c_kernel_flow.Cpu.Ciclo.{
  next_instruction, fetch, decode, stopped, checked_fault, execute_good, execute_instruction_cycle,
  execute_cycles, execute_process,
}
use tp_2023_1c_kernel_flow.Cpu.Ciclo.Contexto.{
  Keeps, bind_inverse, keep_rules, decode-Keeps, checked_fault-Keeps, execute_good-Keeps,
}

module _ (lib : Library) where
  -- The instructions that are left.
  abbrev pub left : Cpu → ℕ
  left c = length c.contexto.instructions - c.contexto.program_counter

  get_within : {A : Type 0} (xs : List A) (i : ℕ) (x : A) → get_elem? xs i ≡ some x → i < length xs
  get_within [] i x e = absurd (cc e)
  get_within (y ∷ ys) zero x e = omega arith
  get_within (y ∷ ys) (suc i) x e = omega (arith, get_within ys i x e)

  follow_lem :
      {A : Type 0} (o : Option A) (c c' : Cpu) (a : A)
      → follow o c ≡ some (a, c')
      → (o ≡ some a) × (c ≡ c')
  follow_lem none c c' a e = absurd (cc e)
  follow_lem (some b) c c' a e = (cc e, cc e)

  abbrev pub IsShort : Cpu → Type 0
  IsShort c = length c.contexto.instructions < u32_max

  fetch_lem :
      (c c' : Cpu) (x : Instruccion)
      → IsShort c
      → fetch c ≡ some (x, c')
      → (left c' + 1 ≡ left c) × (c'.contexto.instructions ≡ c.contexto.instructions)
  unfolding fetch next_instruction
  fetch_lem c c' x short e =
      let k = c.contexto in
      let next = record c {
        contexto = record k { program_counter = u32 (k.program_counter + 1) };
      } in
      let (found, same) = follow_lem (get_elem? k.instructions k.program_counter) next c' x e in
      let inside = get_within k.instructions k.program_counter x found in
      let stays : u32 (k.program_counter + 1) ≡ k.program_counter + 1 =
        omega (arith, short, inside) in
      subst (λ o. (left o + 1 ≡ left c) × (o.contexto.instructions ≡ k.instructions)) same
        (omega (arith, inside, stays), refl)

  after_fetch-Keeps :
      (next : Instruccion)
      → Keeps (
          decode lib next >>= λ x. ask (λ c. c.seg_fault) >>= λ fault.
          if fault then checked_fault lib x else execute_good lib x)
  after_fetch-Keeps next =
      search (keep_rules, decode-Keeps, checked_fault-Keeps, execute_good-Keeps) depth 12

  cycle_lem :
      (c c' : Cpu) (desalojo : Option PcontextoDesalojo)
      → IsShort c
      → execute_instruction_cycle lib c ≡ some (desalojo, c')
      → (left c' + 1 ≡ left c) × IsShort c'
  unfolding execute_instruction_cycle
  cycle_lem c c' desalojo short e =
      let (x, o, fetched, decoded) = bind_inverse (fetch c) _ c' desalojo e in
      let (less, same) = fetch_lem c o x short fetched in
      let rest : c'.contexto ≡ o.contexto = (after_fetch-Keeps x).kept o c' desalojo decoded in
      (
        subst (λ k. (length k.instructions - k.program_counter) + 1 ≡ left c) (sym rest) less,
        subst (λ k. length k.instructions < u32_max) (sym rest)
            (omega (arith, short, ap length same)),
      )

  pass_lem :
      (x : Option (Option PcontextoDesalojo × Cpu))
      (f g : Option PcontextoDesalojo → M (Option PcontextoDesalojo))
      → ((d : Option PcontextoDesalojo) (o : Cpu) → x ≡ some (d, o) → f d o ≡ g d o)
      → elim x as (λ _. Option (Option PcontextoDesalojo × Cpu)) [
        | none ↦ none
        | some (d, o) ↦ f d o
      ]
        ≡ elim x as (λ _. Option (Option PcontextoDesalojo × Cpu)) [
          | none ↦ none
          | some (d, o) ↦ g d o
        ]
  pass_lem none f g h = refl
  pass_lem (some (d, o)) f g h = h d o refl

  cycles_lem :
      (n m : ℕ) (last : Option PcontextoDesalojo) (c : Cpu)
      → IsShort c
      → left c < n
      → left c < m
      → execute_cycles lib n last c ≡ execute_cycles lib m last c
  unfolding execute_cycles
  cycles_lem zero m last c short h g = absurd (omega (arith, h))
  cycles_lem (suc n) zero last c short h g = absurd (omega (arith, g))
  cycles_lem (suc n) (suc m) last c short h g = elim (Bool-cases c.ejecutando) [
    | inr stopped ↦ rw stopped
    | inl running ↦ simp running (
        pass_lem (execute_instruction_cycle lib c) _ _ λ d o e.
          let (fewer, still) = cycle_lem c o d short e in
          cycles_lem n m d o still (omega (arith, h, fewer)) (omega (arith, g, fewer)))
  ]

  -- For a program of less than 2^32 instructions, with more fuel than the instructions that are
  -- left, the result of `execute_process` does not depend on the fuel.
  pub execute_process_fuel :
      (n m : ℕ) (c : Cpu)
      → IsShort c
      → left c < n
      → left c < m
      → execute_process lib n c ≡ execute_process lib m c
  unfolding execute_process set_ejecutando
  execute_process_fuel n m c short h g =
      cycles_lem n m none (record c { ejecutando = true }) short h g
