-- ===== src/Cpu/Estado.antt =====
-- cpu/include/cpu_vars.h: the state of the CPU, and the context that it executes. The answer `none`
-- is a fault, or a wait for an answer of the memory that does not come.
use tp_2023_1c_kernel_flow.Base.{ℕ, Bool, Option, none, some, List, [], ◌∷◌, ◌++◌}
use tp_2023_1c_kernel_flow.Wire.Types.{Registers, Pcontexto, InfoRead, InfoWrite}
use tp_2023_1c_kernel_flow.Wire.Package.{Package}

-- What the CPU calls of libc and of the commons library, and the size in the configuration. `atoi`
-- answers an int as the uint32_t of the same bits, and `string_itoa` takes one so.
pub record Library : Type 0 where
  pub atoi : List ℕ → ℕ
  pub string_itoa : ℕ → List ℕ
  pub string_duplicate : List ℕ → List ℕ
  pub strlen : List ℕ → ℕ
  pub tam_max_segmento : ℕ

-- What was sent to the memory.
pub data Request : Type 0 where
  read_request : InfoRead → Request
  write_request : InfoWrite → Request

pub record Cpu : Type 0 where
  pub registers : Registers
  pub contexto : Pcontexto
  pub ejecutando : Bool
  pub seg_fault : Bool
  pub sent : List Request
  -- The packages that the memory is still to send.
  pub from_memory : List Package

abbrev pub M : Type 0 → Type 0
M A = Cpu → Option (A × Cpu)

abbrev pub pure : {A : Type 0} → A → M A
pure a c = some (a, c)

infixl 5 ◌>>=◌ ◌>>◌
abbrev pub ◌>>=◌ : {A B : Type 0} → M A → (A → M B) → M B
◌>>=◌ m f c = elim (m c) [ none ↦ none | some (a, c') ↦ f a c' ]

abbrev pub ◌>>◌ : {B : Type 0} → M (Unit {0}) → M B → M B
m >> n = m >>= λ _. n

abbrev pub ask : {A : Type 0} → (Cpu → A) → M A
ask f c = some (f c, c)

abbrev pub follow : {A : Type 0} → Option A → M A
follow none c = none
follow (some a) c = some (a, c)

unfoldable pub set_registers : Registers → M (Unit {0})
set_registers r c = some (tt, record c { registers = r })

unfoldable pub set_seg_fault : Bool → M (Unit {0})
set_seg_fault b c = some (tt, record c { seg_fault = b })

unfoldable pub set_ejecutando : Bool → M (Unit {0})
set_ejecutando b c = some (tt, record c { ejecutando = b })

unfoldable pub request : Request → M (Unit {0})
request r c = some (tt, record c { sent = c.sent ++ r ∷ [] })

unfoldable pub answer : M Package
answer c = elim c.from_memory [ [] ↦ none | p ∷ rest ↦ some (p, record c { from_memory = rest }) ]
