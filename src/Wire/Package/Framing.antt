-- ===== src/Wire/Package/Framing.antt =====
-- libs/src/package.c: what is sent is received, message by message.
use mathlib.Core.Option
use tp_2023_1c_kernel_flow.Base.{
  ℕ, ◌+◌, zero, suc, ◌<◌, ◌≡◌, refl, sym, some, List, [], ◌∷◌, ◌++◌, arith, length, length-append,
  subst,
}
use tp_2023_1c_kernel_flow.Wire.Bytes.{
  Reader, pure, ◌>>=◌, u32_max, Reads, Reads-pure, Reads-bind, Reads-last, Reads-all, Reads-nil,
  lift, lift-Reads, u32_bytes, read_u32, read_u32-Reads, copy_block, copy_block_self,
  length-u32_bytes,
}
use tp_2023_1c_kernel_flow.Wire.Package.{
  Package, Sockets, package_bytes, package_send, package_recv, recv_operation_code, recv_size,
  first_byte, package_get_size,
}

-- What is documented of `recv` without a flag: it returns the bytes that have arrived, up to as many
-- as are asked for. So where n bytes or more have arrived, a `recv` of n bytes returns the first n of
-- them. Where fewer have arrived nothing is relied on.
pub record GivesArrived (os : Sockets) : Type 0 where
  pub all : (n : ℕ) (bytes : List ℕ) → length bytes ≡ n → Reads (os.recv n) bytes bytes

-- A package whose buffer is filled exactly.
pub record PackageFits (p : Package) : Type 0 where
  pub op_fits : p.operation_code < 256
  pub filled : p.buffer.size ≡ length p.buffer.stream
  pub total_fits : p.buffer.size + 5 < u32_max

abbrev pub layout_package : Package → List ℕ
layout_package p = (p.operation_code ∷ []) ++ (u32_bytes p.buffer.size ++ p.buffer.stream)

package_bytes_lem : (p : Package) → PackageFits p → package_bytes p ≡ some (layout_package p)
unfolding package_bytes
package_bytes_lem p f =
    let copied : copy_block p.buffer.size p.buffer.stream ≡ some p.buffer.stream =
      subst (λ n. copy_block n p.buffer.stream ≡ some p.buffer.stream) (sym f.filled)
        (copy_block_self p.buffer.stream) in
    rw copied

module _ (os : Sockets) (w : GivesArrived os) where
  recv_operation_code-Reads : (op : ℕ) → Reads (recv_operation_code os) (op ∷ []) op
  unfolding recv_operation_code first_byte
  recv_operation_code-Reads op =
      Reads-bind (λ bytes. lift (first_byte bytes)) (w.all 1 (op ∷ []) refl) (lift-Reads refl)

  recv_size-Reads : (size : ℕ) → size < u32_max → Reads (recv_size os) (u32_bytes size) size
  unfolding recv_size
  recv_size-Reads size h = Reads-nil (u32_bytes size) (
      Reads-bind (λ bytes. lift (Option.map (λ ((n, _) : ℕ × List ℕ). n) (read_u32 bytes)))
        (w.all 4 (u32_bytes size) (length-u32_bytes size))
        (lift-Reads (rw (Reads-all (read_u32-Reads size h)))))

  pub package_recv-Reads :
      (p : Package) → PackageFits p → Reads (package_recv os) (layout_package p) p
  unfolding package_recv
  package_recv-Reads p f = Reads-bind _ (recv_operation_code-Reads p.operation_code) (
      Reads-bind _ (recv_size-Reads p.buffer.size (omega (arith, f.total_fits))) (
        Reads-last
          (λ stream. record {
            operation_code = p.operation_code;
            buffer = record { size = p.buffer.size; stream = stream };
          })
          (w.all p.buffer.size p.buffer.stream (sym f.filled))))

-- The bytes of several packages, one after the other on the wire.
abbrev pub layout_packages : List Package → List ℕ
layout_packages [] = []
layout_packages (p ∷ ps) = layout_package p ++ layout_packages ps

abbrev pub AllPackagesFit : List Package → Type 0
AllPackagesFit [] = Unit
AllPackagesFit (p ∷ ps) = PackageFits p × AllPackagesFit ps

-- As many `get_package`s as there are packages to wait for.
abbrev pub recv_packages : (os : Sockets) → ℕ → Reader (List Package)
recv_packages os zero = pure []
recv_packages os (suc n) = package_recv os >>= λ p. recv_packages os n >>= λ ps. pure (p ∷ ps)

-- Let `recv` return the bytes that have arrived, up to as many as are asked for. Where the bytes of
-- some packages have arrived whole, a receiver that takes as many packages gets those packages, in
-- order and whole, whatever has arrived behind them. Their buffers are filled exactly and their sizes
-- fit.
pub packages_round_trip :
    (os : Sockets)
    → GivesArrived os
    → (ps : List Package) → AllPackagesFit ps
    → Reads (recv_packages os (length ps)) (layout_packages ps) ps
packages_round_trip os w [] f = Reads-pure []
packages_round_trip os w (p ∷ ps) f =
    Reads-bind _ (package_recv-Reads os w p f.0) (Reads-last _ (packages_round_trip os w ps f.1))

-- A package whose buffer is filled exactly, and whose sizes fit, is handed to `send` in one call,
-- with its header, and the bytes are as many as `package_get_size` says.
pub package_send_lem :
    (os : Sockets) (p : Package) (wire : os.Wire)
    → PackageFits p
    → (package_send os p wire ≡ some (os.send (layout_package p) wire))
      × (length (layout_package p) ≡ package_get_size p)
unfolding package_send package_get_size
package_send_lem os p wire f = (
  rw (package_bytes_lem p f),
  simp (length-append, length-u32_bytes, ← f.filled) (omega (arith, f.total_fits)),
)
