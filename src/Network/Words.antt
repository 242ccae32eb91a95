-- ===== src/Network/Words.antt =====
-- Fixed-width words of cg_network.hpp on the wire.
use rf_class_groups.Base.{
  ℕ, ◌+◌, ◌*◌, ◌/◌, ◌%◌, ◌^◌, ◌<◌, ◌≡◌, List, [], ◌∷◌, ◌++◌, length, All, ok, arith, le→ltb, ap,
}
use rf_class_groups.Network.{recv_all, send_u32, recv_u32, send_u64, recv_u64, IsByte}
use mathlib.Core.List.{append_assoc}
use rf_class_groups.Base.{take-append, drop-append, length-append}

-- `recv_all` of as many bytes as were sent gives those bytes, and leaves what follows them.
pub recv_all-append : (bs rest : List ℕ) → recv_all (length bs) (bs ++ rest) ≡ ok (bs, rest)
unfolding recv_all
recv_all-append bs rest = rw (
  le→ltb (length (bs ++ rest)) (length bs) (omega (arith, length-append bs rest)),
  take-append,
  drop-append,
)

word :
    (v : ℕ)
    → v < 2 ^ 32
    → v / 2 ^ 24 % 256 * 2 ^ 24 + v / 2 ^ 16 % 256 * 2 ^ 16 + v / 2 ^ 8 % 256 * 2 ^ 8 + v % 256 ≡ v
word v h = omega arith

pub recv_u32-send_u32 :
    (v : ℕ) (rest : List ℕ) → v < 2 ^ 32 → recv_u32 (send_u32 v ++ rest) ≡ ok (v, rest)
unfolding recv_u32 send_u32 recv_all
recv_u32-send_u32 v rest h = ground (arith, word v h)

fourth :
    (a b c d : ℕ)
    → All IsByte (a ∷ b ∷ c ∷ d ∷ [])
    → (v : ℕ) → a * 2 ^ 24 + b * 2 ^ 16 + c * 2 ^ 8 + d ≡ v
    → (a ≡ v / 2 ^ 24 % 256)
      × (b ≡ v / 2 ^ 16 % 256)
      × (c ≡ v / 2 ^ 8 % 256)
      × (d ≡ v % 256)
      × (v < 2 ^ 32)
fourth a b c d h v e = (omega arith, omega arith, omega arith, omega arith, omega arith)

-- Read the other way: what `recv_u32` takes is what `send_u32` writes.
pub send_u32-recv_u32 :
    (s : List ℕ) (v : ℕ) (rest : List ℕ)
    → All IsByte s
    → recv_u32 s ≡ ok (v, rest)
    → (s ≡ send_u32 v ++ rest) × (v < 2 ^ 32) × All IsByte rest
unfolding recv_u32 send_u32 recv_all
send_u32-recv_u32 (a ∷ b ∷ c ∷ d ∷ s) v rest h e =
    ground (arith, fourth a b c d (h.0, (h.1.0, (h.1.1.0, (h.1.1.1.0, tt)))) v)
send_u32-recv_u32 _ v rest h e = ground arith

-- A number below 2^64 that `send_u64` wrote is read back by `recv_u64`, whatever follows.
pub recv_u64-send_u64 :
    (v : ℕ) (rest : List ℕ) → v < 2 ^ 64 → recv_u64 (send_u64 v ++ rest) ≡ ok (v, rest)
unfolding recv_u64 send_u64
recv_u64-send_u64 v rest h =
    simp
      (
        append_assoc,
        recv_u32-send_u32 (v / 2 ^ 32 % 2 ^ 32) (send_u32 (v % 2 ^ 32) ++ rest) (omega arith),
        recv_u32-send_u32 (v % 2 ^ 32) rest (omega arith),
      )
      (ap (λ (n : ℕ). ok (n, rest)) (omega arith))
