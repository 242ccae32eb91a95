-- ===== src/Network.antt =====
-- cg_network.hpp, namespace CGNet: the wire formats. A socket is the list of the bytes that are in
-- flight; `send_…` gives the bytes that it appends, `recv_…` takes bytes from the front.
pub mod Stream
pub mod Words
pub mod Integers
pub mod Objects
pub mod Model
use rf_class_groups.Base.{
  ℕ, suc, ◌+◌, ◌*◌, ◌/◌, ◌%◌, ◌^◌, ◌≤◌, ◌<◌, ◌≡◌, ◌≢◌, Bool, true, false, ◌&&◌, not, List, [], ◌∷◌,
  ◌++◌, length, take, drop, All, ltb, ◌==◌, if◌then◌else◌, ℤ, pos, is_negative, magnitude, negated,
  Result, ok, err, ◌>>=◌, ◌>>◌, reject_if,
}
use rf_class_groups.Base.{short_read, oversized_encoding, noncanonical_encoding, negative_zero}
use rf_class_groups.Config.{Env, cg_config_size}

abbrev pub IsByte : ℕ → Type 0
IsByte b = b < 256

-- `recv_all(fd, buf, len)`: exactly `len` bytes, or an exception where the stream ends before.
pub recv_all : ℕ → List ℕ → Result (List ℕ × List ℕ)
recv_all n s = if ltb (length s) n then err short_read else ok (take n s, drop n s)

-- `htonl` and `send_all` of four bytes; `v` is a uint32_t.
unfoldable pub send_u32 : ℕ → List ℕ
send_u32 v = (v / 2 ^ 24 % 256) ∷ (v / 2 ^ 16 % 256) ∷ (v / 2 ^ 8 % 256) ∷ (v % 256) ∷ []

-- `ntohl` of four bytes.
abbrev pub big_endian : List ℕ → ℕ
big_endian (a ∷ b ∷ c ∷ d ∷ []) = a * 2 ^ 24 + b * 2 ^ 16 + c * 2 ^ 8 + d
big_endian _ = 0

pub recv_u32 : List ℕ → Result (ℕ × List ℕ)
recv_u32 s = do (bytes, rest) ← recv_all 4 s; ok (big_endian bytes, rest)

-- `(uint32_t)(v >> 32)`, then `(uint32_t)(v & 0xFFFFFFFF)`.
pub send_u64 : ℕ → List ℕ
send_u64 v = send_u32 (v / 2 ^ 32 % 2 ^ 32) ++ send_u32 (v % 2 ^ 32)

-- `(hi << 32) | lo`: `lo` is below 2^32, so the or is a sum.
pub recv_u64 : List ℕ → Result (ℕ × List ℕ)
recv_u64 s = do (hi, s') ← recv_u32 s; (lo, s'') ← recv_u32 s'; ok (hi * 2 ^ 32 + lo, s'')

-- The calls of GMP: `mpz_export` and `mpz_import` with the most significant byte first, and
-- `mpz_sizeinbase(x, 2)`, on magnitudes.
pub record Gmp : Type 0 where
  pub export_bytes : ℕ → List ℕ
  pub import_bytes : List ℕ → ℕ
  pub bit_size : ℕ → ℕ

-- The first byte of a buffer is not 0; an empty buffer has no first byte.
abbrev pub IsCanonical : List ℕ → Type 0
IsCanonical [] = Unit
IsCanonical (b ∷ bs) = b ≢ 0

-- What GMP documents of them: the export is the shortest row of bytes, and the import its inverse.
pub record IsGmp (g : Gmp) : Type 0 where
  pub import-export : (n : ℕ) → g.import_bytes (g.export_bytes n) ≡ n
  pub export-import :
      (bs : List ℕ) → All IsByte bs → IsCanonical bs → g.export_bytes (g.import_bytes bs) ≡ bs
  pub export-zero : g.export_bytes 0 ≡ []
  pub export-IsByte : (n : ℕ) → All IsByte (g.export_bytes n)
  pub export-IsCanonical : (n : ℕ) → IsCanonical (g.export_bytes n)
  pub export_size : (n : ℕ) → length (g.export_bytes n) ≤ g.bit_size n / 8 + 1

abbrev pub starts_with_zero : List ℕ → Bool
starts_with_zero [] = false
starts_with_zero (b ∷ bs) = b == 0

abbrev pub sign_word : ℤ → ℕ
sign_word m = if is_negative m then 1 else 0

-- `cg_config_size("CG_MAX_MPZ_BYTES", 16384, 1048576)`.
unfoldable pub max_mpz_bytes : Env → Result ℕ
max_mpz_bytes getenv = cg_config_size getenv "CG_MAX_MPZ_BYTES" 16384 1048576 false

module _ (g : Gmp) where
  -- Sign flag, byte count, magnitude bytes.
  unfoldable pub send_mpz : Env → ℤ → Result (List ℕ)
  send_mpz getenv m = do
    limit ← max_mpz_bytes getenv
    reject_if (ltb limit (g.bit_size (magnitude m) / 8 + 1)) oversized_encoding
    let buf = g.export_bytes (magnitude m)
    ok (send_u32 (sign_word m) ++ (send_u32 (length buf) ++ buf))

  -- `if (count) { recv_all; if (buf.front() == 0) throw ...; m = buf; }`
  pub recv_magnitude : ℕ → List ℕ → Result (ℕ × List ℕ)
  recv_magnitude count s = if count == 0 then ok (0, s) else do
    (buf, s') ← recv_all count s
    reject_if (starts_with_zero buf) noncanonical_encoding
    ok (g.import_bytes buf, s')

  -- The magnitude behind an accepted header, and the sign.
  pub recv_signed : ℕ → ℕ → List ℕ → Result (ℤ × List ℕ)
  recv_signed neg count s = do
    (m, s') ← recv_magnitude count s
    reject_if (not (neg == 0) && count == 0) negative_zero
    ok (if neg == 0 then pos m else negated m, s')

  pub recv_mpz : Env → List ℕ → Result (ℤ × List ℕ)
  recv_mpz getenv s = do
    (neg, s₁) ← recv_u32 s
    (count, s₂) ← recv_u32 s₁
    reject_if (ltb 1 neg) oversized_encoding
    limit ← max_mpz_bytes getenv
    reject_if (ltb limit count) oversized_encoding
    recv_signed neg count s₂
