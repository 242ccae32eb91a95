-- ===== src/Network/Integers.antt =====
-- Big integers of cg_network.hpp on the wire: `send_mpz` and `recv_mpz` are inverse.
use rf_class_groups.Base.{
  ℕ, suc, ◌≤◌, ◌≡◌, ◌≢◌, refl, ◌∙◌, List, [], ◌∷◌, ◌++◌, length, false, ℤ, pos, negsuc, magnitude,
  ok, >>=-eq-ok, arith,
}
use rf_class_groups.Config.{Env}
use rf_class_groups.Config.Limits.{cg_config_size_range}
use rf_class_groups.Network.{
  IsCanonical, Gmp, IsGmp, send_u32, sign_word, starts_with_zero, max_mpz_bytes, send_mpz,
  recv_magnitude, recv_signed, recv_mpz,
}
use rf_class_groups.Network.Words.{recv_all-append, recv_u32-send_u32}
use mathlib.Core.List.{append_assoc}

canonical_front : (bs : List ℕ) → IsCanonical bs → starts_with_zero bs ≡ false
canonical_front [] h = refl
canonical_front (b ∷ bs) h = ground arith

max_mpz_bytes_le : (getenv : Env) (limit : ℕ) → max_mpz_bytes getenv ≡ ok limit → limit ≤ 1048576
unfolding max_mpz_bytes
max_mpz_bytes_le getenv limit h =
    (cg_config_size_range getenv "CG_MAX_MPZ_BYTES" 16384 1048576 limit (omega arith) (omega arith)
      h).1

module _ (g : Gmp) (laws : IsGmp g) where
  import-nil : g.import_bytes [] ≡ 0
  import-nil = rw (← laws.export-zero) (laws.import-export 0)

  recv_magnitude-bytes :
      (bs rest : List ℕ)
      → IsCanonical bs
      → recv_magnitude g (length bs) (bs ++ rest) ≡ ok (g.import_bytes bs, rest)
  unfolding recv_magnitude
  recv_magnitude-bytes [] rest h = rw import-nil
  recv_magnitude-bytes (b ∷ bs) rest h =
      ground (arith, recv_all-append (b ∷ bs) rest, canonical_front (b ∷ bs) h)

  recv_magnitude-export :
      (n : ℕ) (rest : List ℕ)
      → recv_magnitude g (length (g.export_bytes n)) (g.export_bytes n ++ rest) ≡ ok (n, rest)
  recv_magnitude-export n rest =
      recv_magnitude-bytes (g.export_bytes n) rest (laws.export-IsCanonical n)
      ∙ rw (laws.import-export n)

  length-export_pos : (n : ℕ) → length (g.export_bytes (suc n)) ≢ 0
  length-export_pos n h = go (g.export_bytes (suc n)) refl h
    where
      go : (bs : List ℕ) → g.export_bytes (suc n) ≡ bs → length bs ≢ 0
      go [] e k = ground (arith, import-nil, laws.import-export (suc n))
      go (b ∷ bs) e k = omega arith

  recv_signed-export :
      (m : ℤ) (rest : List ℕ)
      → recv_signed g
          (sign_word m)
          (length (g.export_bytes (magnitude m)))
          (g.export_bytes (magnitude m) ++ rest)
        ≡ ok (m, rest)
  unfolding recv_signed
  recv_signed-export (pos n) rest = rw (recv_magnitude-export n rest)
  recv_signed-export (negsuc n) rest =
      ground (arith, recv_magnitude-export (suc n) rest, length-export_pos n)

  header :
      (getenv : Env) (neg count limit : ℕ) (body : List ℕ)
      → max_mpz_bytes getenv ≡ ok limit
      → neg ≤ 1
      → count ≤ limit
      → recv_mpz g getenv (send_u32 neg ++ (send_u32 count ++ body)) ≡ recv_signed g neg count body
  unfolding recv_mpz
  header getenv neg count limit body e hn hc = ground (
    arith,
    recv_u32-send_u32 neg (send_u32 count ++ body),
    recv_u32-send_u32 count body,
    max_mpz_bytes_le getenv limit e,
  )

  sign_word_le : (m : ℤ) → sign_word m ≤ 1
  sign_word_le (pos n) = omega arith
  sign_word_le (negsuc n) = omega arith

  abbrev pub encoding : ℤ → List ℕ
  encoding m =
      send_u32 (sign_word m)
      ++ (send_u32 (length (g.export_bytes (magnitude m))) ++ g.export_bytes (magnitude m))

  pub send_mpz_ok :
      (getenv : Env) (m : ℤ) (limit : ℕ) (bytes : List ℕ)
      → max_mpz_bytes getenv ≡ ok limit
      → send_mpz g getenv m ≡ ok bytes
      → (bytes ≡ encoding m) × (length (g.export_bytes (magnitude m)) ≤ limit)
  unfolding send_mpz
  send_mpz_ok getenv m limit bytes e h = ground (arith, laws.export_size (magnitude m))

  pub limit_in_force :
      (getenv : Env) (m : ℤ) (bytes : List ℕ)
      → send_mpz g getenv m ≡ ok bytes
      → (limit : ℕ) × (max_mpz_bytes getenv ≡ ok limit)
  unfolding send_mpz
  limit_in_force getenv m bytes h =
      let (limit, e, _) = >>=-eq-ok (max_mpz_bytes getenv) _ h in (limit, e)

  -- What `send_mpz` wrote, `recv_mpz` reads back under the same CG_MAX_MPZ_BYTES, whatever follows.
  pub recv_mpz-send_mpz :
      (getenv : Env) (m : ℤ) (bytes rest : List ℕ)
      → send_mpz g getenv m ≡ ok bytes
      → recv_mpz g getenv (bytes ++ rest) ≡ ok (m, rest)
  recv_mpz-send_mpz getenv m bytes rest h =
      let (limit, e) = limit_in_force getenv m bytes h in
      let (shape, fits) = send_mpz_ok getenv m limit bytes e h in
      rw (shape, append_assoc, append_assoc)
        (header getenv (sign_word m) _ limit _ e (sign_word_le m) fits ∙ recv_signed-export m rest)
