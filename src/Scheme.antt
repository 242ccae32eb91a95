-- ===== src/Scheme.antt =====
-- third_party/cg_ahe/cg_ahe.hpp (CG_Scheme) and the key-mauling helpers of cg_rf_common.hpp and
-- cg_ole3_common.hpp, over the class-group cryptosystem CL_HSMqk as a parameter.
pub mod Laws
pub mod Encryption
pub mod Firewall
pub mod Model
use rf_class_groups.Base.{
  ℕ, ◌<◌, Bool, if◌then◌else◌, ltb, CipherText, Result, ok, err, cleartext_range, ◌%◌, ◌+◌,
}

-- What the code calls of BICYCL::CL_HSMqk and its class groups. The two groups hold values of one
-- C++ type, `QFI`; `g` stands for `Cl_G()` and `delta` for `Cl_Delta()`.
pub record ClassGroups : Type 1 where
  pub Qfi : Type 0
  -- `compact_variant()`.
  pub compact : Bool
  pub nucomp_g : Qfi → Qfi → Qfi
  pub nupow_g : Qfi → ℕ → Qfi
  pub nucomp_delta : Qfi → Qfi → Qfi
  pub nucompinv_delta : Qfi → Qfi → Qfi
  pub nupow_delta : Qfi → ℕ → Qfi
  -- `pk.exponentiation(cs, out, s)`.
  pub exponentiation : Qfi → ℕ → Qfi
  -- `from_Cl_DeltaK_to_Cl_Delta`.
  pub from_delta_k : Qfi → Qfi
  pub power_of_h : ℕ → Qfi
  pub power_of_f : ℕ → Qfi
  pub cleartext_bound : ℕ
  -- The calls `keygen(sk)`, `encrypt(pk, m, r)`, `decrypt(sk, c)`, with the randomness given.
  pub keygen : ℕ → Qfi
  pub encrypt : Qfi → ℕ → ℕ → CipherText Qfi
  pub decrypt : ℕ → CipherText Qfi → ℕ

-- A precomputed pair (h^s, pk^s): `struct EncZero`.
pub record EncZero (Q : Type 0) : Type 0 where
  pub R : Q
  pub E : Q

module _ (cs : ClassGroups) where
  open cs use {
    Qfi, compact, nucomp_g, nupow_g, nucomp_delta, nucompinv_delta, nupow_delta, from_delta_k,
    power_of_h, cleartext_bound, encrypt,
  }

  -- `if (cs.compact_variant()) cs.from_Cl_DeltaK_to_Cl_Delta(x);`
  pub to_delta : Qfi → Qfi
  to_delta x = if compact then from_delta_k x else x

  -- `ClearText(cs, x)` throws unless 0 <= x < cleartext_bound.
  unfoldable pub clear_text : ℕ → Result ℕ
  clear_text x = if ltb x cleartext_bound then ok x else err cleartext_range

  -- CG_Scheme::add.
  pub add : CipherText Qfi → CipherText Qfi → CipherText Qfi
  add c d = record { c1 = nucomp_g c.c1 d.c1; c2 = nucomp_delta c.c2 d.c2 }

  -- CG_Scheme::cmult.
  pub cmult : CipherText Qfi → ℕ → CipherText Qfi
  cmult c alpha = record { c1 = nupow_g c.c1 alpha; c2 = nupow_delta c.c2 alpha }

  -- CG_Scheme::rerand, with the randomness `r` that `encrypt` draws.
  pub rerand : Qfi → CipherText Qfi → ℕ → CipherText Qfi
  rerand pk c r = add c (encrypt pk 0 r)

  -- CG_Scheme::maulpk, with the `r` that it draws: it is `maul_pk` of cg_rf_common.hpp.
  pub maul_pk : Qfi → ℕ → Qfi
  maul_pk pk r = nucomp_g pk (power_of_h r)

  -- CG_Scheme::maulsk, with the `r` that it draws and the bound on secret keys.
  pub maulsk : ℕ → ℕ → ℕ → ℕ
  maulsk bound sk r = (sk + r) % bound

  pub maul_ct_forward : CipherText Qfi → ℕ → CipherText Qfi
  maul_ct_forward ct r = record { c1 = ct.c1; c2 = nucomp_delta ct.c2 (to_delta (nupow_g ct.c1 r)) }

  pub maul_ct_inverse : CipherText Qfi → ℕ → CipherText Qfi
  maul_ct_inverse ct r = record {
    c1 = ct.c1;
    c2 = nucompinv_delta ct.c2 (to_delta (nupow_g ct.c1 r));
  }

  pub maul_fwd_rerand : CipherText Qfi → ℕ → EncZero Qfi → CipherText Qfi
  maul_fwd_rerand ct r pre =
      let moved = to_delta (nupow_g ct.c1 r) in
      let c2_mauled = nucomp_delta ct.c2 moved in
      record { c1 = nucomp_g ct.c1 pre.R; c2 = nucomp_delta c2_mauled pre.E }

  pub maul_inv_rerand : CipherText Qfi → ℕ → EncZero Qfi → CipherText Qfi
  maul_inv_rerand ct r pre =
      let moved = to_delta (nupow_g ct.c1 r) in
      let c2_unmauled = nucompinv_delta ct.c2 moved in
      record { c1 = nucomp_g ct.c1 pre.R; c2 = nucomp_delta c2_unmauled pre.E }

  -- `make_enc_zero_pair`, with the randomness `s` that it draws. The second part stays in `Cl_G()`.
  pub make_enc_zero_pair : Qfi → ℕ → EncZero Qfi
  make_enc_zero_pair pk s = record { R = power_of_h s; E = cs.exponentiation pk s }
