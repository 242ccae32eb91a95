-- ===== src/Network/Objects.antt =====
-- Forms, public keys and ciphertexts of cg_network.hpp on the wire.
use rf_class_groups.Base.{
  ◌≡◌, ℕ, List, ◌++◌, ℤ, Result, ok, ◌>>=◌, >>=-eq-ok, ok_injective, CipherText,
}
use rf_class_groups.Config.{Env}
use rf_class_groups.Network.{Gmp, IsGmp, send_mpz, recv_mpz}
use rf_class_groups.Network.Integers.{recv_mpz-send_mpz}
use mathlib.Core.List.{append_assoc}

-- BICYCL's binary quadratic forms: the coefficients, and the constructor, which throws where the
-- coefficients are not those of a reduced form.
pub record Forms : Type 1 where
  pub Qfi : Type 0
  pub a : Qfi → ℤ
  pub b : Qfi → ℤ
  pub c : Qfi → ℤ
  pub make : ℤ → ℤ → ℤ → Result Qfi

-- A form is rebuilt from its own coefficients.
pub record IsForms (f : Forms) : Type 0 where
  pub make_coefficients : (x : f.Qfi) → f.make (f.a x) (f.b x) (f.c x) ≡ ok x

module _ (g : Gmp) (getenv : Env) (f : Forms) where
  unfoldable pub send_qfi : f.Qfi → Result (List ℕ)
  send_qfi x = do
    a ← send_mpz g getenv (f.a x)
    b ← send_mpz g getenv (f.b x)
    c ← send_mpz g getenv (f.c x)
    ok (a ++ (b ++ c))

  pub recv_qfi : List ℕ → Result (f.Qfi × List ℕ)
  recv_qfi s = do
    (a, s₁) ← recv_mpz g getenv s
    (b, s₂) ← recv_mpz g getenv s₁
    (c, s₃) ← recv_mpz g getenv s₂
    x ← f.make a b c
    ok (x, s₃)

  -- A public key is sent as its group element.
  pub send_pk : f.Qfi → Result (List ℕ)
  send_pk pk = send_qfi pk

  pub recv_pk : List ℕ → Result (f.Qfi × List ℕ)
  recv_pk s = recv_qfi s

  unfoldable pub send_ct : CipherText f.Qfi → Result (List ℕ)
  send_ct ct = do a ← send_qfi ct.c1; b ← send_qfi ct.c2; ok (a ++ b)

  pub recv_ct : List ℕ → Result (CipherText f.Qfi × List ℕ)
  recv_ct s = do (a, s₁) ← recv_qfi s; (b, s₂) ← recv_qfi s₁; ok (record { c1 = a; c2 = b }, s₂)

  module _ (gmp_laws : IsGmp g) (form_laws : IsForms f) where
    parts :
        (x : f.Qfi) (a b c rest : List ℕ)
        → send_mpz g getenv (f.a x) ≡ ok a
        → send_mpz g getenv (f.b x) ≡ ok b
        → send_mpz g getenv (f.c x) ≡ ok c
        → recv_qfi ((a ++ (b ++ c)) ++ rest) ≡ ok (x, rest)
    unfolding recv_qfi
    parts x a b c rest ea eb ec = simp (
      append_assoc,
      recv_mpz-send_mpz g gmp_laws getenv (f.a x) a (b ++ (c ++ rest)) ea,
      recv_mpz-send_mpz g gmp_laws getenv (f.b x) b (c ++ rest) eb,
      recv_mpz-send_mpz g gmp_laws getenv (f.c x) c rest ec,
      form_laws.make_coefficients x,
    )

    -- A form that was sent is received as it was, whatever follows.
    pub recv_qfi-send_qfi :
        (x : f.Qfi) (bytes rest : List ℕ)
        → send_qfi x ≡ ok bytes
        → recv_qfi (bytes ++ rest) ≡ ok (x, rest)
    unfolding send_qfi
    recv_qfi-send_qfi x bytes rest h =
        let (a, ea, h₁) = >>=-eq-ok (send_mpz g getenv (f.a x)) _ h in
        let (b, eb, h₂) = >>=-eq-ok (send_mpz g getenv (f.b x)) _ h₁ in
        let (c, ec, h₃) = >>=-eq-ok (send_mpz g getenv (f.c x)) _ h₂ in
        rw (← ok_injective h₃) (parts x a b c rest ea eb ec)

    -- A ciphertext that `send_ct` wrote, `recv_ct` reads back as it was under the same settings, whatever
    -- follows.
    pub recv_ct-send_ct :
        (ct : CipherText f.Qfi) (bytes rest : List ℕ)
        → send_ct ct ≡ ok bytes
        → recv_ct (bytes ++ rest) ≡ ok (ct, rest)
    unfolding send_ct recv_ct
    recv_ct-send_ct ct bytes rest h =
        let (a, ea, h₁) = >>=-eq-ok (send_qfi ct.c1) _ h in
        let (b, eb, h₂) = >>=-eq-ok (send_qfi ct.c2) _ h₁ in
        rw (← ok_injective h₂) (
          simp (
            append_assoc,
            recv_qfi-send_qfi ct.c1 a (b ++ rest) ea,
            recv_qfi-send_qfi ct.c2 b rest eb,
          ))
