-- ===== src/Scheme/Encryption.antt =====
-- The homomorphic operations of CG_Scheme act on the plaintext as they should.
use rf_class_groups.Base.{ℕ, zero, suc, ◌+◌, ◌*◌, ◌%◌, ◌≡◌, sym, ap, ◌∙◌, CipherText, arith}
use rf_class_groups.Scheme.{ClassGroups, to_delta, add, cmult}
use mathlib.Core.Path.{subst}
use rf_class_groups.Scheme.Laws.{IsClassGroups}

module _ (cs : ClassGroups) (laws : IsClassGroups cs) where
  open cs use {
    Qfi, nucomp_g, nupow_g, nucomp_delta, nucompinv_delta, nupow_delta, power_of_h, power_of_f,
  }
  open laws use {
    one_g, one_delta, assoc_g, comm_g, one-comp_g, pow-zero_g, pow-suc_g, assoc_delta, comm_delta,
    one-comp_delta, pow-zero_delta, pow-suc_delta, compinv-comp, delta-one, delta-comp,
    power-zero_h, power-add_h, power-zero_f, power-add_f, keygen-power, exponentiation-pow,
    encrypt-c1, encrypt-c2, decrypt-power,
  }

  -- The ciphertext holds `m` under the secret key `sk`: c2 = f^m * c1^sk, moved to Cl_Delta().
  abbrev pub Encrypts : ℕ → ℕ → CipherText Qfi → Type 0
  Encrypts sk m ct = ct.c2 ≡ nucomp_delta (power_of_f m) (to_delta cs (nupow_g ct.c1 sk))

  -- Decryption of a ciphertext that holds `m` gives `m` modulo the plaintext bound.
  pub decrypt-Encrypts :
      (sk m : ℕ) (ct : CipherText Qfi)
      → Encrypts sk m ct
      → cs.decrypt sk ct ≡ m % cs.cleartext_bound
  decrypt-Encrypts sk m ct h = decrypt-power sk ct m (rw h (compinv-comp _ _))

  interchange_g :
      (x y z w : Qfi)
      → nucomp_g (nucomp_g x y) (nucomp_g z w) ≡ nucomp_g (nucomp_g x z) (nucomp_g y w)
  interchange_g x y z w = rw (assoc_g x y, assoc_g x z, ← assoc_g y z, comm_g y z, assoc_g z y)

  interchange_delta :
      (x y z w : Qfi)
      → nucomp_delta (nucomp_delta x y) (nucomp_delta z w)
        ≡ nucomp_delta (nucomp_delta x z) (nucomp_delta y w)
  interchange_delta x y z w =
      rw (assoc_delta x y, assoc_delta x z, ← assoc_delta y z, comm_delta y z, assoc_delta z y)

  pow-add_g : (x : Qfi) (m n : ℕ) → nupow_g x (m + n) ≡ nucomp_g (nupow_g x m) (nupow_g x n)
  pow-add_g x zero n = rw (pow-zero_g, one-comp_g) (ap (nupow_g x) {x = zero + n} (omega arith))
  pow-add_g x (suc m) n =
      ap (nupow_g x) {x = suc m + n} {y = suc (m + n)} (omega arith)
      ∙ rw (pow-suc_g x (m + n), pow-add_g x m n, pow-suc_g x m, assoc_g)

  pow-comp_g : (x y : Qfi) (n : ℕ) → nupow_g (nucomp_g x y) n ≡ nucomp_g (nupow_g x n) (nupow_g y n)
  pow-comp_g x y zero = rw (pow-zero_g (nucomp_g x y), pow-zero_g x, pow-zero_g y, one-comp_g)
  pow-comp_g x y (suc n) =
      rw (pow-suc_g (nucomp_g x y) n, pow-comp_g x y n, pow-suc_g x n, pow-suc_g y n)
        (interchange_g _ _ _ _)

  pow-one_g : (n : ℕ) → nupow_g one_g n ≡ one_g
  pow-one_g zero = pow-zero_g one_g
  pow-one_g (suc n) = rw (pow-suc_g one_g n, pow-one_g n) (one-comp_g one_g)

  -- Powers of h, whichever exponent comes first.
  pub pow-power_h : (a n : ℕ) → nupow_g (power_of_h a) n ≡ power_of_h (n * a)
  pow-power_h a zero =
      pow-zero_g (power_of_h a)
      ∙ sym power-zero_h
      ∙ ap power_of_h {x = 0} {y = zero * a} (omega arith)
  pow-power_h a (suc n) =
      pow-suc_g (power_of_h a) n
      ∙ (rw (pow-power_h a n, ← power-add_h a (n * a)))
      ∙ ap power_of_h {x = a + n * a} {y = suc n * a} (omega arith)

  pub delta-pow_add :
      (x : Qfi) (m n : ℕ)
      → nucomp_delta (to_delta cs (nupow_g x m)) (to_delta cs (nupow_g x n))
        ≡ to_delta cs (nupow_g x (m + n))
  delta-pow_add x m n = sym (delta-comp _ _) ∙ ap (to_delta cs) (sym (pow-add_g x m n))

  -- `encrypt` under a key pair holds its plaintext.
  pub encrypt-Encrypts : (sk m r : ℕ) → Encrypts sk m (cs.encrypt (cs.keygen sk) m r)
  encrypt-Encrypts sk m r =
      encrypt-c2 (cs.keygen sk) m r
      ∙ ap (λ (e : Qfi). nucomp_delta (to_delta cs e) (power_of_f m))
          (exponentiation-pow (cs.keygen sk) r)
      ∙ comm_delta _ _
      ∙ ap (λ (e : Qfi). nucomp_delta (power_of_f m) (to_delta cs e)) same
    where
      same : nupow_g (cs.keygen sk) r ≡ nupow_g ((cs.encrypt (cs.keygen sk) m r).c1) sk
      same =
          rw (encrypt-c1 (cs.keygen sk) m r, keygen-power sk, pow-power_h sk r, pow-power_h r sk)
            (ap power_of_h {x = r * sk} {y = sk * r} (omega arith))

  -- `add` turns ciphertexts that hold `m` and `n` under one key into one that holds `m + n`.
  pub add-Encrypts :
      (sk m n : ℕ) (c d : CipherText Qfi)
      → Encrypts sk m c
      → Encrypts sk n d
      → Encrypts sk (m + n) (add cs c d)
  unfolding add
  add-Encrypts sk m n c d h k =
      rw (h, k, pow-comp_g c.c1 d.c1 sk, delta-comp, power-add_f m n) (interchange_delta _ _ _ _)

  cmult-suc : (c : CipherText Qfi) (a : ℕ) → cmult cs c (suc a) ≡ add cs c (cmult cs c a)
  unfolding add cmult
  cmult-suc c a = λ i. record { c1 = pow-suc_g c.c1 a i; c2 = pow-suc_delta c.c2 a i }

  -- `cmult` by `a` turns a ciphertext that holds `m` into one that holds `a * m`, under the same key.
  pub cmult-Encrypts :
      (sk m a : ℕ) (c : CipherText Qfi) → Encrypts sk m c → Encrypts sk (a * m) (cmult cs c a)
  cmult-Encrypts sk m zero c h =
      unfold cmult in
      pow-zero_delta c.c2
      ∙ sym (
          rw (pow-zero_g c.c1, pow-one_g sk, delta-one)
            (ap (λ (k : ℕ). nucomp_delta (power_of_f k) one_delta) {x = zero * m} {y = 0}
                (omega arith)
              ∙ rw power-zero_f (one-comp_delta one_delta)))
  cmult-Encrypts sk m (suc a) c h = rw (cmult-suc c a) (
      subst (λ (k : ℕ). Encrypts sk k (add cs c (cmult cs c a))) {x = m + a * m} {y = suc a * m}
        (omega arith) (add-Encrypts sk m (a * m) c (cmult cs c a) h (cmult-Encrypts sk m a c h)))
