-- ===== src/Scheme/Firewall.antt =====
-- The key-mauling transforms of the reverse firewalls move a ciphertext between related keys and
-- keep its plaintext.
use rf_class_groups.Base.{ℕ, ◌+◌, ◌*◌, ◌≡◌, refl, sym, ap, ◌∙◌, false, CipherText, arith}
use rf_class_groups.Scheme.{
  ClassGroups, EncZero, to_delta, maul_pk, maul_ct_forward, maul_ct_inverse, maul_fwd_rerand,
  maul_inv_rerand, make_enc_zero_pair, add, rerand,
}
use rf_class_groups.Scheme.Laws.{IsClassGroups}
use rf_class_groups.Scheme.Encryption.{
  Encrypts, add-Encrypts, encrypt-Encrypts, delta-pow_add, pow-power_h,
}
use mathlib.Core.Path.{subst}
use native.Mathlib.Nat.{add-zero}

module _ (cs : ClassGroups) (laws : IsClassGroups cs) where
  open cs use {Qfi, nucomp_g, nupow_g, nucomp_delta, nucompinv_delta, power_of_h, power_of_f}
  open laws use {
    assoc_delta, compinv-comp, power-add_h, power-zero_f, one-comp_delta, keygen-power,
    exponentiation-pow,
  }

  -- Mauling a public key by `r` gives the public key of `sk + r`.
  pub maul_pk-keygen : (sk r : ℕ) → maul_pk cs (cs.keygen sk) r ≡ cs.keygen (sk + r)
  unfolding maul_pk
  maul_pk-keygen sk r = rw (keygen-power sk, keygen-power (sk + r)) (sym (power-add_h sk r))

  -- Forward mauling by `r` moves a ciphertext from the key `sk` to the key `sk + r`.
  pub forward-Encrypts :
      (sk m r : ℕ) (ct : CipherText Qfi)
      → Encrypts cs laws sk m ct
      → Encrypts cs laws (sk + r) m (maul_ct_forward cs ct r)
  unfolding maul_ct_forward
  forward-Encrypts sk m r ct h =
      rw h (assoc_delta _ _ _ ∙ ap (nucomp_delta (power_of_f m)) (delta-pow_add cs laws ct.c1 sk r))

  -- Inverse mauling by `r` moves it back.
  pub inverse-Encrypts :
      (sk m r : ℕ) (ct : CipherText Qfi)
      → Encrypts cs laws (sk + r) m ct
      → Encrypts cs laws sk m (maul_ct_inverse cs ct r)
  unfolding maul_ct_inverse
  inverse-Encrypts sk m r ct h =
      ap (λ (e : Qfi). nucompinv_delta e (to_delta cs (nupow_g ct.c1 r)))
        (h ∙ (rw (← delta-pow_add cs laws ct.c1 sk r, ← assoc_delta)))
      ∙ compinv-comp _ _

  -- The pair blinds under the key `sk` and adds nothing to the plaintext.
  abbrev pub IsZero : ℕ → EncZero Qfi → Type 0
  IsZero sk pre = Encrypts cs laws sk 0 (record { c1 = pre.R; c2 = pre.E })

  -- In the non-compact variant the pair that the firewalls prepare under the public key of `sk` is an
  -- encryption of zero under `sk`.
  pub make_enc_zero_pair-IsZero :
      (sk s : ℕ) → cs.compact ≡ false → IsZero sk (make_enc_zero_pair cs (cs.keygen sk) s)
  unfolding make_enc_zero_pair to_delta
  make_enc_zero_pair-IsZero sk s plain =
      rw
        (
          exponentiation-pow,
          keygen-power sk,
          pow-power_h cs laws sk s,
          pow-power_h cs laws s sk,
          power-zero_f,
          one-comp_delta,
          plain,
        )
        (ap power_of_h {x = s * sk} {y = sk * s} (omega arith))

  fused_forward :
      (ct : CipherText Qfi) (r : ℕ) (pre : EncZero Qfi)
      → maul_fwd_rerand cs ct r pre
        ≡ add cs (maul_ct_forward cs ct r) (record { c1 = pre.R; c2 = pre.E })
  unfolding maul_fwd_rerand add maul_ct_forward
  fused_forward ct r pre = refl

  fused_inverse :
      (ct : CipherText Qfi) (r : ℕ) (pre : EncZero Qfi)
      → maul_inv_rerand cs ct r pre
        ≡ add cs (maul_ct_inverse cs ct r) (record { c1 = pre.R; c2 = pre.E })
  unfolding maul_inv_rerand add maul_ct_inverse
  fused_inverse ct r pre = refl

  zero_added :
      (sk m : ℕ) (c d : CipherText Qfi)
      → Encrypts cs laws sk m c
      → Encrypts cs laws sk 0 d
      → Encrypts cs laws sk m (add cs c d)
  zero_added sk m c d h k =
      subst (λ (n : ℕ). Encrypts cs laws sk n (add cs c d)) (add-zero m)
        (add-Encrypts cs laws sk m 0 c d h k)

  -- `maul_fwd_rerand` by `r`, with an encryption of zero under `sk + r`, turns a ciphertext that holds
  -- `m` under `sk` into one that holds `m` under `sk + r`.
  pub maul_fwd_rerand-Encrypts :
      (sk m r : ℕ) (ct : CipherText Qfi) (pre : EncZero Qfi)
      → Encrypts cs laws sk m ct
      → IsZero (sk + r) pre
      → Encrypts cs laws (sk + r) m (maul_fwd_rerand cs ct r pre)
  maul_fwd_rerand-Encrypts sk m r ct pre h z =
      rw (fused_forward ct r pre) (zero_added (sk + r) m _ _ (forward-Encrypts sk m r ct h) z)

  -- `maul_inv_rerand` by `r`, with an encryption of zero under `sk`, turns a ciphertext that holds `m`
  -- under `sk + r` into one that holds `m` under `sk`.
  pub maul_inv_rerand-Encrypts :
      (sk m r : ℕ) (ct : CipherText Qfi) (pre : EncZero Qfi)
      → Encrypts cs laws (sk + r) m ct
      → IsZero sk pre
      → Encrypts cs laws sk m (maul_inv_rerand cs ct r pre)
  maul_inv_rerand-Encrypts sk m r ct pre h z =
      rw (fused_inverse ct r pre) (zero_added sk m _ _ (inverse-Encrypts sk m r ct h) z)

  -- CG_Scheme::rerand under the public key of `sk` keeps the plaintext that a ciphertext holds under
  -- `sk`, in either variant.
  pub rerand-Encrypts :
      (sk m r : ℕ) (ct : CipherText Qfi)
      → Encrypts cs laws sk m ct
      → Encrypts cs laws sk m (rerand cs (cs.keygen sk) ct r)
  unfolding rerand
  rerand-Encrypts sk m r ct h = zero_added sk m ct _ h (encrypt-Encrypts cs laws sk 0 r)
