-- ===== src/Ole3/Stages.antt =====
-- What each ciphertext stage of the three-round OLE does to a vector.
use rf_class_groups.Base.{
  ℕ, suc, ◌+◌, ◌*◌, ◌%◌, ◌≤◌, ◌<◌, ◌≡◌, false, refl, List, [], ◌∷◌, map, CipherText,
}
use rf_class_groups.Scheme.{ClassGroups, add, cmult, maul_fwd_rerand, make_enc_zero_pair}
use rf_class_groups.Scheme.Laws.{IsClassGroups}
use rf_class_groups.Scheme.Encryption.{
  Encrypts, decrypt-Encrypts, encrypt-Encrypts, add-Encrypts, cmult-Encrypts,
}
use rf_class_groups.Scheme.Firewall.{make_enc_zero_pair-IsZero, maul_fwd_rerand-Encrypts}
use mathlib.Core.Path.{subst}
use native.Mathlib.Nat.{mul_comm}
use rf_class_groups.Ole.{Draws, map_range}
use rf_class_groups.Ole.Chunks.{in_chunks-map_range}
use rf_class_groups.Ole.Rounds.{
  AllEncrypt, Produces, push, clear_text-ok, forward-Produces, backward-Produces,
}
use rf_class_groups.Ole3.{
  RunDraws, FirewallDraws, terms, mask_output, blind_forward,
  transform_ct_fwd_with_additive_blind_batch, transform_ct_fwd_batch, transform_ct_inv_batch,
}

-- The plaintexts after a blind, from index `i` on.
abbrev pub blinded : Draws → ℕ → List ℕ → List ℕ
blinded draws i [] = []
blinded draws i (a ∷ as') = (a + draws i) ∷ blinded draws (suc i) as'

-- The masked outputs `a * x + b + r`, not reduced.
abbrev pub masked : Draws → ℕ → List ℕ → List ℕ → List ℕ → List ℕ
masked r i (a ∷ as') (b ∷ bs) (x ∷ xs) = (a * x + b + r i) ∷ masked r (suc i) as' bs xs
masked r i _ _ _ = []

module _ (cs : ClassGroups) (laws : IsClassGroups cs) where
  abbrev Cipher : Type 0
  Cipher = CipherText cs.Qfi

  -- Round 2: the receiver's answers hold the masked outputs.
  pub mask_output-Produces :
      (d : RunDraws) (sk i : ℕ) (as' bs xs : List ℕ) (ca cb : List Cipher)
      → ((j : ℕ) → d.r_vals j < cs.cleartext_bound)
      → AllEncrypt cs laws sk as' ca
      → AllEncrypt cs laws sk bs cb
      → Produces cs laws sk
          (masked d.r_vals i as' bs xs)
          (map_range (mask_output cs (cs.keygen sk) d) i (terms ca cb xs))
  mask_output-Produces d sk i [] bs xs [] cb h k l = ([], unfold map_range in refl, tt)
  mask_output-Produces d sk i (a ∷ as') [] xs (c ∷ ca) [] h k l = ([], unfold map_range in refl, tt)
  mask_output-Produces d sk i (a ∷ as') (b ∷ bs) [] (c ∷ ca) (e ∷ cb) h k l =
      ([], unfold map_range in refl, tt)
  mask_output-Produces d sk i (a ∷ as') (b ∷ bs) (x ∷ xs) (c ∷ ca) (e ∷ cb) h (k, ks) (l, ls) =
      let enc_r = cs.encrypt (cs.keygen sk) (d.r_vals i) (d.enc_r i) in
      push cs laws (mask_output cs (cs.keygen sk) d) i (record { enc_a = c; enc_b = e; x = x })
        (terms ca cb xs) sk (a * x + b + d.r_vals i) (masked d.r_vals (suc i) as' bs xs)
        (add cs (add cs (cmult cs c x) e) enc_r)
        (unfold mask_output in rw (clear_text-ok cs laws (d.r_vals i) (h i)))
        (add-Encrypts cs laws sk (a * x + b) (d.r_vals i) _ _
          (add-Encrypts cs laws sk (a * x) b _ _ (multiplied a x c k) l)
          (encrypt-Encrypts cs laws sk (d.r_vals i) (d.enc_r i)))
        (mask_output-Produces d sk (suc i) as' bs xs ca cb h ks ls)
    where
      multiplied :
          (m n : ℕ) (ct : Cipher)
          → Encrypts cs laws sk m ct
          → Encrypts cs laws sk (m * n) (cmult cs ct n)
      multiplied m n ct z =
          subst (λ (t : ℕ). Encrypts cs laws sk t (cmult cs ct n)) (mul_comm n m)
            (cmult-Encrypts cs laws sk m n ct z)
  mask_output-Produces d sk i [] bs xs (c ∷ ca) cb h k l = absurd k
  mask_output-Produces d sk i (a ∷ as') bs xs [] cb h k l = absurd k
  mask_output-Produces d sk i (a ∷ as') [] xs (c ∷ ca) (e ∷ cb) h k l = absurd l
  mask_output-Produces d sk i (a ∷ as') (b ∷ bs) xs (c ∷ ca) [] h k l = absurd l

  blind_forward-Produces :
      (f : FirewallDraws) (sk i : ℕ) (ms : List ℕ) (c : List Cipher)
      → cs.compact ≡ false
      → ((j : ℕ) → f.a_blinds j < cs.cleartext_bound)
      → AllEncrypt cs laws sk ms c
      → Produces cs laws
          (sk + f.rho)
          (blinded f.a_blinds i ms)
          (map_range (blind_forward cs (cs.keygen sk) (cs.keygen (sk + f.rho)) f) i c)
  blind_forward-Produces f sk i [] [] p h k = ([], unfold map_range in refl, tt)
  blind_forward-Produces f sk i (m ∷ ms) (c ∷ cs') p h (k, ks) =
      let added = add cs c (cs.encrypt (cs.keygen sk) (f.a_blinds i) (f.enc_blind i)) in
      let pre = make_enc_zero_pair cs (cs.keygen (sk + f.rho)) (f.zero_a i) in
      push cs laws (blind_forward cs (cs.keygen sk) (cs.keygen (sk + f.rho)) f) i c cs' (sk + f.rho)
        (m + f.a_blinds i) (blinded f.a_blinds (suc i) ms) (maul_fwd_rerand cs added f.rho pre)
        (unfold blind_forward in rw (clear_text-ok cs laws (f.a_blinds i) (h i)))
        (maul_fwd_rerand-Encrypts cs laws sk (m + f.a_blinds i) f.rho added pre
          (add-Encrypts cs laws sk m (f.a_blinds i) c _ k
            (encrypt-Encrypts cs laws sk (f.a_blinds i) (f.enc_blind i)))
          (make_enc_zero_pair-IsZero cs laws (sk + f.rho) (f.zero_a i) p))
        (blind_forward-Produces f sk (suc i) ms cs' p h ks)
  blind_forward-Produces f sk i [] (c ∷ cs') p h k = absurd k
  blind_forward-Produces f sk i (m ∷ ms) [] p h k = absurd k

  -- Round 1, the encrypted `a`: blinded and moved to the firewall's outgoing key.
  pub transform_ct_fwd_with_additive_blind_batch-Produces :
      (chunk : ℕ) (f : FirewallDraws) (sk : ℕ) (ms : List ℕ) (c : List Cipher)
      → 1 ≤ chunk
      → cs.compact ≡ false
      → ((j : ℕ) → f.a_blinds j < cs.cleartext_bound)
      → AllEncrypt cs laws sk ms c
      → Produces cs laws (sk + f.rho) (blinded f.a_blinds 0 ms) (
          transform_ct_fwd_with_additive_blind_batch cs chunk
            (cs.keygen sk)
            (cs.keygen (sk + f.rho))
            f
            c)
  unfolding transform_ct_fwd_with_additive_blind_batch
  transform_ct_fwd_with_additive_blind_batch-Produces chunk f sk ms c l p h k =
      rw (in_chunks-map_range _ chunk c l) (blind_forward-Produces f sk 0 ms c p h k)

  -- Round 1, the encrypted `b`: moved only.
  pub transform_ct_fwd_batch-Produces :
      (chunk : ℕ) (f : FirewallDraws) (sk : ℕ) (ms : List ℕ) (c : List Cipher)
      → 1 ≤ chunk
      → cs.compact ≡ false
      → AllEncrypt cs laws sk ms c
      → Produces cs laws
          (sk + f.rho)
          ms
          (transform_ct_fwd_batch cs chunk (cs.keygen (sk + f.rho)) f c)
  unfolding transform_ct_fwd_batch
  transform_ct_fwd_batch-Produces chunk f sk ms c l p k =
      rw (in_chunks-map_range _ chunk c l) (forward-Produces cs laws sk f.rho f.zero_b 0 ms c p k)

  -- Round 2: moved back.
  pub transform_ct_inv_batch-Produces :
      (chunk : ℕ) (f : FirewallDraws) (sk : ℕ) (ms : List ℕ) (c : List Cipher)
      → 1 ≤ chunk
      → cs.compact ≡ false
      → AllEncrypt cs laws (sk + f.rho) ms c
      → Produces cs laws sk ms (transform_ct_inv_batch cs chunk (cs.keygen sk) f c)
  unfolding transform_ct_inv_batch
  transform_ct_inv_batch-Produces chunk f sk ms c l p k =
      rw (in_chunks-map_range _ chunk c l) (backward-Produces cs laws sk f.rho f.zero_y 0 ms c p k)

  -- Decryption reduces every plaintext.
  pub decrypt-AllEncrypt :
      (sk : ℕ) (ms : List ℕ) (ds : List Cipher)
      → AllEncrypt cs laws sk ms ds
      → map (cs.decrypt sk) ds ≡ map (λ m. m % cs.cleartext_bound) ms
  decrypt-AllEncrypt sk [] [] h = refl
  decrypt-AllEncrypt sk (m ∷ ms) (d ∷ ds) (h, hs) =
      rw (decrypt-Encrypts cs laws sk m d h, decrypt-AllEncrypt sk ms ds hs)
  decrypt-AllEncrypt sk [] (d ∷ ds) h = absurd h
  decrypt-AllEncrypt sk (m ∷ ms) [] h = absurd h
