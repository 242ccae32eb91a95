-- ===== src/Ole/Rounds.antt =====
-- What each stage of a batched OLE does to a whole vector of ciphertexts.
use rf_class_groups.Base.{
  ℕ, suc, ◌+◌, ◌*◌, ◌<◌, ◌≡◌, false, refl, List, [], ◌∷◌, map, All, lt→ltb, CipherText, Result, ok,
}
use rf_class_groups.Scheme.{
  ClassGroups, clear_text, add, cmult, make_enc_zero_pair, maul_fwd_rerand, maul_inv_rerand,
}
use rf_class_groups.Scheme.Laws.{IsClassGroups}
use rf_class_groups.Scheme.Encryption.{
  Encrypts, decrypt-Encrypts, encrypt-Encrypts, add-Encrypts, cmult-Encrypts,
}
use rf_class_groups.Scheme.Firewall.{
  make_enc_zero_pair-IsZero, maul_fwd_rerand-Encrypts, maul_inv_rerand-Encrypts,
}
use rf_class_groups.Ole.{
  Draws, map_range, zip_with_cipher, encrypt_x, respond, forward, backward, ole,
}

-- `a * x + b`, not reduced.
abbrev pub plain_ole : List ℕ → List ℕ → List ℕ → List ℕ
plain_ole (x ∷ xs) (a ∷ as') (b ∷ bs) = (a * x + b) ∷ plain_ole xs as' bs
plain_ole _ _ _ = []

module _ (cs : ClassGroups) (laws : IsClassGroups cs) where
  abbrev Cipher : Type 0
  Cipher = CipherText cs.Qfi

  -- The ciphertexts hold the plaintexts, one by one, under `sk`.
  abbrev pub AllEncrypt : ℕ → List ℕ → List Cipher → Type 0
  AllEncrypt sk (m ∷ ms) (c ∷ cs') = Encrypts cs laws sk m c × AllEncrypt sk ms cs'
  AllEncrypt sk [] [] = Unit
  AllEncrypt sk [] (c ∷ cs') = ⊥
  AllEncrypt sk (m ∷ ms) [] = ⊥

  -- The computation ends without a failure, in ciphertexts that hold `ms`.
  abbrev pub Produces : ℕ → List ℕ → Result (List Cipher) → Type 0
  Produces sk ms r = (ds : List Cipher) × (r ≡ ok ds) × AllEncrypt sk ms ds

  -- One more index at the front of a round.
  pub push :
      {A : Type 0} (f : ℕ → A → Result Cipher) (i : ℕ) (x : A) (xs : List A) (sk m : ℕ)
      (ms : List ℕ) (d : Cipher)
      → f i x ≡ ok d
      → Encrypts cs laws sk m d
      → Produces sk ms (map_range f (suc i) xs)
      → Produces sk (m ∷ ms) (map_range f i (x ∷ xs))
  unfolding map_range
  push f i x xs sk m ms d e h (ds, es, hs) = (d ∷ ds, rw (e, es), (h, hs))

  stage :
      (sk sk' : ℕ) (f : ℕ → Cipher → Result Cipher)
      → ((i m : ℕ) (c : Cipher)
          → Encrypts cs laws sk m c
          → (d : Cipher) × (f i c ≡ ok d) × Encrypts cs laws sk' m d)
      → (i : ℕ) (ms : List ℕ) (cs' : List Cipher) → AllEncrypt sk ms cs'
      → Produces sk' ms (map_range f i cs')
  stage sk sk' f each i [] [] h = ([], unfold map_range in refl, tt)
  stage sk sk' f each i (m ∷ ms) (c ∷ cs') (h, hs) =
      let one = each i m c h in
      push f i c cs' sk' m ms one.0 one.1 one.2 (stage sk sk' f each (suc i) ms cs' hs)
  stage sk sk' f each i [] (c ∷ cs') h = absurd h
  stage sk sk' f each i (m ∷ ms) [] h = absurd h

  -- A value below the bound is a cleartext.
  pub clear_text-ok : (x : ℕ) → x < cs.cleartext_bound → clear_text cs x ≡ ok x
  unfolding clear_text
  clear_text-ok x h = rw (lt→ltb x cs.cleartext_bound h)

  -- The receiver's first message holds its inputs.
  pub encrypt_x-Produces :
      (sk : ℕ) (draws : Draws) (i : ℕ) (xs : List ℕ)
      → All (λ x. x < cs.cleartext_bound) xs
      → Produces sk xs (map_range (encrypt_x cs (cs.keygen sk) draws) i xs)
  encrypt_x-Produces sk draws i [] h = ([], unfold map_range in refl, tt)
  encrypt_x-Produces sk draws i (x ∷ xs) (h, hs) =
      push _ i x xs sk x xs (cs.encrypt (cs.keygen sk) x (draws i))
        (unfold encrypt_x in rw (clear_text-ok x h)) (encrypt-Encrypts cs laws sk x (draws i))
        (encrypt_x-Produces sk draws (suc i) xs hs)

  -- The sender's answers hold `a * x + b`.
  pub respond-Produces :
      (sk : ℕ) (draws : Draws) (i : ℕ) (xs as' bs : List ℕ) (cs' : List Cipher)
      → All (λ b. b < cs.cleartext_bound) bs
      → AllEncrypt sk xs cs'
      → Produces sk
          (plain_ole xs as' bs)
          (map_range (respond cs (cs.keygen sk) draws) i (zip_with_cipher cs' as' bs))
  respond-Produces sk draws i [] as' bs [] h k = ([], unfold map_range in refl, tt)
  respond-Produces sk draws i (x ∷ xs) [] bs (c ∷ cs') h k = ([], unfold map_range in refl, tt)
  respond-Produces sk draws i (x ∷ xs) (a ∷ as') [] (c ∷ cs') h k =
      ([], unfold map_range in refl, tt)
  respond-Produces sk draws i (x ∷ xs) (a ∷ as') (b ∷ bs) (c ∷ cs') (h, hs) (k, ks) =
      push (respond cs (cs.keygen sk) draws) i (c, record { a = a; b = b })
        (zip_with_cipher cs' as' bs) sk (a * x + b) (plain_ole xs as' bs)
        (add cs (cmult cs c a) (cs.encrypt (cs.keygen sk) b (draws i)))
        (unfold respond in rw (clear_text-ok b h))
        (add-Encrypts cs laws sk (a * x) b _ _ (cmult-Encrypts cs laws sk x a c k)
          (encrypt-Encrypts cs laws sk b (draws i)))
        (respond-Produces sk draws (suc i) xs as' bs cs' hs ks)
  respond-Produces sk draws i [] as' bs (c ∷ cs') h k = absurd k
  respond-Produces sk draws i (x ∷ xs) as' bs [] h k = absurd k

  forward_eq :
      (pk : cs.Qfi) (rho : ℕ) (draws : Draws) (i : ℕ) (c : Cipher)
      → forward cs pk rho draws i c
        ≡ ok (maul_fwd_rerand cs c rho (make_enc_zero_pair cs pk (draws i)))
  unfolding forward
  forward_eq pk rho draws i c = refl

  backward_eq :
      (pk : cs.Qfi) (rho : ℕ) (draws : Draws) (i : ℕ) (c : Cipher)
      → backward cs pk rho draws i c
        ≡ ok (maul_inv_rerand cs c rho (make_enc_zero_pair cs pk (draws i)))
  unfolding backward
  backward_eq pk rho draws i c = refl

  -- A firewall's first round moves the ciphertexts to the shifted key.
  pub forward-Produces :
      (sk rho : ℕ) (draws : Draws) (i : ℕ) (ms : List ℕ) (cs' : List Cipher)
      → cs.compact ≡ false
      → AllEncrypt sk ms cs'
      → Produces (sk + rho) ms (map_range (forward cs (cs.keygen (sk + rho)) rho draws) i cs')
  forward-Produces sk rho draws i ms cs' plain =
      stage sk (sk + rho) (forward cs (cs.keygen (sk + rho)) rho draws)
        (λ j m c h. (
          maul_fwd_rerand cs c rho (make_enc_zero_pair cs (cs.keygen (sk + rho)) (draws j)),
          forward_eq (cs.keygen (sk + rho)) rho draws j c,
          maul_fwd_rerand-Encrypts cs laws sk m rho c _ h
              (make_enc_zero_pair-IsZero cs laws (sk + rho) (draws j) plain),
        ))
        i ms cs'

  -- Its second round moves them back.
  pub backward-Produces :
      (sk rho : ℕ) (draws : Draws) (i : ℕ) (ms : List ℕ) (cs' : List Cipher)
      → cs.compact ≡ false
      → AllEncrypt (sk + rho) ms cs'
      → Produces sk ms (map_range (backward cs (cs.keygen sk) rho draws) i cs')
  backward-Produces sk rho draws i ms cs' plain =
      stage (sk + rho) sk (backward cs (cs.keygen sk) rho draws)
        (λ j m c h. (
          maul_inv_rerand cs c rho (make_enc_zero_pair cs (cs.keygen sk) (draws j)),
          backward_eq (cs.keygen sk) rho draws j c,
          maul_inv_rerand-Encrypts cs laws sk m rho c _ h
              (make_enc_zero_pair-IsZero cs laws sk (draws j) plain),
        ))
        i ms cs'

  -- Decrypting ciphertexts that hold `a * x + b` gives the specified outputs.
  pub decrypt-plain_ole :
      (sk : ℕ) (xs as' bs : List ℕ) (ds : List Cipher)
      → AllEncrypt sk (plain_ole xs as' bs) ds
      → map (cs.decrypt sk) ds ≡ ole cs.cleartext_bound xs as' bs
  unfolding ole
  decrypt-plain_ole sk [] as' bs [] h = refl
  decrypt-plain_ole sk (x ∷ xs) [] bs [] h = refl
  decrypt-plain_ole sk (x ∷ xs) (a ∷ as') [] [] h = refl
  decrypt-plain_ole sk (x ∷ xs) (a ∷ as') (b ∷ bs) (d ∷ ds) (h, hs) =
      rw (decrypt-Encrypts cs laws sk (a * x + b) d h, decrypt-plain_ole sk xs as' bs ds hs)
  decrypt-plain_ole sk [] as' bs (d ∷ ds) h = absurd h
  decrypt-plain_ole sk (x ∷ xs) [] bs (d ∷ ds) h = absurd h
  decrypt-plain_ole sk (x ∷ xs) (a ∷ as') [] (d ∷ ds) h = absurd h
  decrypt-plain_ole sk (x ∷ xs) (a ∷ as') (b ∷ bs) [] h = absurd h
