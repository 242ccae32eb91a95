-- ===== src/Ole3/Correct.antt =====
-- The three-round OLE, direct and through both firewalls, computes what it specifies.
use rf_class_groups.Base.{
  ℕ, ◌+◌, ◌%◌, ◌≤◌, ◌<◌, ◌≡◌, false, sym, ap, ◌∙◌, List, map, length, length-map, All, ok,
}
use rf_class_groups.Scheme.{ClassGroups}
use rf_class_groups.Scheme.Laws.{IsClassGroups}
use rf_class_groups.Scheme.Firewall.{maul_pk-keygen}
use rf_class_groups.Config.{Env}
use rf_class_groups.Config.Limits.{AcceptsCount, accepted_count}
use rf_class_groups.Ole.{Processes, ole}
use rf_class_groups.Ole.Counts.{AcceptCount, validate_counts-AcceptCount}
use rf_class_groups.Ole.Rounds.{encrypt_x-Produces}
use rf_class_groups.Ole3.{
  RunDraws, FirewallDraws, sample_plain_blinds_ole3, blind_each, direct_ole3, rf_ole3,
  sanitized_ole,
}
use rf_class_groups.Ole3.Stages.{
  blinded, masked, mask_output-Produces, transform_ct_fwd_with_additive_blind_batch-Produces,
  transform_ct_fwd_batch-Produces, transform_ct_inv_batch-Produces, decrypt-AllEncrypt,
}
use rf_class_groups.Ole3.Masks.{
  unmask-masked, unmask-sanitized, add_plain_blind-blind_each, length-blind_each, length-blinded,
  length-masked, length-sample_plain_blinds_ole3,
}

module _ (cs : ClassGroups) (laws : IsClassGroups cs) where
  -- With numbers of items within the limits of both processes and with the sender's values and the receiver's masks below the plaintext bound, the direct protocol
  -- ends without a failure, and its outputs are `a * x + b` modulo the plaintext bound, whatever the
  -- key, the masks and the randomness.
  pub direct_ole3-ole :
      (env_r env_s : Env) (d : RunDraws) (xs as' bs : List ℕ)
      → AcceptsCount env_r (length xs)
      → AcceptsCount env_s (length as')
      → ((i : ℕ) → d.r_vals i < cs.cleartext_bound)
      → All (λ a. a < cs.cleartext_bound) as'
      → All (λ b. b < cs.cleartext_bound) bs
      → direct_ole3 cs env_r env_s d xs as' bs ≡ ok (ole cs.cleartext_bound xs as' bs)
  unfolding direct_ole3
  direct_ole3-ole env_r env_s d xs as' bs c c' r h k =
      let (ca, ea, ha) = encrypt_x-Produces cs laws d.sk d.enc_a 0 as' h in
      let (cb, eb, hb) = encrypt_x-Produces cs laws d.sk d.enc_b 0 bs k in
      let (y, ey, hy) = mask_output-Produces cs laws d d.sk 0 as' bs xs ca cb r ha hb in
      rw
        (
          accepted_count env_r (length xs) c,
          accepted_count env_s (length as') c',
          ea,
          eb,
          ey,
          decrypt-AllEncrypt cs laws d.sk (masked d.r_vals 0 as' bs xs) y hy,
        )
        (ap ok (unmask-masked cs.cleartext_bound d.r_vals 0 xs as' bs laws.bound_pos))

  -- In the non-compact variant, with vectors of one length that is at least 1 and within the
  -- item limits of all four processes, a chunk size of at least 1, and the
  -- sender's values, the receiver's masks and the firewalls' `a` blinds below the plaintext bound, the
  -- protocol through both firewalls ends without a failure, and its outputs are
  -- `(a + a' + a'') * x + (b + b' + b'')` modulo the plaintext bound, where the primed values are the
  -- blinds of the two firewalls, whatever the keys, the masks and the randomness.
  pub rf_ole3-sanitized_ole :
      (chunk : ℕ) (p : Processes) (d : RunDraws) (s f : FirewallDraws) (xs as' bs : List ℕ)
      → 1 ≤ chunk
      → AcceptCount p (length xs)
      → cs.compact ≡ false
      → length as' ≡ length xs
      → length bs ≡ length xs
      → ((i : ℕ) → d.r_vals i < cs.cleartext_bound)
      → ((i : ℕ) → s.a_blinds i < cs.cleartext_bound)
      → ((i : ℕ) → f.a_blinds i < cs.cleartext_bound)
      → All (λ a. a < cs.cleartext_bound) as'
      → All (λ b. b < cs.cleartext_bound) bs
      → rf_ole3 cs chunk p (length xs) d s f xs as' bs
        ≡ ok (sanitized_ole cs.cleartext_bound s f 0 xs as' bs)
  unfolding rf_ole3
  rf_ole3-sanitized_ole chunk processes d s f xs as' bs l count p ea eb r sa fa h k =
      let q = cs.cleartext_bound in
      let n = length xs in
      let sk₁ = d.sk + s.rho in
      let A₁ = blinded s.a_blinds 0 as' in
      let A₂ = blinded f.a_blinds 0 A₁ in
      let M = masked d.r_vals 0 A₂ bs xs in
      let (a₀, ea₀, ha₀) = encrypt_x-Produces cs laws d.sk d.enc_a 0 as' h in
      let (b₀, eb₀, hb₀) = encrypt_x-Produces cs laws d.sk d.enc_b 0 bs k in
      let (a₁, ea₁, ha₁) =
        transform_ct_fwd_with_additive_blind_batch-Produces cs laws chunk s d.sk as' a₀ l p sa
          ha₀ in
      let (b₁, eb₁, hb₁) = transform_ct_fwd_batch-Produces cs laws chunk s d.sk bs b₀ l p hb₀ in
      let (a₂, ea₂, ha₂) =
        transform_ct_fwd_with_additive_blind_batch-Produces cs laws chunk f sk₁ A₁ a₁ l p fa ha₁ in
      let (b₂, eb₂, hb₂) = transform_ct_fwd_batch-Produces cs laws chunk f sk₁ bs b₁ l p hb₁ in
      let (y₂, ey₂, hy₂) =
        mask_output-Produces cs laws d (sk₁ + f.rho) 0 A₂ bs xs a₂ b₂ r ha₂ hb₂ in
      let (y₁, ey₁, hy₁) = transform_ct_inv_batch-Produces cs laws chunk f sk₁ M y₂ l p hy₂ in
      let (y₀, ey₀, hy₀) = transform_ct_inv_batch-Produces cs laws chunk s d.sk M y₁ l p hy₁ in
      let z₀ = map (λ m. m % q) M in
      let ds = sample_plain_blinds_ole3 n s.b_blinds 0 in
      let df = sample_plain_blinds_ole3 n f.b_blinds 0 in
      let size₀ : length z₀ ≡ n =
        length-map M (λ m. m % q)
        ∙ length-masked d.r_vals 0 A₂ bs xs
            (length-blinded f.a_blinds 0 A₁ ∙ length-blinded s.a_blinds 0 as' ∙ ea) eb in
      let size_s : length z₀ ≡ length ds =
        size₀ ∙ sym (length-sample_plain_blinds_ole3 n s.b_blinds 0) in
      let size_f : length (blind_each q z₀ ds) ≡ length df =
        length-blind_each q z₀ ds size_s
        ∙ size₀
        ∙ sym (length-sample_plain_blinds_ole3 n f.b_blinds 0) in
      rw
        (
          validate_counts-AcceptCount processes n count,
          maul_pk-keygen cs laws d.sk s.rho,
          maul_pk-keygen cs laws sk₁ f.rho,
          ea₀,
          eb₀,
          ea₁,
          eb₁,
          ea₂,
          eb₂,
          ey₂,
          ey₁,
          ey₀,
          decrypt-AllEncrypt cs laws d.sk M y₀ hy₀,
          add_plain_blind-blind_each z₀ ds q size_s,
          add_plain_blind-blind_each (blind_each q z₀ ds) df q size_f,
        )
        (ap ok (unmask-sanitized q d.r_vals s f 0 xs as' bs laws.bound_pos ea eb))
