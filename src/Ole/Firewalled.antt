-- ===== src/Ole/Firewalled.antt =====
-- The batched OLE through both reverse firewalls computes what it specifies.
use rf_class_groups.Base.{
  ℕ, ◌+◌, ◌≤◌, ◌<◌, ◌≡◌, false, sym, ap, ◌∙◌, List, length, ==_refl, All, CipherText, ok,
}
use rf_class_groups.Scheme.{ClassGroups}
use rf_class_groups.Scheme.Laws.{IsClassGroups}
use rf_class_groups.Scheme.Firewall.{maul_pk-keygen}
use rf_class_groups.Ole.{
  Draws, Processes, Randomness, receiver_round1, rrf_round1, rrf_round2, srf_round1, srf_round2,
  sender_round, rf_ole_batch, direct_ole_batch, ole,
}
use rf_class_groups.Ole.Counts.{AcceptCount, validate_counts-AcceptCount}
use rf_class_groups.Ole.Chunks.{in_chunks-map_range}
use rf_class_groups.Ole.Direct.{direct_ole_batch-ole}
use rf_class_groups.Ole.Rounds.{
  AllEncrypt, Produces, plain_ole, encrypt_x-Produces, respond-Produces, forward-Produces,
  backward-Produces, decrypt-plain_ole,
}

module _ (cs : ClassGroups) (laws : IsClassGroups cs) where
  abbrev Cipher : Type 0
  Cipher = CipherText cs.Qfi

  receiver_round1-Produces :
      (chunk : ℕ) (r : Randomness) (xs : List ℕ)
      → 1 ≤ chunk
      → All (λ x. x < cs.cleartext_bound) xs
      → Produces cs laws r.sk xs (receiver_round1 cs chunk r xs)
  unfolding receiver_round1
  receiver_round1-Produces chunk r xs l h =
      rw (in_chunks-map_range _ chunk xs l) (encrypt_x-Produces cs laws r.sk r.receiver 0 xs h)

  rrf_round1-Produces :
      (chunk : ℕ) (r : Randomness) (ms : List ℕ) (c : List Cipher)
      → 1 ≤ chunk
      → cs.compact ≡ false
      → AllEncrypt cs laws r.sk ms c
      → Produces cs laws (r.sk + r.gamma) ms (rrf_round1 cs chunk (cs.keygen r.sk) r c)
  unfolding rrf_round1
  rrf_round1-Produces chunk r ms c l p h =
      rw (in_chunks-map_range _ chunk c l, maul_pk-keygen cs laws r.sk r.gamma)
        (forward-Produces cs laws r.sk r.gamma r.rrf_1 0 ms c p h)

  rrf_round2-Produces :
      (chunk : ℕ) (r : Randomness) (ms : List ℕ) (c : List Cipher)
      → 1 ≤ chunk
      → cs.compact ≡ false
      → AllEncrypt cs laws (r.sk + r.gamma) ms c
      → Produces cs laws r.sk ms (rrf_round2 cs chunk (cs.keygen r.sk) r c)
  unfolding rrf_round2
  rrf_round2-Produces chunk r ms c l p h =
      rw (in_chunks-map_range _ chunk c l)
        (backward-Produces cs laws r.sk r.gamma r.rrf_2 0 ms c p h)

  srf_round1-Produces :
      (chunk sk' : ℕ) (r : Randomness) (ms : List ℕ) (c : List Cipher)
      → 1 ≤ chunk
      → cs.compact ≡ false
      → AllEncrypt cs laws sk' ms c
      → Produces cs laws (sk' + r.rho) ms (srf_round1 cs chunk (cs.keygen sk') r c)
  unfolding srf_round1
  srf_round1-Produces chunk sk' r ms c l p h =
      rw (in_chunks-map_range _ chunk c l, maul_pk-keygen cs laws sk' r.rho)
        (forward-Produces cs laws sk' r.rho r.srf_1 0 ms c p h)

  srf_round2-Produces :
      (chunk sk' : ℕ) (r : Randomness) (ms : List ℕ) (c : List Cipher)
      → 1 ≤ chunk
      → cs.compact ≡ false
      → AllEncrypt cs laws (sk' + r.rho) ms c
      → Produces cs laws sk' ms (srf_round2 cs chunk (cs.keygen sk') r c)
  unfolding srf_round2
  srf_round2-Produces chunk sk' r ms c l p h =
      rw (in_chunks-map_range _ chunk c l) (backward-Produces cs laws sk' r.rho r.srf_2 0 ms c p h)

  sender_round-Produces :
      (fsk : ℕ) (r : Randomness) (xs as' bs : List ℕ) (c : List Cipher)
      → length as' ≡ length bs
      → All (λ b. b < cs.cleartext_bound) bs
      → AllEncrypt cs laws fsk xs c
      → Produces cs laws fsk (plain_ole xs as' bs) (sender_round cs (cs.keygen fsk) r as' bs c)
  unfolding sender_round
  sender_round-Produces fsk r xs as' bs c e h k =
      rw (e, ==_refl (length bs)) (respond-Produces cs laws fsk r.sender 0 xs as' bs c h k)

  -- In the non-compact variant, with vectors of one length that is at least 1
  -- and within the item limits of all four processes, inputs and offsets below the plaintext
  -- bound and a chunk size of at least 1, the batch through both firewalls ends without a failure,
  -- and its outputs are `a * x + b` modulo the plaintext bound, for every index, whatever the keys,
  -- the key shifts and the randomness.
  pub rf_ole_batch-ole :
      (chunk : ℕ) (p : Processes) (r : Randomness) (xs as' bs : List ℕ)
      → 1 ≤ chunk
      → AcceptCount p (length xs)
      → cs.compact ≡ false
      → length xs ≡ length as'
      → length as' ≡ length bs
      → All (λ x. x < cs.cleartext_bound) xs
      → All (λ b. b < cs.cleartext_bound) bs
      → rf_ole_batch cs chunk p r xs as' bs ≡ ok (ole cs.cleartext_bound xs as' bs)
  unfolding rf_ole_batch
  rf_ole_batch-ole chunk processes r xs as' bs l count p e f h k =
      let (c₁, e₁, h₁) = receiver_round1-Produces chunk r xs l h in
      let (c₂, e₂, h₂) = rrf_round1-Produces chunk r xs c₁ l p h₁ in
      let (c₃, e₃, h₃) = srf_round1-Produces chunk (r.sk + r.gamma) r xs c₂ l p h₂ in
      let (c₄, e₄, h₄) = sender_round-Produces (r.sk + r.gamma + r.rho) r xs as' bs c₃ f k h₃ in
      let (c₅, e₅, h₅) =
        srf_round2-Produces chunk (r.sk + r.gamma) r (plain_ole xs as' bs) c₄ l p h₄ in
      let (c₆, e₆, h₆) = rrf_round2-Produces chunk r (plain_ole xs as' bs) c₅ l p h₅ in
      rw
        (
          validate_counts-AcceptCount processes (length xs) count,
          e,
          f,
          ==_refl (length bs),
          e₁,
          e₂,
          maul_pk-keygen cs laws r.sk r.gamma,
          e₃,
          maul_pk-keygen cs laws (r.sk + r.gamma) r.rho,
          e₄,
          e₅,
          e₆,
        )
        (ap ok (decrypt-plain_ole cs laws r.sk xs as' bs c₆ h₆))

  -- The reverse firewalls do not change the function: in the non-compact variant, with vectors of one
  -- length that is at least 1 and within the item limits of all processes, inputs and offsets below the plaintext bound and chunk sizes of at least 1, the batch
  -- through them gives what the direct batch gives, whatever the randomness of either.
  pub rf_ole_batch-direct_ole_batch :
      (chunk chunk' sk : ℕ) (p : Processes) (r : Randomness) (rx rb : Draws) (xs as' bs : List ℕ)
      → 1 ≤ chunk
      → 1 ≤ chunk'
      → AcceptCount p (length xs)
      → cs.compact ≡ false
      → length xs ≡ length as'
      → length as' ≡ length bs
      → All (λ x. x < cs.cleartext_bound) xs
      → All (λ b. b < cs.cleartext_bound) bs
      → rf_ole_batch cs chunk p r xs as' bs
        ≡ direct_ole_batch cs chunk' p.receiver p.sender sk rx rb xs as' bs
  rf_ole_batch-direct_ole_batch chunk chunk' sk processes r rx rb xs as' bs l l' count p e f h k =
      rf_ole_batch-ole chunk processes r xs as' bs l count p e f h k
      ∙ sym (
          direct_ole_batch-ole cs laws chunk' processes.receiver processes.sender sk rx rb xs as' bs
            l' count.0 count.3 e f h k)
