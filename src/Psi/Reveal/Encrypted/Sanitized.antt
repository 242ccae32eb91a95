-- ===== src/Psi/Reveal/Encrypted/Sanitized.antt =====
-- The reverse firewalls do not change the reveal, and what two-way PSI through them outputs.
use rf_class_groups.Base.{
  ℕ, zero, suc, ◌+◌, ◌≤◌, ◌<◌, ◌≡◌, inl, inr, refl, false, Bool-cases, ltb, List, [], ◌∷◌, map,
  length, All, CipherText, Result, ok, ◌>>=◌, ◌>>◌, ap, arith,
}
use native.Mathlib.Nat.{mod-eq_of_lt}
use rf_class_groups.Config.{Env, cg_max_items}
use rf_class_groups.Scheme.{ClassGroups}
use rf_class_groups.Scheme.Laws.{IsClassGroups}
use rf_class_groups.Scheme.Encryption.{decrypt-Encrypts}
use rf_class_groups.Scheme.Firewall.{maul_pk-keygen}
use rf_class_groups.Ole.{Processes, validate_counts}
use rf_class_groups.Ole.Chunks.{in_chunks-map_range}
use rf_class_groups.Ole.Rounds.{AllEncrypt, Produces, encrypt_x-Produces, backward-Produces}
use rf_class_groups.Psi.Input.{read_values-ok, read_mpz_list_file-ok}
use rf_class_groups.Psi.Protocol.Correct.{IsInput, IsInput-accepted}
use rf_class_groups.Psi.Reveal.{reveal_slots, reveal_send, reveal_receive}
use rf_class_groups.Psi.Reveal.Encrypted.{
  RevealRandomness, read_intersection, reveal_encrypt, reveal_rrf, reveal_srf, reveal_decrypt,
  rf_reveal,
}

-- What the receiver's program reads: no elements, or an input set.
abbrev pub IsRevealed : ℕ → ℕ → List ℕ → Type 0
IsRevealed limit q [] = Unit
IsRevealed limit q (x ∷ xs) = IsInput limit q (x ∷ xs)

read_intersection-ok :
    (getenv : Env) (limit q : ℕ) (xs : List ℕ)
    → cg_max_items getenv ≡ ok limit
    → IsRevealed limit q xs
    → read_intersection getenv xs q ≡ ok tt
unfolding read_intersection
read_intersection-ok getenv limit q [] e h = refl
read_intersection-ok getenv limit q (x ∷ xs) e h =
    rw (read_values-ok getenv limit q 0 (x ∷ xs) e h.2 (omega (arith, h.1)))
      (IsInput-accepted getenv limit q (x ∷ xs) e h)

IsRevealed-bounded : (limit q : ℕ) (xs : List ℕ) → IsRevealed limit q xs → All (λ x. x < q) xs
IsRevealed-bounded limit q [] h = tt
IsRevealed-bounded limit q (x ∷ xs) h = h.2

IsInput-positive : (limit q : ℕ) (set : List ℕ) → IsInput limit q set → 0 < q
IsInput-positive limit q [] h = absurd (omega (arith, h.0))
IsInput-positive limit q (a ∷ set) h = omega (arith, h.2.0)

reveal_slots-bounded :
    (q n : ℕ) (xs : List ℕ) → 0 < q → All (λ x. x < q) xs → All (λ x. x < q) (reveal_slots n xs)
unfolding reveal_slots
reveal_slots-bounded q zero xs h k = tt
reveal_slots-bounded q (suc n) [] h k = (h, reveal_slots-bounded q n [] h k)
reveal_slots-bounded q (suc n) (x ∷ xs) h (k, ks) = (k, reveal_slots-bounded q n xs h ks)

module _ (cs : ClassGroups) (laws : IsClassGroups cs) where
  abbrev Cipher : Type 0
  Cipher = CipherText cs.Qfi

  decrypt-all :
      (sk : ℕ) (ms : List ℕ) (c : List Cipher)
      → All (λ m. m < cs.cleartext_bound) ms
      → AllEncrypt cs laws sk ms c
      → map (cs.decrypt sk) c ≡ ms
  decrypt-all sk [] [] h k = refl
  decrypt-all sk (m ∷ ms) (d ∷ c) (h, hs) (k, ks) =
      rw (decrypt-Encrypts cs laws sk m d k, mod-eq_of_lt h, decrypt-all sk ms c hs ks) refl
  decrypt-all sk [] (d ∷ c) h k = absurd k
  decrypt-all sk (m ∷ ms) [] h k = absurd k

  reveal_encrypt-Produces :
      (getenv : Env) (sk bound : ℕ) (r : RevealRandomness) (xs : List ℕ)
      → read_intersection getenv xs cs.cleartext_bound ≡ ok tt
      → ltb bound (length xs) ≡ false
      → All (λ x. x < cs.cleartext_bound) (reveal_slots bound xs)
      → Produces cs laws sk
          (reveal_slots bound xs)
          (reveal_encrypt cs getenv (cs.keygen sk) r bound xs)
  unfolding reveal_encrypt reveal_send
  reveal_encrypt-Produces getenv sk bound r xs e f h =
      rw (e, f) (encrypt_x-Produces cs laws sk r.receiver 0 (reveal_slots bound xs) h)

  reveal_rrf-Produces :
      (chunk sk' : ℕ) (r : RevealRandomness) (ms : List ℕ) (c : List Cipher)
      → 1 ≤ chunk
      → cs.compact ≡ false
      → AllEncrypt cs laws (sk' + r.rrf_rho) ms c
      → Produces cs laws sk' ms (reveal_rrf cs chunk (cs.keygen sk') r c)
  unfolding reveal_rrf
  reveal_rrf-Produces chunk sk' r ms c l p h =
      rw (in_chunks-map_range _ chunk c l)
        (backward-Produces cs laws sk' r.rrf_rho r.rrf 0 ms c p h)

  reveal_srf-Produces :
      (chunk sk : ℕ) (r : RevealRandomness) (ms : List ℕ) (c : List Cipher)
      → 1 ≤ chunk
      → cs.compact ≡ false
      → AllEncrypt cs laws (sk + r.srf_rho) ms c
      → Produces cs laws sk ms (reveal_srf cs chunk (cs.keygen sk) r c)
  unfolding reveal_srf
  reveal_srf-Produces chunk sk r ms c l p h =
      rw (in_chunks-map_range _ chunk c l) (backward-Produces cs laws sk r.srf_rho r.srf 0 ms c p h)

  -- In the non-compact variant, with chunk sizes of at least 1, an input set of the sender's and no
  -- elements or an input set to reveal, the reveal through both firewalls gives the sender what the
  -- check of the number of slots by the four processes and then the reveal in the clear give it,
  -- whatever the keys, the key shifts and the randomness: the same failure where a process does not
  -- accept the number of slots or where there are more elements than slots, the same output otherwise.
  pub rf_reveal-clear :
      (chunk_r chunk_s : ℕ) (p : Processes) (r : RevealRandomness) (limit_r limit_s : ℕ)
      (A : List ℕ) (bound : ℕ) (xs : List ℕ)
      → 1 ≤ chunk_r
      → 1 ≤ chunk_s
      → cs.compact ≡ false
      → cg_max_items p.receiver ≡ ok limit_r
      → cg_max_items p.sender ≡ ok limit_s
      → IsInput limit_s cs.cleartext_bound A
      → IsRevealed limit_r cs.cleartext_bound xs
      → rf_reveal cs chunk_r chunk_s p r A bound xs ≡ (
          validate_counts p bound
          >> (reveal_send bound xs >>= λ slots. reveal_receive bound A slots))
  unfolding rf_reveal
  rf_reveal-clear chunk_r chunk_s processes r limit_r limit_s A bound xs l l' p e e' h k =
      let env_r = processes.receiver in
      let env_s = processes.sender in
      let read = read_intersection-ok env_r limit_r cs.cleartext_bound xs e k in
      let key = maul_pk-keygen cs laws r.sk r.srf_rho in
      let key' = maul_pk-keygen cs laws (r.sk + r.srf_rho) r.rrf_rho in
      rw (read_mpz_list_file-ok env_s limit_s cs.cleartext_bound A e' h, key, key')
        (ap (λ (t : Result (List ℕ)). validate_counts processes bound >> t)
          (elim (Bool-cases (ltb bound (length xs))) [
            | inl many ↦ unfold reveal_encrypt in unfold reveal_send in rw (read, many) refl
            | inr few ↦
                let small =
                  reveal_slots-bounded cs.cleartext_bound bound xs
                    (IsInput-positive limit_s cs.cleartext_bound A h)
                    (IsRevealed-bounded limit_r cs.cleartext_bound xs k) in
                let (c₁, e₁, h₁) =
                  reveal_encrypt-Produces env_r (r.sk + r.srf_rho + r.rrf_rho) bound r xs read few
                    small in
                let (c₂, e₂, h₂) =
                  reveal_rrf-Produces chunk_r (r.sk + r.srf_rho) r (reveal_slots bound xs) c₁ l p
                    h₁ in
                let (c₃, e₃, h₃) =
                  reveal_srf-Produces chunk_s r.sk r (reveal_slots bound xs) c₂ l' p h₂ in
                unfold reveal_send in
                unfold reveal_decrypt in
                rw (e₁, e₂, e₃, few, decrypt-all r.sk (reveal_slots bound xs) c₃ small h₃) refl
          ]))
