-- ===== src/Psi/Reveal/Encrypted.antt =====
-- The reveal of two-way PSI through the reverse firewalls: cg_rf_psi2_reveal_sender.cpp,
-- cg_rf_psi2_reveal_srf.cpp, cg_rf_psi2_reveal_rrf.cpp and cg_rf_psi2_reveal_receiver.cpp.
pub mod Sanitized
pub mod Intersection
use rf_class_groups.Base.{
  ℕ, List, [], ◌∷◌, map, length, pos, CipherText, Mpz, Result, ok, err, ◌>>=◌, ◌>>◌,
}
use rf_class_groups.Config.{Env}
use rf_class_groups.Scheme.{ClassGroups, maul_pk}
use rf_class_groups.Ole.{
  Draws, Processes, Randomness, validate_counts, map_range, in_chunks, encrypt_x, backward,
}
use rf_class_groups.Psi.{validate_psi_set}
use rf_class_groups.Psi.Input.{read_values, read_mpz_list_file}
use rf_class_groups.Psi.Protocol.{rf_psi}
use rf_class_groups.Psi.Reveal.{reveal_send, reveal_receive}

-- The random choices of one run: the sender's new key, the two firewalls' key shifts, and what the
-- receiver and the firewalls draw for each slot.
pub record RevealRandomness : Type 0 where
  pub sk : ℕ
  pub srf_rho : ℕ
  pub rrf_rho : ℕ
  pub receiver : Draws
  pub rrf : Draws
  pub srf : Draws

-- The receiver's input file, which may be empty.
pub read_intersection : Env → List ℕ → ℕ → Result (Unit {0})
read_intersection getenv [] q = ok tt
read_intersection getenv (x ∷ intersection) q = do
  read_values getenv q 0 (map pos (x ∷ intersection))
  validate_psi_set getenv (map pos (x ∷ intersection)) q

module _ (cs : ClassGroups) where
  abbrev Cipher : Type 0
  Cipher = CipherText cs.Qfi

  -- The receiver, under the key that reached it. The count check of its lanes is in `validate_counts`.
  pub reveal_encrypt : Env → cs.Qfi → RevealRandomness → ℕ → List ℕ → Result (List Cipher)
  reveal_encrypt getenv pk_double r reveal_bound intersection = do
    read_intersection getenv intersection cs.cleartext_bound
    slots ← reveal_send reveal_bound intersection
    map_range (encrypt_x cs pk_double r.receiver) 0 slots

  -- The receiver's firewall.
  pub reveal_rrf : ℕ → cs.Qfi → RevealRandomness → List Cipher → Result (List Cipher)
  reveal_rrf chunk pk_prime r enc_values =
      in_chunks (backward cs pk_prime r.rrf_rho r.rrf) chunk enc_values

  -- The sender's firewall.
  pub reveal_srf : ℕ → cs.Qfi → RevealRandomness → List Cipher → Result (List Cipher)
  reveal_srf chunk pk r enc_values = in_chunks (backward cs pk r.srf_rho r.srf) chunk enc_values

  -- The sender: what it outputs for the ciphertexts that arrive.
  pub reveal_decrypt : ℕ → ℕ → List ℕ → List Cipher → Result (List ℕ)
  reveal_decrypt sk reveal_bound set_A enc_values =
      reveal_receive reveal_bound set_A (map (cs.decrypt sk) enc_values)

  -- The four processes. Each requires CG_PSI2_REVEAL_BOUND to be positive and within its item limit,
  -- where it reads the variable and again where it opens its lanes.
  pub rf_reveal : ℕ → ℕ → Processes → RevealRandomness → List ℕ → ℕ → List ℕ → Result (List ℕ)
  rf_reveal chunk_r chunk_s p r set_A reveal_bound intersection = do
    validate_counts p reveal_bound
    let pk = cs.keygen r.sk
    let pk_prime = maul_pk cs pk r.srf_rho
    let pk_double = maul_pk cs pk_prime r.rrf_rho
    read_mpz_list_file p.sender (map pos set_A) cs.cleartext_bound
    c₁ ← reveal_encrypt p.receiver pk_double r reveal_bound intersection
    c₂ ← reveal_rrf chunk_r pk_prime r c₁
    c₃ ← reveal_srf chunk_s pk r c₂
    reveal_decrypt r.sk reveal_bound set_A c₃

  -- One-way PSI and then the reveal: the receiver's output and the sender's.
  pub rf_psi2 :
      Mpz
      → ℕ
      → Processes
      → Randomness
      → RevealRandomness
      → List ℕ
      → List ℕ
      → ℕ
      → Draws
      → Draws
      → Result (List ℕ × List ℕ)
  rf_psi2 mpz chunk p r r' set_A set_B reveal_bound mask mask' = do
    intersection ← rf_psi mpz cs chunk p r set_A set_B (length set_A) (length set_B) mask mask'
    learned ← rf_reveal chunk chunk p r' set_A reveal_bound intersection
    ok (intersection, learned)
