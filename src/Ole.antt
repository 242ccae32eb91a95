-- ===== src/Ole.antt =====
-- Batched OLE: cg_ope_common.hpp (direct), cg_rf_ole_batch.hpp with the firewalls of
-- cg_rf_receiver_firewall_opa.cpp and cg_rf_sender_firewall_opa.cpp, and the four processes
-- cg_receiver.cpp, cg_rrf.cpp, cg_srf.cpp and cg_sender.cpp.
pub mod Counts
pub mod Chunks
pub mod Rounds
pub mod Direct
pub mod Firewalled
use rf_class_groups.Base.{
  ℕ, zero, suc, false, ◌+◌, ◌*◌, ◌%◌, List, [], ◌∷◌, ◌++◌, map, length, take, drop, not, ◌==◌,
  Result, ok, err, ◌>>=◌, ◌>>◌, reject_if, size_mismatch, out_of_fuel, CipherText,
}
use rf_class_groups.Config.{Env, cg_validate_count}
use rf_class_groups.Scheme.{
  ClassGroups, EncZero, clear_text, add, cmult, maul_pk, maul_fwd_rerand, maul_inv_rerand,
  make_enc_zero_pair, to_delta,
}

-- What the random generators draw for each index.
abbrev pub Draws : Type 0
Draws = ℕ → ℕ

module _ {A B : Type 0} (f : ℕ → A → Result B) where
  -- `pool.parallel_for(begin, end, ...)` over the items from index `begin` on: every index once,
  -- into its own slot.
  unfoldable pub map_range : ℕ → List A → Result (List B)
  map_range begin [] = ok []
  map_range begin (x ∷ xs) = do y ← f begin x; ys ← map_range (suc begin) xs; ok (y ∷ ys)

  -- `for (begin = 0; begin < N; begin += CHUNK)`, over what is left from `begin` on.
  unfoldable pub chunk_loop : ℕ → ℕ → ℕ → List A → Result (List B)
  chunk_loop fuel chunk begin [] = ok []
  chunk_loop zero chunk begin (x ∷ xs) = err out_of_fuel
  chunk_loop (suc fuel) chunk begin (x ∷ xs) = do
    ys ← map_range begin (take chunk (x ∷ xs))
    zs ← chunk_loop fuel chunk (begin + chunk) (drop chunk (x ∷ xs))
    ok (ys ++ zs)

-- A round over a whole vector: `length xs` chunks are enough, since a chunk is not empty.
unfoldable pub in_chunks : {A B : Type 0} → (ℕ → A → Result B) → ℕ → List A → Result (List B)
unfolding chunk_loop
in_chunks f chunk xs = chunk_loop f (length xs) chunk 0 xs

-- What the sender holds for an index besides the ciphertext that it receives.
pub record Coefficients : Type 0 where
  pub a : ℕ
  pub b : ℕ

abbrev pub zip_with_cipher :
    {Q : Type 0} → List (CipherText Q) → List ℕ → List ℕ → List (CipherText Q × Coefficients)
zip_with_cipher (c ∷ cs) (a ∷ as') (b ∷ bs) =
    (c, record { a = a; b = b }) ∷ zip_with_cipher cs as' bs
zip_with_cipher _ _ _ = []

-- The random choices of one RF-OLE run: the receiver's key, the two firewalls' key shifts, and what
-- each round draws for each index.
pub record Randomness : Type 0 where
  pub sk : ℕ
  pub gamma : ℕ
  pub rho : ℕ
  pub receiver : Draws
  pub sender : Draws
  pub rrf_1 : Draws
  pub rrf_2 : Draws
  pub srf_1 : Draws
  pub srf_2 : Draws

-- The environments of the four processes of a run through the firewalls.
pub record Processes : Type 0 where
  pub receiver : Env
  pub rrf : Env
  pub srf : Env
  pub sender : Env

-- `accept_rf_lanes` and `connect_rf_lanes` begin with `cg_validate_count(N)`: every process of a run
-- checks the number of items before it transfers any. The firewalls read it from CG_RF_EXPECTED_N, or
-- from CG_PSI2_REVEAL_BOUND, taken to be the number that the parties have.
unfoldable pub validate_counts : Processes → ℕ → Result (Unit {0})
validate_counts p n = do
  cg_validate_count p.receiver n false
  cg_validate_count p.rrf n false
  cg_validate_count p.srf n false
  cg_validate_count p.sender n false

module _ (cs : ClassGroups) where
  abbrev Cipher : Type 0
  Cipher = CipherText cs.Qfi

  -- Receiver: `encrypt(pk, ClearText(x))`.
  pub encrypt_x : cs.Qfi → Draws → ℕ → ℕ → Result Cipher
  encrypt_x pk draws i x = do m ← clear_text cs x; ok (cs.encrypt pk m (draws i))

  -- Sender: `add(pk, cmult(enc_x, a), encrypt(pk, b))`.
  pub respond : cs.Qfi → Draws → ℕ → Cipher × Coefficients → Result Cipher
  respond pk draws i (c, k) = do
    m ← clear_text cs k.b
    ok (add cs (cmult cs c k.a) (cs.encrypt pk m (draws i)))

  -- Firewall, round 1: `maul_fwd_rerand` with a pair prepared under the outgoing key.
  pub forward : cs.Qfi → ℕ → Draws → ℕ → Cipher → Result Cipher
  forward outgoing rho draws i c =
      ok (maul_fwd_rerand cs c rho (make_enc_zero_pair cs outgoing (draws i)))

  -- Firewall, round 2: `maul_inv_rerand` with a pair prepared under the incoming key.
  pub backward : cs.Qfi → ℕ → Draws → ℕ → Cipher → Result Cipher
  backward incoming rho draws i c =
      ok (maul_inv_rerand cs c rho (make_enc_zero_pair cs incoming (draws i)))

  -- One round trip of the direct protocol: a chunk is encrypted and sent, the response is read and
  -- decrypted, before the next chunk.
  pub direct_loop : ℕ → ℕ → ℕ → Draws → Draws → ℕ → List ℕ → List ℕ → List ℕ → Result (List ℕ)
  direct_loop fuel chunk sk rx rb begin [] as' bs = ok []
  direct_loop zero chunk sk rx rb begin (x ∷ xs) as' bs = err out_of_fuel
  direct_loop (suc fuel) chunk sk rx rb begin (x ∷ xs) as' bs = do
    let pk = cs.keygen sk
    enc_x ← map_range (encrypt_x pk rx) begin (take chunk (x ∷ xs))
    enc_y ← map_range (respond pk rb) begin (zip_with_cipher enc_x (take chunk as') (take chunk bs))
    rest ←
        direct_loop fuel chunk sk rx rb (begin + chunk) (drop chunk (x ∷ xs)) (drop chunk as')
          (drop chunk bs)
    ok (map (cs.decrypt sk) enc_y ++ rest)

  -- `direct_ole_batch_receive` and `direct_ole_batch_send` together, with the environments of the two
  -- processes. Where their counts differ, the metadata check of CG_VALIDATE_LANES=1 fails, and without
  -- that check one side waits for ciphertexts that never come: no outputs either way, `size_mismatch`
  -- here.
  pub direct_ole_batch :
      ℕ → Env → Env → ℕ → Draws → Draws → List ℕ → List ℕ → List ℕ → Result (List ℕ)
  direct_ole_batch chunk env_r env_s sk rx rb xs as' bs = do
    cg_validate_count env_r (length xs) false
    reject_if (not (length as' == length bs)) size_mismatch
    cg_validate_count env_s (length as') false
    reject_if (not (length xs == length as')) size_mismatch
    direct_loop (length xs) chunk sk rx rb 0 xs as' bs

  -- `rf_ole_batch_receive`, round 1, over lanes that are open.
  pub receiver_round1 : ℕ → Randomness → List ℕ → Result (List Cipher)
  receiver_round1 chunk r xs = in_chunks (encrypt_x (cs.keygen r.sk) r.receiver) chunk xs

  -- The receiver's firewall: pk' = maul_pk(pk, gamma).
  pub rrf_round1 : ℕ → cs.Qfi → Randomness → List Cipher → Result (List Cipher)
  rrf_round1 chunk pk r c = in_chunks (forward (maul_pk cs pk r.gamma) r.gamma r.rrf_1) chunk c

  pub rrf_round2 : ℕ → cs.Qfi → Randomness → List Cipher → Result (List Cipher)
  rrf_round2 chunk pk r c = in_chunks (backward pk r.gamma r.rrf_2) chunk c

  -- The sender's firewall: fpk = maul_pk(pk', rho).
  pub srf_round1 : ℕ → cs.Qfi → Randomness → List Cipher → Result (List Cipher)
  srf_round1 chunk pk' r c = in_chunks (forward (maul_pk cs pk' r.rho) r.rho r.srf_1) chunk c

  pub srf_round2 : ℕ → cs.Qfi → Randomness → List Cipher → Result (List Cipher)
  srf_round2 chunk pk' r c = in_chunks (backward pk' r.rho r.srf_2) chunk c

  -- `rf_ole_batch_send`, under the key that reached it. The count check of its lanes is in
  -- `validate_counts`.
  pub sender_round : cs.Qfi → Randomness → List ℕ → List ℕ → List Cipher → Result (List Cipher)
  sender_round fpk r as' bs c = do
    reject_if (not (length as' == length bs)) size_mismatch
    map_range (respond fpk r.sender) 0 (zip_with_cipher c as' bs)

  -- The four processes of one RF-OLE batch; different counts are as in the direct batch.
  pub rf_ole_batch : ℕ → Processes → Randomness → List ℕ → List ℕ → List ℕ → Result (List ℕ)
  rf_ole_batch chunk p r xs as' bs = do
    validate_counts p (length xs)
    let pk = cs.keygen r.sk
    let pk' = maul_pk cs pk r.gamma
    let fpk = maul_pk cs pk' r.rho
    reject_if (not (length xs == length as')) size_mismatch
    c₁ ← receiver_round1 chunk r xs
    c₂ ← rrf_round1 chunk pk r c₁
    c₃ ← srf_round1 chunk pk' r c₂
    c₄ ← sender_round fpk r as' bs c₃
    c₅ ← srf_round2 chunk pk' r c₄
    c₆ ← rrf_round2 chunk pk r c₅
    ok (map (cs.decrypt r.sk) c₆)

-- The function that batched OLE is to compute.
unfoldable pub ole : ℕ → List ℕ → List ℕ → List ℕ → List ℕ
ole q (x ∷ xs) (a ∷ as') (b ∷ bs) = ((a * x + b) % q) ∷ ole q xs as' bs
ole q _ _ _ = []
