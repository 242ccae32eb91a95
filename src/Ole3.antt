-- ===== src/Ole3.antt =====
-- Three-round OLE: cg_ole3_common.hpp, cg_ole3_sender.cpp and cg_ole3_receiver.cpp, and the same roles
-- through cg_rf_sender_firewall_ole3.cpp and cg_rf_receiver_firewall_ole3.cpp.
pub mod Stages
pub mod Masks
pub mod Correct
use rf_class_groups.Base.{
  ℕ, zero, suc, false, ◌+◌, ◌*◌, ◌%◌, List, [], ◌∷◌, map, length, not, ◌==◌, sub_mod, CipherText,
  Result, ok, ◌>>=◌, ◌>>◌, reject_if, size_mismatch,
}
use rf_class_groups.Scheme.{
  ClassGroups, clear_text, add, cmult, maul_pk, maul_fwd_rerand, make_enc_zero_pair,
}
use rf_class_groups.Config.{Env, cg_validate_count}
use rf_class_groups.Ole.{
  Draws, Processes, validate_counts, map_range, in_chunks, encrypt_x, forward, backward,
}

-- What the receiver holds for an index in round 2.
pub record Terms (Q : Type 0) : Type 0 where
  pub enc_a : CipherText Q
  pub enc_b : CipherText Q
  pub x : ℕ

abbrev pub terms :
    {Q : Type 0} → List (CipherText Q) → List (CipherText Q) → List ℕ → List (Terms Q)
terms (a ∷ as') (b ∷ bs) (x ∷ xs) = (record { enc_a = a; enc_b = b; x = x }) ∷ terms as' bs xs
terms _ _ _ = []

-- The loop at the end of the receiver: `sub(out, z, r); mod(out, out, q)`.
unfoldable pub unmask : ℕ → Draws → ℕ → List ℕ → List ℕ
unmask q r i [] = []
unmask q r i (z ∷ zs) = sub_mod z (r i) q ∷ unmask q r (suc i) zs

-- `sample_plain_blinds_ole3`: what the generator draws for the indices from `i` on.
unfoldable pub sample_plain_blinds_ole3 : ℕ → Draws → ℕ → List ℕ
sample_plain_blinds_ole3 zero draws i = []
sample_plain_blinds_ole3 (suc n) draws i = draws i ∷ sample_plain_blinds_ole3 n draws (suc i)

unfoldable pub blind_each : ℕ → List ℕ → List ℕ → List ℕ
blind_each q (v ∷ vs) (d ∷ ds) = ((v + d) % q) ∷ blind_each q vs ds
blind_each q _ _ = []

pub add_plain_blind_mod_ole3 : List ℕ → List ℕ → ℕ → Result (List ℕ)
add_plain_blind_mod_ole3 values blinds q = do
  reject_if (not (length values == length blinds)) size_mismatch
  ok (blind_each q values blinds)

-- The random choices of one firewall, and of one run.
pub record FirewallDraws : Type 0 where
  pub rho : ℕ
  pub a_blinds : Draws
  pub b_blinds : Draws
  pub enc_blind : Draws
  pub zero_a : Draws
  pub zero_b : Draws
  pub zero_y : Draws

pub record RunDraws : Type 0 where
  pub sk : ℕ
  pub enc_a : Draws
  pub enc_b : Draws
  pub r_vals : Draws
  pub enc_r : Draws

module _ (cs : ClassGroups) where
  abbrev Cipher : Type 0
  Cipher = CipherText cs.Qfi

  -- Receiver, round 2: `add(pk, add(pk, cmult(enc_a, x), enc_b), encrypt(pk, r))`.
  pub mask_output : cs.Qfi → RunDraws → ℕ → Terms cs.Qfi → Result Cipher
  mask_output pk d i t = do
    m ← clear_text cs (d.r_vals i)
    ok (add cs (add cs (cmult cs t.enc_a t.x) t.enc_b) (cs.encrypt pk m (d.enc_r i)))

  -- One index of `transform_ct_fwd_with_additive_blind_batch`.
  pub blind_forward : cs.Qfi → cs.Qfi → FirewallDraws → ℕ → Cipher → Result Cipher
  blind_forward source_pk target_pk f i c = do
    m ← clear_text cs (f.a_blinds i)
    let added = add cs c (cs.encrypt source_pk m (f.enc_blind i))
    ok (maul_fwd_rerand cs added f.rho (make_enc_zero_pair cs target_pk (f.zero_a i)))

  pub transform_ct_fwd_with_additive_blind_batch :
      ℕ → cs.Qfi → cs.Qfi → FirewallDraws → List Cipher → Result (List Cipher)
  transform_ct_fwd_with_additive_blind_batch chunk source_pk target_pk f c =
      in_chunks (blind_forward source_pk target_pk f) chunk c

  pub transform_ct_fwd_batch : ℕ → cs.Qfi → FirewallDraws → List Cipher → Result (List Cipher)
  transform_ct_fwd_batch chunk target_pk f c =
      in_chunks (forward cs target_pk f.rho f.zero_b) chunk c

  pub transform_ct_inv_batch : ℕ → cs.Qfi → FirewallDraws → List Cipher → Result (List Cipher)
  transform_ct_inv_batch chunk target_pk f c =
      in_chunks (backward cs target_pk f.rho f.zero_y) chunk c

  -- cg_ole3_sender and cg_ole3_receiver.
  pub direct_ole3 : Env → Env → RunDraws → List ℕ → List ℕ → List ℕ → Result (List ℕ)
  direct_ole3 env_r env_s d xs as' bs = do
    cg_validate_count env_r (length xs) false
    cg_validate_count env_s (length as') false
    let pk = cs.keygen d.sk
    enc_a ← map_range (encrypt_x cs pk d.enc_a) 0 as'
    enc_b ← map_range (encrypt_x cs pk d.enc_b) 0 bs
    enc_y ← map_range (mask_output pk d) 0 (terms enc_a enc_b xs)
    ok (unmask cs.cleartext_bound d.r_vals 0 (map (cs.decrypt d.sk) enc_y))

  -- The same roles with the sender's firewall `s` and the receiver's firewall `f` between them; `n` is
  -- the number of OLEs that the lane metadata carries.
  pub rf_ole3 :
      ℕ
      → Processes
      → ℕ
      → RunDraws
      → FirewallDraws
      → FirewallDraws
      → List ℕ
      → List ℕ
      → List ℕ
      → Result (List ℕ)
  rf_ole3 chunk p n d s f xs as' bs = do
    validate_counts p n
    let q = cs.cleartext_bound
    let pk = cs.keygen d.sk
    let pk₁ = maul_pk cs pk s.rho
    let pk₂ = maul_pk cs pk₁ f.rho
    a₀ ← map_range (encrypt_x cs pk d.enc_a) 0 as'
    b₀ ← map_range (encrypt_x cs pk d.enc_b) 0 bs
    a₁ ← transform_ct_fwd_with_additive_blind_batch chunk pk pk₁ s a₀
    b₁ ← transform_ct_fwd_batch chunk pk₁ s b₀
    a₂ ← transform_ct_fwd_with_additive_blind_batch chunk pk₁ pk₂ f a₁
    b₂ ← transform_ct_fwd_batch chunk pk₂ f b₁
    y₂ ← map_range (mask_output pk₂ d) 0 (terms a₂ b₂ xs)
    y₁ ← transform_ct_inv_batch chunk pk₁ f y₂
    y₀ ← transform_ct_inv_batch chunk pk s y₁
    let z₀ = map (cs.decrypt d.sk) y₀
    z₁ ← add_plain_blind_mod_ole3 z₀ (sample_plain_blinds_ole3 n s.b_blinds 0) q
    z₂ ← add_plain_blind_mod_ole3 z₁ (sample_plain_blinds_ole3 n f.b_blinds 0) q
    ok (unmask q d.r_vals 0 z₂)

-- What the firewalled OLE is to compute: both coefficients are shifted by the blinds of both
-- firewalls.
unfoldable pub sanitized_ole :
    ℕ → FirewallDraws → FirewallDraws → ℕ → List ℕ → List ℕ → List ℕ → List ℕ
sanitized_ole q s f i (x ∷ xs) (a ∷ as') (b ∷ bs) =
    (((a + s.a_blinds i + f.a_blinds i) * x + (b + s.b_blinds i + f.b_blinds i)) % q)
    ∷ sanitized_ole q s f (suc i) xs as' bs
sanitized_ole q s f i _ _ _ = []
