-- ===== src/Examples/Protocols.antt =====
-- The protocol theorems at concrete inputs: the small cryptosystem, plaintexts below 7, chunks of 2.
use rf_class_groups.Base.{
  ℕ, ◌+◌, ◌<◌, ◌≡◌, false, refl, List, [], ◌∷◌, CipherText, ok, ◌>>=◌, replicate, length, All,
  arith,
}
use rf_class_groups.Scheme.{EncZero, maul_fwd_rerand, make_enc_zero_pair}
use rf_class_groups.Scheme.Model.{small, small-IsClassGroups}
use rf_class_groups.Scheme.Encryption.{Encrypts, encrypt-Encrypts}
use rf_class_groups.Scheme.Firewall.{make_enc_zero_pair-IsZero, maul_fwd_rerand-Encrypts}
use rf_class_groups.Ole.{
  Draws, Randomness, map_range, in_chunks, rf_ole_batch, direct_ole_batch, ole,
}
use rf_class_groups.Ole.Chunks.{in_chunks-map_range}
use rf_class_groups.Ole.Direct.{direct_ole_batch-ole}
use rf_class_groups.Ole.Firewalled.{rf_ole_batch-ole}
use rf_class_groups.Ole3.{RunDraws, FirewallDraws, rf_ole3, sanitized_ole}
use rf_class_groups.Ole3.Correct.{rf_ole3-sanitized_ole}
use rf_class_groups.Ope.{build_ope_sender_ole_inputs, finish_ope_receiver, eval_poly_horner, rf_ope}
use rf_class_groups.Ope.Reduction.{finish-build_ope_sender_ole_inputs}
use rf_class_groups.Examples.Sets.{empty_environment, unset, few-AcceptsCount, few-AcceptCount}
use rf_class_groups.Ope.Protocol.{rf_ope-eval_poly_horner}

abbrev draws : Draws
draws i = i + 2

abbrev fives : Draws
fives i = 5

abbrev run : Randomness
run = record {
  sk = 4;
  gamma = 3;
  rho = 6;
  receiver = draws;
  sender = draws;
  rrf_1 = draws;
  rrf_2 = draws;
  srf_1 = draws;
  srf_2 = draws;
}

abbrev xs : List ℕ
xs = 3 ∷ 5 ∷ 6 ∷ []

abbrev as' : List ℕ
as' = 2 ∷ 4 ∷ 1 ∷ []

abbrev bs : List ℕ
bs = 1 ∷ 0 ∷ 6 ∷ []

xs_below : All (λ x. x < 7) xs
xs_below = (omega arith, (omega arith, (omega arith, tt)))

as_below : All (λ a. a < 7) as'
as_below = (omega arith, (omega arith, (omega arith, tt)))

bs_below : All (λ b. b < 7) bs
bs_below = (omega arith, (omega arith, (omega arith, tt)))

rf_ole_batch-ole_example : rf_ole_batch (small false) 2 unset run xs as' bs ≡ ok (0 ∷ 6 ∷ 5 ∷ [])
unfolding ole
rf_ole_batch-ole_example =
    rf_ole_batch-ole (small false) (small-IsClassGroups false) 2 unset run xs as' bs (omega arith)
      (few-AcceptCount 3 (omega arith) (omega arith)) refl refl refl xs_below bs_below

direct_ole_batch-ole_example :
    direct_ole_batch (small false) 2 empty_environment empty_environment 4 draws draws xs as' bs
    ≡ ok (0 ∷ 6 ∷ 5 ∷ [])
unfolding ole
direct_ole_batch-ole_example =
    direct_ole_batch-ole (small false) (small-IsClassGroups false) 2 empty_environment
      empty_environment 4 draws draws xs as' bs (omega arith)
      (few-AcceptsCount 3 (omega arith) (omega arith))
      (few-AcceptsCount 3 (omega arith) (omega arith)) refl refl xs_below bs_below

in_chunks-map_range_example :
    in_chunks (λ i x. ok (i + x)) 2 xs ≡ map_range (λ i x. ok (i + x)) 0 xs
in_chunks-map_range_example = in_chunks-map_range (λ i x. ok (i + x)) 2 xs (omega arith)

abbrev ole3_run : RunDraws
ole3_run = record { sk = 4; enc_a = draws; enc_b = draws; r_vals = fives; enc_r = draws }

abbrev firewall : FirewallDraws
firewall = record {
  rho = 3;
  a_blinds = fives;
  b_blinds = fives;
  enc_blind = draws;
  zero_a = draws;
  zero_b = draws;
  zero_y = draws;
}

rf_ole3-sanitized_ole_example :
    rf_ole3 (small false) 2 unset 3 ole3_run firewall firewall xs as' bs ≡ ok (5 ∷ 3 ∷ 5 ∷ [])
unfolding sanitized_ole
rf_ole3-sanitized_ole_example =
    rf_ole3-sanitized_ole (small false) (small-IsClassGroups false) 2 unset ole3_run firewall
      firewall xs as' bs (omega arith) (few-AcceptCount 3 (omega arith) (omega arith)) refl refl
      refl (λ i. omega arith) (λ i. omega arith) (λ i. omega arith) as_below bs_below

-- 3 + 4 x + 2 x^2 at 5.
abbrev quadratic : List ℕ
quadratic = 3 ∷ 4 ∷ 2 ∷ []

finish-build_ope_sender_ole_inputs_example :
    (build_ope_sender_ole_inputs quadratic 7 draws >>= λ (a_vals, b_vals).
    finish_ope_receiver (ole 7 (replicate (length a_vals) 5) a_vals b_vals) 5 7)
    ≡ ok (eval_poly_horner quadratic 5 7)
finish-build_ope_sender_ole_inputs_example =
    finish-build_ope_sender_ole_inputs quadratic 5 7 draws (omega arith) (omega arith)

rf_ope-eval_poly_horner_example :
    rf_ope (small false) 2 unset run draws 2 quadratic 5 ≡ ok (eval_poly_horner quadratic 5 7)
rf_ope-eval_poly_horner_example =
    rf_ope-eval_poly_horner (small false) (small-IsClassGroups false) 2 unset run draws 2 quadratic
      5 (omega arith) (few-AcceptCount 2 (omega arith) (omega arith)) refl refl (omega arith)
      (omega arith)

abbrev three : CipherText ℕ
three = (small false).encrypt ((small false).keygen 4) 3 2

abbrev two : CipherText ℕ
two = (small false).encrypt ((small false).keygen 4) 2 5

three-Encrypts : Encrypts (small false) (small-IsClassGroups false) 4 3 three
three-Encrypts = encrypt-Encrypts (small false) (small-IsClassGroups false) 4 3 2

two-Encrypts : Encrypts (small false) (small-IsClassGroups false) 4 2 two
two-Encrypts = encrypt-Encrypts (small false) (small-IsClassGroups false) 4 2 5

-- Enc(0) under the keys 9 and 4.
abbrev pair_9 : EncZero ℕ
pair_9 = make_enc_zero_pair (small false) ((small false).keygen 9) 2

abbrev pair_4 : EncZero ℕ
pair_4 = make_enc_zero_pair (small false) ((small false).keygen 4) 2

abbrev three_9 : CipherText ℕ
three_9 = (small false).encrypt ((small false).keygen 9) 3 2

maul_fwd_rerand-Encrypts_example :
    Encrypts
      (small false)
      (small-IsClassGroups false)
      9
      3
      (maul_fwd_rerand (small false) three 5 pair_9)
maul_fwd_rerand-Encrypts_example =
    maul_fwd_rerand-Encrypts (small false) (small-IsClassGroups false) 4 3 5 three pair_9
      three-Encrypts (make_enc_zero_pair-IsZero (small false) (small-IsClassGroups false) 9 2 refl)
