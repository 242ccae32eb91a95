-- ===== src/Examples/Wire.antt =====
-- The theorems on configuration values and wire formats at concrete inputs.
use rf_class_groups.Base.{
  ℕ, ◌+◌, ◌≤◌, ◌<◌, ◌≡◌, ◌≢◌, ◌↔◌, false, refl, none, some, List, [], ◌∷◌, ◌++◌, All, length, ℤ,
  pos, negsuc, CipherText, ok, arith,
}
use rf_class_groups.Config.{
  Env, cg_parse_u64, u64_bound, cg_max_items, cg_parse_size, size_bound, check_limit,
  cg_config_size,
}
use rf_class_groups.Config.Parse.{IsDigit, decimal, cg_parse_u64_iff}
use rf_class_groups.Config.Limits.{cg_parse_size_iff}
use rf_class_groups.Network.{send_mpz, recv_mpz, max_mpz_bytes, send_u32}
use rf_class_groups.Network.Model.{bytes, small_gmp, small_gmp-IsGmp}
use rf_class_groups.Network.Integers.{recv_mpz-send_mpz}
use rf_class_groups.Network.Objects.{Forms, IsForms, send_qfi, send_ct, recv_ct, recv_ct-send_ct}
use rf_class_groups.Network.Stream.{
  Outcome, interrupted, moved, send_loop, recv_loop, done, again, step, send_loop_ends,
  recv_loop_exact,
}
use rf_class_groups.Psi.{validate_psi_set}
use rf_class_groups.Psi.Validation.{IsElement, IsDistinct, validate_psi_set_iff}

-- No variable is set.
abbrev unset : Env
unset name = none

abbrev digits : List ℕ
digits = b'4' ∷ b'2' ∷ []

cg_parse_u64_iff_example :
    (cg_parse_u64 (some digits) ≡ ok 42)
    ↔ ((digits ≢ []) × All IsDigit digits × (decimal 0 digits ≡ 42) × (42 < u64_bound))
cg_parse_u64_iff_example = cg_parse_u64_iff digits 42

default_limit : cg_max_items unset ≡ ok 1048576
unfolding cg_max_items check_limit
default_limit = refl

bound_100 : size_bound unset 100 ≡ ok 100
unfolding size_bound
bound_100 = refl

cg_parse_size_iff_example : (cg_parse_size unset (some (b'7' ∷ [])) false 100 ≡ ok 7) ↔ (
    (cg_parse_u64 (some (b'7' ∷ [])) ≡ ok 7)
    × (7 ≤ 100)
    × (7 < u64_bound)
    × (false ≡ false → 1 ≤ 7))
cg_parse_size_iff_example = cg_parse_size_iff unset (some (b'7' ∷ [])) false 100 100 7 bound_100

-- The integer -258: a sign, two bytes, 1 and 2.
sent : send_mpz small_gmp unset (negsuc 257) ≡ ok (0 ∷ 0 ∷ 0 ∷ 1 ∷ 0 ∷ 0 ∷ 0 ∷ 2 ∷ 1 ∷ 2 ∷ [])
unfolding send_mpz max_mpz_bytes cg_config_size bytes send_u32
sent = refl

recv_mpz-send_mpz_example :
    recv_mpz small_gmp unset ((0 ∷ 0 ∷ 0 ∷ 1 ∷ 0 ∷ 0 ∷ 0 ∷ 2 ∷ 1 ∷ 2 ∷ []) ++ (7 ∷ []))
    ≡ ok (negsuc 257, 7 ∷ [])
recv_mpz-send_mpz_example =
    recv_mpz-send_mpz small_gmp small_gmp-IsGmp unset (negsuc 257)
      (0 ∷ 0 ∷ 0 ∷ 1 ∷ 0 ∷ 0 ∷ 0 ∷ 2 ∷ 1 ∷ 2 ∷ []) (7 ∷ []) sent

-- Forms whose coefficients are unrestricted.
record Triple : Type 0 where
  a : ℤ
  b : ℤ
  c : ℤ

abbrev triples : Forms
triples = record {
  Qfi = Triple;
  a = λ x. x.a;
  b = λ x. x.b;
  c = λ x. x.c;
  make = λ a b c. ok (record { a = a; b = b; c = c });
}

triples-IsForms : IsForms triples
triples-IsForms = record { make_coefficients = λ x. refl }

-- The integers 1 and 0 on the wire.
abbrev one_sent : List ℕ
one_sent = 0 ∷ 0 ∷ 0 ∷ 0 ∷ 0 ∷ 0 ∷ 0 ∷ 1 ∷ 1 ∷ []

abbrev zero_sent : List ℕ
zero_sent = 0 ∷ 0 ∷ 0 ∷ 0 ∷ 0 ∷ 0 ∷ 0 ∷ 0 ∷ []

abbrev tiny : CipherText Triple
tiny = record {
  c1 = record { a = pos 1; b = pos 0; c = pos 1 };
  c2 = record { a = pos 0; b = pos 1; c = pos 1 };
}

abbrev tiny_sent : List ℕ
tiny_sent = (one_sent ++ (zero_sent ++ one_sent)) ++ (zero_sent ++ (one_sent ++ one_sent))

tiny-sent : send_ct small_gmp unset triples tiny ≡ ok tiny_sent
unfolding send_ct send_qfi send_mpz max_mpz_bytes cg_config_size bytes send_u32
tiny-sent = refl

recv_ct-send_ct_example :
    recv_ct small_gmp unset triples (tiny_sent ++ (5 ∷ [])) ≡ ok (tiny, 5 ∷ [])
recv_ct-send_ct_example =
    recv_ct-send_ct small_gmp unset triples small_gmp-IsGmp triples-IsForms tiny tiny_sent (5 ∷ [])
      tiny-sent

-- A signal, then two bytes, then one.
abbrev outcomes : List Outcome
outcomes = interrupted ∷ moved 1 ∷ moved 0 ∷ []

abbrev buffer : List ℕ
buffer = 4 ∷ 5 ∷ 6 ∷ []

abbrev stream : List ℕ
stream = 4 ∷ 5 ∷ 6 ∷ 7 ∷ []

abbrev rest : List ℕ
rest = 7 ∷ []

abbrev nothing : List ℕ
nothing = []

send_loop_ends_example :
    send_loop (moved 0 ∷ moved 0 ∷ interrupted ∷ moved 0 ∷ []) buffer [] ≡ ok buffer
send_loop_ends_example =
    send_loop_ends (moved 0 ∷ moved 0 ∷ interrupted ∷ moved 0 ∷ []) 3 buffer []
      (step 0 (step 0 (again (step 0 (done []))))) (omega arith)

recv_loop_exact_example :
    (nothing ++ stream ≡ buffer ++ rest) × (length buffer ≡ length nothing + 3)
unfolding recv_loop
recv_loop_exact_example = recv_loop_exact outcomes 3 [] stream buffer rest refl

abbrev elements : List ℤ
elements = pos 3 ∷ pos 5 ∷ []

validate_psi_set_iff_example :
    (validate_psi_set unset elements 7 ≡ ok tt)
    ↔ ((1 ≤ 2) × (2 ≤ 1048576) × All (IsElement 7) elements × IsDistinct elements)
validate_psi_set_iff_example = validate_psi_set_iff unset 1048576 7 elements default_limit
