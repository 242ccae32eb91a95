-- ===== src/Lib.antt =====
-- Class-group oblivious linear evaluation (OLE) with reverse firewalls, and the protocols over it.
--
-- The program is a set of processes that talk over sockets. A receiver holds a vector x, a sender
-- holds vectors a and b; the receiver is to learn a * x + b, index by index, under a linearly
-- homomorphic encryption over class groups. In the firewalled runs two more processes stand between
-- them, the receiver's and the sender's firewall, which shift the public key by a secret exponent and
-- rerandomise every ciphertext that passes. Polynomial evaluation (OPE) and three-round OLE are built on
-- these runs. Polynomial addition (OPA) runs a batch at public points, and private set intersection (PSI)
-- runs OPA on the polynomials that vanish on the two sets, then interpolates.
--
-- Files, and what each is about:
-- Base: shared names, vectors, Boolean tests, failures, congruence modulo q.
-- Config: cg_config.hpp (cg_parse_u64, cg_parse_size, cg_max_items, cg_checked_add, ...).
--   std::getenv is a function from names to bytes; an exception is `err` with a Failure.
-- Network: cg_network.hpp. A socket is the list of bytes in flight. send_all and recv_all
--   are also modelled as loops over what each system call returns (Network.Stream). GMP's export and
--   import are the parameter Gmp with the hypotheses IsGmp; BICYCL's forms are the parameter Forms.
-- Lanes: rf_lane_range, rf_lane_range_intersection and rf_active_lanes of cg_rf_ole_batch.hpp, by which a
--   vector is cut over several sockets; Lanes.Metadata is send_rf_metadata and check_rf_metadata, and
--   Lanes.Accept the loop of accept_rf_lanes.
-- Scheme: third_party/cg_ahe/cg_ahe.hpp (CG_Scheme), and maul_pk, maul_ct_forward, maul_ct_inverse,
--   maul_fwd_rerand, maul_inv_rerand of cg_rf_common.hpp, make_enc_zero_pair of cg_ole3_common.hpp.
--   BICYCL's CL_HSMqk is the parameter ClassGroups; Scheme.Laws states what it documents: two groups,
--   a homomorphism between them, powers of h and f, and a discrete logarithm in decryption.
-- Ole: the batched OLE of cg_ope_common.hpp (direct_ole_batch_receive and _send) and of
--   cg_rf_ole_batch.hpp, with the firewalls cg_rf_receiver_firewall_opa.cpp and
--   cg_rf_sender_firewall_opa.cpp; cg_receiver.cpp, cg_rrf.cpp, cg_srf.cpp and cg_sender.cpp are the
--   same roles one ciphertext at a time. A round is a function from the vector that arrives to the
--   vector that leaves; a process draws its randomness from functions of the index.
-- Ole3: cg_ole3_common.hpp, cg_ole3_sender.cpp, cg_ole3_receiver.cpp and their firewalled versions.
-- Ope: the Horner-to-OLE reduction of cg_ope_common.hpp, and the programs cg_ope_receiver.cpp,
--   cg_ope_sender.cpp, cg_rf_ope_receiver.cpp and cg_rf_ope_sender.cpp.
-- Poly: polynomials modulo q of cg_rf_common.hpp; Poly.Karatsuba is poly_mul_mod by halves, and Poly.Tree the
--   evaluation by remainders along the product tree.
-- Ntt: the number-theoretic transform of cg_rf_common.hpp (ntt_inplace, poly_mul_ntt_mod,
--   poly_eval_batch_ntt, lagrange_interpolate_ntt). The operations of BICYCL::Mpz that it calls are the
--   parameter Mpz with the hypotheses IsMpz.
-- Multiplication: the whole of poly_mul_mod of cg_rf_common.hpp, with the branch that takes the transform
--   and the failure of a CG_NTT_POLY_THRESHOLD that does not parse; Multiplication.Trees has the product
--   trees over it, which Evaluation, Interpolation and Psi use (names in _auto). Multiplication.Unchanged
--   compares them with the trees over Karatsuba's recursion alone.
-- Public: public_eval_points_cached and is_public_eval_points of cg_rf_common.hpp.
-- Evaluation: poly_eval_batch_auto of cg_rf_common.hpp and the environment variables that steer it.
-- Lagrange: the points 1, ..., N and lagrange_eval_batch of cg_rf_common.hpp.
-- Interpolation: lagrange_interpolate_from_tree and lagrange_eval_batch_auto of cg_rf_common.hpp.
-- Opa: cg_opa.hpp and cg_rf_opa.hpp. The batch below is a parameter that the theorems of Ole fill.
-- Psi: validate_psi_set of cg_rf_common.hpp; Psi.Protocol is cg_psi_sender.cpp, cg_psi_receiver.cpp,
--   cg_rf_psi_sender.cpp and cg_rf_psi_receiver.cpp; Psi.Reveal is the step that cg_psi2_sender.cpp and
--   cg_psi2_receiver.cpp add, and Psi.Reveal.Encrypted the four programs cg_rf_psi2_reveal_*.cpp.
--   Psi.Input is read_mpz_list_file. What a process draws for its masks is a function of the index.
-- Pool: the tasks of CGThreadPool::parallel_for (cg_thread_pool.hpp), move by move under a schedule that
--   names whose move is next. The other parts use map_range of Ole, one pass over the indices.
-- Examples: the theorems at concrete inputs. Scheme.Model and Network.Model hold small instances of
--   the parameters on which their hypotheses hold; Examples.Transforms has an Mpz.
--
-- Integers: a BICYCL::Mpz is a natural number where the code keeps it at least 0, and an integer on
-- the wire; `Mpz::mod` is written out, and `Mpz::sub` followed by `Mpz::mod` is sub_mod. A uint32 or
-- uint64 is a natural number below 2^32 or 2^64. poly_eval and lagrange_eval_batch count with an int:
-- int_pred is `(int)n - 1` for a size n, exact below 2^31.
--
-- Counts: every process of a batch checks its number of items when it opens its lanes
-- (cg_validate_count). The model checks it for all processes of a run before the run (validate_counts of
-- Ole), each with its own environment. The chunk size, which
-- rf_chunk_size reads, is an argument, and the items of a run are not split over lanes: the model
-- begins where rf_chunk_size and rf_transport_lanes have returned.
--
-- Fuel: a loop over chunks runs on the number of items left, which is enough because a chunk is not
-- empty; a product tree runs on the number of its leaves, since every level is shorter than the one
-- below it; Karatsuba's recursion runs on the size of the larger factor, since both halves are smaller; the
-- transform has at most 64 rounds, since its sizes are powers of two below 2^64.
-- The loops over system calls run on the outcomes of the calls.
--
-- Not modelled: opening and tuning sockets, connecting the lanes, their threads, the
-- workers of the pool with their queue and condition variables, files,
-- clocks, profiling output, random generators (their draws are arguments), BICYCL and GMP
-- (parameters; so are the digest of the lane handshake, and Mpz::mod_inverse and Mpz::pow_mod with the
-- hypotheses IsMpz and that Z_q is a field), command-line arguments, and NTL, which a build option
-- selects. Caches are left out, since they return what they would compute.
pub mod Base
pub mod Config
pub mod Network
pub mod Lanes
pub mod Scheme
pub mod Ole
pub mod Ole3
pub mod Evaluation
pub mod Interpolation
pub mod Lagrange
pub mod Opa
pub mod Ope
pub mod Examples
pub mod Poly
pub mod Pool
pub mod Ntt
pub mod Psi
pub mod Public
pub mod Multiplication
