-- ===== src/Lanes/Metadata.antt =====
-- The handshake of one lane: send_rf_metadata and check_rf_metadata of cg_rf_ole_batch.hpp. The digest of
-- a process is SHA256 of the text of its parameters, 32 bytes; it is an argument here, and so is the
-- chunk size that the environment gives.
use rf_class_groups.Base.{
  ℕ, ◌^◌, ◌<◌, ◌≡◌, ◌↔◌, inl, inr, refl, sym, ap, ◌∙◌, Bool, true, false, ◌||◌, not, ◌==◌, ==_iff,
  ==_refl, Bool-cases, if◌then◌else◌, List, [], ◌∷◌, ◌++◌, length, Result, ok, ◌>>=◌, ◌>>◌,
  reject_if, lane_mismatch, arith,
}
use mathlib.Core.List.{append_assoc}
use rf_class_groups.Network.{send_u32, send_u64, recv_u32, recv_u64, recv_all}
use rf_class_groups.Network.Words.{recv_all-append, recv_u32-send_u32, recv_u64-send_u64}

-- 0x43470002.
abbrev pub lane_version : ℕ
lane_version = 1128726530

-- What the two ends of a lane have to agree on.
pub record LaneParameters : Type 0 where
  pub lanes : ℕ
  pub count : ℕ
  pub chunk : ℕ
  pub digest : List ℕ

unfoldable pub send_rf_metadata : LaneParameters → List ℕ
send_rf_metadata p =
    send_u32 lane_version
    ++ (send_u64 p.lanes ++ (send_u64 p.count ++ (send_u64 p.chunk ++ p.digest)))

-- `std::memcmp` of two digests of one length is not 0.
unfoldable pub differs : List ℕ → List ℕ → Bool
differs [] [] = false
differs [] (d ∷ ds) = true
differs (c ∷ cs) [] = true
differs (c ∷ cs) (d ∷ ds) = if c == d then differs cs ds else true

-- `version != ... || peer_lanes != lanes || ...`, of what was read.
unfoldable pub is_refused : LaneParameters → ℕ → LaneParameters → Bool
is_refused own version peer =
    not (version == lane_version)
    || not (peer.lanes == own.lanes)
    || not (peer.count == own.count)
    || not (peer.chunk == own.chunk)
    || differs peer.digest own.digest

-- What is left of the stream.
unfoldable pub check_rf_metadata : LaneParameters → List ℕ → Result (List ℕ)
check_rf_metadata own s = do
  (version, s₁) ← recv_u32 s
  (peer_lanes, s₂) ← recv_u64 s₁
  (peer_count, s₃) ← recv_u64 s₂
  (peer_chunk, s₄) ← recv_u64 s₃
  (peer_digest, s₅) ← recv_all 32 s₄
  reject_if
      (is_refused own version (record {
        lanes = peer_lanes;
        count = peer_count;
        chunk = peer_chunk;
        digest = peer_digest;
      }))
      lane_mismatch
  ok s₅

-- Sizes of 64 bits, and a digest of 32 bytes.
abbrev pub FitsWire : LaneParameters → Type 0
FitsWire p = (p.lanes < 2 ^ 64) × (p.count < 2 ^ 64) × (p.chunk < 2 ^ 64) × (length p.digest ≡ 32)

checked :
    (own peer : LaneParameters) (rest : List ℕ)
    → FitsWire peer
    → check_rf_metadata own (send_rf_metadata peer ++ rest)
      ≡ (reject_if (is_refused own lane_version peer) lane_mismatch >> ok rest)
unfolding check_rf_metadata send_rf_metadata
checked own peer rest (l, n, c, d) =
    let last : recv_all 32 (peer.digest ++ rest) ≡ ok (peer.digest, rest) =
      rw d at (recv_all-append peer.digest rest) in
    simp (
      append_assoc,
      recv_u32-send_u32 lane_version
          (send_u64 peer.lanes
            ++ (send_u64 peer.count ++ (send_u64 peer.chunk ++ (peer.digest ++ rest))))
          (omega arith),
      recv_u64-send_u64 peer.lanes
          (send_u64 peer.count ++ (send_u64 peer.chunk ++ (peer.digest ++ rest))) l,
      recv_u64-send_u64 peer.count (send_u64 peer.chunk ++ (peer.digest ++ rest)) n,
      recv_u64-send_u64 peer.chunk (peer.digest ++ rest) c,
      last,
    )

differs-same : (cs ds : List ℕ) → differs cs ds ≡ false → cs ≡ ds
unfolding differs
differs-same [] [] h = refl
differs-same [] (d ∷ ds) h = cc
differs-same (c ∷ cs) [] h = cc
differs-same (c ∷ cs) (d ∷ ds) h = elim (Bool-cases (c == d)) [
  | inl e ↦ let rest = differs-same cs ds (rw e at h) in rw ((==_iff c d).0 e, rest) refl
  | inr e ↦ absurd (clash (rw e at h))
]
  where
    clash : true ≡ false → ⊥
    clash k = cc

same-differs : (cs : List ℕ) → differs cs cs ≡ false
unfolding differs
same-differs [] = refl
same-differs (c ∷ cs) = rw (==_refl c, same-differs cs) refl

same_parameters :
    (own peer : LaneParameters)
    → peer.lanes ≡ own.lanes
    → peer.count ≡ own.count
    → peer.chunk ≡ own.chunk
    → peer.digest ≡ own.digest
    → peer ≡ own
same_parameters own peer a b c d =
    λ i. record { lanes = a i; count = b i; chunk = c i; digest = d i }

accepted : (own peer : LaneParameters) → is_refused own lane_version peer ≡ false → peer ≡ own
unfolding is_refused
accepted own peer h =
    let parts =
      split (peer.lanes == own.lanes) (peer.count == own.count) (peer.chunk == own.chunk)
        (differs peer.digest own.digest) h in
    same_parameters own peer ((==_iff _ _).0 parts.0) ((==_iff _ _).0 parts.1)
      ((==_iff _ _).0 parts.2) (differs-same peer.digest own.digest parts.3)
  where
    split :
        (a b c d : Bool)
        → (not a || not b || not c || d) ≡ false
        → (a ≡ true) × (b ≡ true) × (c ≡ true) × (d ≡ false)
    split true true true d h = (refl, refl, refl, h)
    split true true false d h = cc
    split true false c d h = cc
    split false b c d h = cc

-- With sizes of 64 bits and a digest of 32 bytes on the wire, a process accepts the metadata that its
-- peer sent exactly where the numbers of lanes and of items, the chunk size and the digests are equal,
-- and then it has read no byte of what follows.
pub check_rf_metadata-send_rf_metadata_iff :
    (own peer : LaneParameters) (rest : List ℕ)
    → FitsWire peer
    → (check_rf_metadata own (send_rf_metadata peer ++ rest) ≡ ok rest) ↔ (peer ≡ own)
check_rf_metadata-send_rf_metadata_iff own peer rest fits = (
  λ h.
      accepted own peer
        (passed (is_refused own lane_version peer) (sym (checked own peer rest fits) ∙ h)),
  λ e.
      checked own peer rest fits
      ∙ ap (λ (b : Bool). reject_if b lane_mismatch >> ok rest)
          (ap (is_refused own lane_version) e ∙ agrees own),
)
  where
    passed : (b : Bool) → (reject_if b lane_mismatch >> ok rest) ≡ ok rest → b ≡ false
    passed true h = cc
    passed false h = refl

    agrees : (own : LaneParameters) → is_refused own lane_version own ≡ false
    agrees own =
        unfold is_refused in
        rw (==_refl own.lanes, ==_refl own.count, ==_refl own.chunk, same-differs own.digest) refl
