-- ===== src/Lanes/Accept.antt =====
-- The loop of accept_rf_lanes in cg_rf_ole_batch.hpp: each connection announces its lane. A connection is
-- its descriptor with the bytes that arrive on it; what the loop sends back, and the sockets that a
-- failure closes, are left out.
use rf_class_groups.Base.{
  ℕ, zero, suc, ◌+◌, ◌<◌, ◌≡◌, ◌⊎◌, inl, inr, refl, sym, ap, ◌∙◌, Bool, true, false, ◌||◌, leb,
  if◌then◌else◌, Option, none, some, List, [], ◌∷◌, length, set, replicate, length-replicate,
  Result, ok, err, ok_injective, >>=-eq-ok, ◌>>=◌, ◌>>◌, reject_if, invalid_lane_id, arith,
}
use rf_class_groups.Config.{Env, cg_validate_count}
use rf_class_groups.Network.{recv_u64}
use rf_class_groups.Lanes.Metadata.{LaneParameters, check_rf_metadata}

pub record Connection : Type 0 where
  pub fd : ℕ
  pub stream : List ℕ

-- `fds[lane]`, where -1 is `none`.
unfoldable pub slot : List (Option ℕ) → ℕ → Option ℕ
slot [] lane = none
slot (x ∷ fds) zero = x
slot (x ∷ fds) (suc lane) = slot fds lane

unfoldable pub is_taken : Option ℕ → Bool
is_taken none = false
is_taken (some fd) = true

unfoldable pub check_lane : Bool → LaneParameters → List ℕ → Result (Unit {0})
check_lane validate own s = if validate then (check_rf_metadata own s >> ok tt) else ok tt

-- One turn of the loop.
unfoldable pub accept_lane :
    Bool → LaneParameters → Connection → List (Option ℕ) → Result (List (Option ℕ))
accept_lane validate own connection fds = do
  (lane, s) ← recv_u64 connection.stream
  reject_if (leb own.lanes lane || is_taken (slot fds lane)) invalid_lane_id
  check_lane validate own s
  ok (set fds lane (some connection.fd))

unfoldable pub accept_loop :
    Bool → LaneParameters → List Connection → List (Option ℕ) → Result (List (Option ℕ))
accept_loop validate own [] fds = ok fds
accept_loop validate own (c ∷ connections) fds =
    accept_lane validate own c fds >>= λ more. accept_loop validate own connections more

-- The connections are the first `lanes` that arrive.
unfoldable pub accept_rf_lanes :
    Env → Bool → LaneParameters → List Connection → Result (List (Option ℕ))
accept_rf_lanes getenv validate own connections =
    cg_validate_count getenv own.count false
    >> accept_loop validate own connections (replicate own.lanes none)

-- How many slots have no socket.
abbrev vacant : List (Option ℕ) → ℕ
vacant [] = 0
vacant (none ∷ fds) = suc (vacant fds)
vacant (some fd ∷ fds) = vacant fds

length-set : (fds : List (Option ℕ)) (lane fd : ℕ) → length (set fds lane (some fd)) ≡ length fds
length-set [] lane fd = refl
length-set (x ∷ fds) zero fd = refl
length-set (x ∷ fds) (suc lane) fd = ap suc (length-set fds lane fd)

vacant-set :
    (fds : List (Option ℕ)) (lane fd : ℕ)
    → lane < length fds
    → is_taken (slot fds lane) ≡ false
    → vacant fds ≡ suc (vacant (set fds lane (some fd)))
unfolding slot is_taken
vacant-set [] lane fd h k = absurd (omega (arith, h))
vacant-set (none ∷ fds) zero fd h k = refl
vacant-set (some d ∷ fds) zero fd h k = cc
vacant-set (none ∷ fds) (suc lane) fd h k = ap suc (vacant-set fds lane fd (omega (arith, h)) k)
vacant-set (some d ∷ fds) (suc lane) fd h k = vacant-set fds lane fd (omega (arith, h)) k

slot-set :
    (fds : List (Option ℕ)) (lane l fd : ℕ)
    → lane < length fds
    → ((l ≡ lane) × (slot (set fds lane (some fd)) l ≡ some fd))
      ⊎ (slot (set fds lane (some fd)) l ≡ slot fds l)
unfolding slot
slot-set [] lane l fd h = absurd (omega (arith, h))
slot-set (x ∷ fds) zero zero fd h = inl (refl, refl)
slot-set (x ∷ fds) zero (suc l) fd h = inr refl
slot-set (x ∷ fds) (suc lane) zero fd h = inr refl
slot-set (x ∷ fds) (suc lane) (suc l) fd h = elim (slot-set fds lane l fd (omega (arith, h))) [
  | inl (e, s) ↦ inl (ap suc e, s)
  | inr s ↦ inr s
]

slot-full :
    (fds : List (Option ℕ)) (l : ℕ)
    → vacant fds ≡ 0
    → l < length fds
    → (fd : ℕ) × (slot fds l ≡ some fd)
unfolding slot
slot-full [] l h k = absurd (omega (arith, k))
slot-full (none ∷ fds) l h k = absurd (omega (arith, h))
slot-full (some fd ∷ fds) zero h k = (fd, refl)
slot-full (some fd ∷ fds) (suc l) h k = slot-full fds l h (omega (arith, k))

-- One of the connections announced this lane, and has this descriptor.
abbrev pub Announced : List Connection → ℕ → ℕ → Type 0
Announced [] lane fd = ⊥
Announced (c ∷ connections) lane fd =
    ((rest : List ℕ) × (recv_u64 c.stream ≡ ok (lane, rest)) × (c.fd ≡ fd))
    ⊎ Announced connections lane fd

not_rejected :
    {next : Result (List (Option ℕ))} {more : List (Option ℕ)} (lanes lane : ℕ) (taken : Bool)
    → (reject_if (leb lanes lane || taken) invalid_lane_id >> next) ≡ ok more
    → (lane < lanes) × (taken ≡ false) × (next ≡ ok more)
not_rejected lanes lane taken h = ground arith

check_passed :
    (first : Result (Unit {0})) {next : Result (List (Option ℕ))} {more : List (Option ℕ)}
    → (first >> next) ≡ ok more
    → next ≡ ok more
check_passed (err failure) h = cc
check_passed (ok u) h = h

same_fd : {d fd : ℕ} → some d ≡ some fd → d ≡ fd
same_fd h = cc

all_vacant : (n : ℕ) → vacant (replicate n none) ≡ n
all_vacant zero = refl
all_vacant (suc n) = ap suc (all_vacant n)

no_socket : (n l fd : ℕ) → ¬ (slot (replicate n none) l ≡ some fd)
unfolding slot
no_socket zero l fd h = cc
no_socket (suc n) zero fd h = cc
no_socket (suc n) (suc l) fd h = no_socket n l fd h

module _ (validate : Bool) (own : LaneParameters) where
  accept_lane-set :
      (c : Connection) (fds more : List (Option ℕ))
      → accept_lane validate own c fds ≡ ok more
      → (lane : ℕ) × (lane < own.lanes)
        × (is_taken (slot fds lane) ≡ false)
        × (more ≡ set fds lane (some c.fd))
        × Announced (c ∷ []) lane c.fd
  unfolding accept_lane
  accept_lane-set c fds more h =
      let ((lane, rest), e, h₁) = >>=-eq-ok (recv_u64 c.stream) _ h in
      let (below, free, h₂) = not_rejected own.lanes lane (is_taken (slot fds lane)) h₁ in
      let h₃ = check_passed (check_lane validate own rest) h₂ in
      (lane, below, free, sym (ok_injective h₃), inl (rest, e, refl))

  accept_loop-slots :
      (connections : List Connection) (fds more : List (Option ℕ))
      → accept_loop validate own connections fds ≡ ok more
      → length fds ≡ own.lanes
      → (length more ≡ own.lanes)
        × (vacant fds ≡ length connections + vacant more)
        × ((l fd : ℕ) → slot more l ≡ some fd → (slot fds l ≡ some fd) ⊎ Announced connections l fd)
  unfolding accept_loop
  accept_loop-slots [] fds more h size =
      let same = ok_injective h in rw (sym same) (size, omega arith, λ l fd e. inl e)
  accept_loop-slots (c ∷ connections) fds more h size =
      let (next, e, h₁) = >>=-eq-ok (accept_lane validate own c fds) _ h in
      let (lane, below, free, set_at, heard) = accept_lane-set c fds next e in
      let next_size = ap length set_at ∙ length-set fds lane c.fd ∙ size in
      let (final, left, from) = accept_loop-slots connections next more h₁ next_size in
      let one_less = vacant-set fds lane c.fd (omega (arith, size, below)) free in
      (
        final,
        omega (arith, one_less, left, ap vacant set_at),
        λ l fd s. before l fd (from l fd s) set_at (omega (arith, size, below)) heard,
      )
    where
      before :
          (l fd : ℕ) {next : List (Option ℕ)} {lane : ℕ}
          → (slot next l ≡ some fd) ⊎ Announced connections l fd
          → next ≡ set fds lane (some c.fd)
          → lane < length fds
          → Announced (c ∷ []) lane c.fd
          → (slot fds l ≡ some fd) ⊎ Announced (c ∷ connections) l fd
      before l fd (inr later) e below heard = inr (inr later)
      before l fd {next} {lane} (inl now) e below heard = elim (slot-set fds lane l c.fd below) [
        | inl (same, here) ↦ elim heard [
          | inl (rest, r, _) ↦ inr (
              inl (
                rest,
                rw same r,
                same_fd (sym here ∙ ap (λ (x : List (Option ℕ)). slot x l) (sym e) ∙ now),
              ))
          | inr none' ↦ absurd none'
        ]
        | inr kept ↦ inl (sym kept ∙ ap (λ (x : List (Option ℕ)). slot x l) (sym e) ∙ now)
      ]

  -- Where as many connections as there are lanes were accepted, every lane has one socket: that of a
  -- connection that announced this lane.
  pub accept_rf_lanes-Announced :
      (getenv : Env) (connections : List Connection) (fds : List (Option ℕ))
      → length connections ≡ own.lanes
      → accept_rf_lanes getenv validate own connections ≡ ok fds
      → (length fds ≡ own.lanes)
        × ((l : ℕ) → l < own.lanes → (fd : ℕ) × (slot fds l ≡ some fd) × Announced connections l fd)
  unfolding accept_rf_lanes
  accept_rf_lanes-Announced getenv connections fds many h =
      let start = replicate own.lanes none in
      let looped = check_passed (cg_validate_count getenv own.count false) h in
      let (size, left, from) =
        accept_loop-slots connections start fds looped (length-replicate own.lanes none) in
      let full : vacant fds ≡ 0 = omega (arith, left, many, all_vacant own.lanes) in
      (
        size,
        λ l below.
            let (fd, here) = slot-full fds l full (omega (arith, size, below)) in
            (fd, here, new l fd (from l fd here)),
      )
    where
      new :
          (l fd : ℕ)
          → (slot (replicate own.lanes none) l ≡ some fd) ⊎ Announced connections l fd
          → Announced connections l fd
      new l fd (inl old) = absurd (no_socket own.lanes l fd old)
      new l fd (inr announced) = announced
