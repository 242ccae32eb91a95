-- ===== src/Ntt/Reversal.antt =====
-- The loop of swaps puts each entry at the index with the reversed bits.
use rf_class_groups.Base.{
  ℕ, zero, suc, ◌+◌, ◌-◌, ◌/◌, ◌≤◌, ◌<◌, ◌≡◌, ◌≢◌, ◌⊎◌, inl, inr, refl, sym, ap, ◌∙◌, false, ◌||◌,
  ◌==◌, ==_iff, ==→≢, ltb, ltb→lt, lt→ltb, le→ltb, Bool-cases, if◌then◌else◌, List, [], ◌∷◌, length,
  get_or, set, arith,
}
use rf_class_groups.Base.Bits.{pow2, pow2_pos}
use rf_class_groups.Ntt.{swap, reverse_loop, bit_reverse}
use rf_class_groups.Ntt.Order.{
  reversed, reversed-lt, reversed-reversed, reversed-zero, next_reversed-reversed,
}
use rf_class_groups.Ntt.Reorder.{reorder, length-reorder, get_or-reorder, entries-determine}

get_or-set :
    (a : List ℕ) (i j v : ℕ)
    → i < length a
    → get_or (set a i v) j 0 ≡ (if i == j then v else get_or a j 0)
get_or-set [] i j v h = absurd (omega arith)
get_or-set (x ∷ a) zero zero v h = refl
get_or-set (x ∷ a) zero (suc j) v h = ground arith
get_or-set (x ∷ a) (suc i) zero v h = ground arith
get_or-set (x ∷ a) (suc i) (suc j) v h = ground (arith, get_or-set a i j v)

pub length-set : (ys : List ℕ) (p e : ℕ) → length (set ys p e) ≡ length ys
length-set [] p e = refl
length-set (y ∷ ys) zero e = refl
length-set (y ∷ ys) (suc p) e = ap suc (length-set ys p e)

length-swap : (a : List ℕ) (i j : ℕ) → length (swap a i j) ≡ length a
unfolding swap
length-swap a i j =
    length-set (set a i (get_or a j 0)) j (get_or a i 0) ∙ length-set a i (get_or a j 0)

get_or-swap :
    (a : List ℕ) (i j p : ℕ)
    → i < length a
    → j < length a
    → get_or (swap a i j) p 0
      ≡ (if j == p then get_or a i 0 else if i == p then get_or a j 0 else get_or a p 0)
unfolding swap
get_or-swap a i j p h k =
    rw
      (
        get_or-set (set a i (get_or a j 0)) j p (get_or a i 0)
            (rw (length-set a i (get_or a j 0)) k),
        get_or-set a i p (get_or a j 0) h,
      )
      refl

module _ (k : ℕ) (a : List ℕ) where
  -- The entries that are in place before index `m` is handled, and those that have not moved.
  abbrev expected : ℕ → ℕ → ℕ
  expected m p = if ltb p m || ltb (reversed k p) m then get_or a (reversed k p) 0 else get_or a p 0

  abbrev IsPartly : ℕ → List ℕ → Type 0
  IsPartly m b = (length b ≡ pow2 k) × ((p : ℕ) → p < pow2 k → get_or b p 0 ≡ expected m p)

  -- Away from the two indices of a step nothing changes.
  elsewhere :
      (m p : ℕ)
      → m < pow2 k
      → p < pow2 k
      → p ≢ m
      → p ≢ reversed k m
      → expected (suc m) p ≡ expected m p
  elsewhere m p h l e e' =
      let other : reversed k p ≢ m =
        λ same. e' (sym (reversed-reversed k p l) ∙ ap (reversed k) same) in
      ground (arith)

  -- What is expected at the two indices of a step.
  expected-index : (m : ℕ) → expected (suc m) m ≡ get_or a (reversed k m) 0
  expected-index m = rw (lt→ltb m (suc m) (omega arith)) refl

  expected-reversed :
      (m : ℕ) → m < pow2 k → m < reversed k m → expected (suc m) (reversed k m) ≡ get_or a m 0
  expected-reversed m h l =
      rw
        (
          reversed-reversed k m h,
          le→ltb (reversed k m) (suc m) (omega arith),
          lt→ltb m (suc m) (omega arith),
        )
        refl

  swapped :
      (m : ℕ) (b : List ℕ)
      → m < pow2 k
      → m < reversed k m
      → IsPartly m b
      → IsPartly (suc m) (swap b m (reversed k m))
  swapped m b h l (size, entries) =
      let j = reversed k m in
      let below : j < pow2 k = reversed-lt k m in
      let back : reversed k j ≡ m = reversed-reversed k m h in
      let later : ltb j m ≡ false = le→ltb j m (omega arith) in
      let now : ltb m m ≡ false = le→ltb m m (omega arith) in
      let at_m : get_or b m 0 ≡ get_or a m 0 = entries m h ∙ rw (later, now) refl in
      let at_j : get_or b j 0 ≡ get_or a j 0 = entries j below ∙ rw (back, later, now) refl in
      (
        length-swap b m j ∙ size,
        λ p r.
            get_or-swap b m j p (omega (arith, size)) (omega (arith, size, below))
            ∙ elim (Bool-cases (j == p)) [
              | inl e ↦
                  rw (e, at_m)
                    (sym (expected-reversed m h l) ∙ ap (expected (suc m)) ((==_iff j p).0 e))
              | inr e ↦ elim (Bool-cases (m == p)) [
                | inl f ↦
                    rw (e, f, at_j)
                      (sym (expected-index m) ∙ ap (expected (suc m)) ((==_iff m p).0 f))
                | inr f ↦
                    rw (e, f)
                      (entries p r
                        ∙ sym
                            (elsewhere m p h r (λ s. ==→≢ m p f (sym s)) (λ s. ==→≢ j p e (sym s))))
              ]
            ],
      )

  -- An index below `m`, one whose partner is, and one that is its own partner.
  settled :
      (m p : ℕ)
      → ((p < m) ⊎ (reversed k p < m)) ⊎ (reversed k p ≡ p)
      → expected m p ≡ get_or a (reversed k p) 0
  settled m p (inl (inl h)) = rw (lt→ltb p m h) refl
  settled m p (inl (inr h)) =
      rw (lt→ltb (reversed k p) m h)
        (elim (Bool-cases (ltb p m)) [ inl e ↦ rw e refl | inr e ↦ rw e refl ])
  settled m p (inr h) = elim (Bool-cases (ltb p m || ltb (reversed k p) m)) [
    | inl e ↦ rw e refl
    | inr e ↦ rw e (ap (λ (t : ℕ). get_or a t 0) (sym h))
  ]

  -- A step without a swap: the index is its own partner, or its partner was handled before.
  not_swapped :
      (m : ℕ) (b : List ℕ) → m < pow2 k → reversed k m ≤ m → IsPartly m b → IsPartly (suc m) b
  not_swapped m b h l (size, entries) = (
    size,
    λ p r. entries p r ∙ elim (Bool-cases (m == p)) [
      | inl f ↦ rw (sym ((==_iff m p).0 f)) (unmoved m at_index)
      | inr f ↦ elim (Bool-cases (reversed k m == p)) [
        | inl e ↦ rw (sym ((==_iff (reversed k m) p).0 e)) (unmoved (reversed k m) partner)
        | inr e ↦
            sym (elsewhere m p h r (λ s. ==→≢ m p f (sym s)) (λ s. ==→≢ (reversed k m) p e (sym s)))
      ]
    ],
  )
    where
      Settled : ℕ → Type 0
      Settled p = ((p < m) ⊎ (reversed k p < m)) ⊎ (reversed k p ≡ p)

      unmoved : (p : ℕ) → Settled p → expected m p ≡ expected (suc m) p
      unmoved p e = settled m p e ∙ sym (settled (suc m) p (later e))
        where
          later : Settled p → ((p < suc m) ⊎ (reversed k p < suc m)) ⊎ (reversed k p ≡ p)
          later (inl (inl e)) = inl (inl (omega arith))
          later (inl (inr e)) = inl (inr (omega arith))
          later (inr e) = inr e

      at_index : Settled m
      at_index = elim (Bool-cases (ltb (reversed k m) m)) [
        | inl before ↦ inl (inr (ltb→lt (reversed k m) m before))
        | inr same ↦ inr (ground arith)
      ]

      partner : Settled (reversed k m)
      partner = elim (Bool-cases (ltb (reversed k m) m)) [
        | inl before ↦ inl (inl (ltb→lt (reversed k m) m before))
        | inr same ↦ let fixed : reversed k m ≡ m = ground arith in inr (ap (reversed k) fixed)
      ]

  -- One round of the loop.
  step-IsPartly :
      (m : ℕ) (b : List ℕ)
      → m < pow2 k
      → IsPartly m b
      → IsPartly (suc m) (if ltb m (reversed k m) then swap b m (reversed k m) else b)
  step-IsPartly m b h part = elim (Bool-cases (ltb m (reversed k m))) [
    | inl e ↦ rw e (swapped m b h (ltb→lt m (reversed k m) e) part)
    | inr e ↦ rw e (not_swapped m b h (ground arith) part)
  ]

-- The loop from index `m` on, where `j` is the partner of the index before it.
reverse_loop-IsPartly :
    (k steps m : ℕ) (a b : List ℕ)
    → k < 64
    → suc m + steps ≡ pow2 (suc k)
    → IsPartly (suc k) a (suc m) b
    → IsPartly
        (suc k)
        a
        (pow2 (suc k))
        (reverse_loop (pow2 (suc k)) steps (suc m) (reversed (suc k) m) b)
unfolding reverse_loop
reverse_loop-IsPartly k zero m a b l e part =
    let same : suc m ≡ pow2 (suc k) = omega arith in rw same at part
reverse_loop-IsPartly k (suc steps) m a b l e part =
    let half : pow2 (suc k) / 2 ≡ pow2 k = omega arith in
    rw (half, next_reversed-reversed 65 k m (omega arith) (omega arith))
      (reverse_loop-IsPartly k steps (suc m) a
        (if ltb (suc m) (reversed (suc k) (suc m))
          then swap b (suc m) (reversed (suc k) (suc m))
          else b)
        l (omega arith) (step-IsPartly (suc k) a (suc m) b (omega arith) part))

-- At first only index 0 is in place.
start-IsPartly : (k : ℕ) (a : List ℕ) → length a ≡ pow2 k → IsPartly k a 1 a
start-IsPartly k a size = (
  size,
  λ p h. elim (Bool-cases (p == 0)) [
    | inl e ↦
        let zero_index : p ≡ 0 = (==_iff p 0).0 e in
        sym (settled k a 1 p (inl (inl (omega arith))) ∙ rw (zero_index, reversed-zero k) refl)
    | inr e ↦
        let away : p ≢ 0 = ==→≢ p 0 e in
        let away' : reversed k p ≢ 0 =
          λ z. away (sym (reversed-reversed k p h) ∙ ap (reversed k) z ∙ reversed-zero k) in
        rw (le→ltb p 1 (omega arith), le→ltb (reversed k p) 1 (omega arith)) refl
  ],
)

-- For a vector of 2^k entries, k at most 64, the swaps put at each index the entry from the index with
-- its `k` bits reversed.
pub bit_reverse-reorder :
    (k : ℕ) (a : List ℕ) → k ≤ 64 → length a ≡ pow2 k → bit_reverse a ≡ reorder k a
unfolding bit_reverse
bit_reverse-reorder zero a l size =
    let none_left : length a - 1 ≡ 0 = omega arith in
    rw none_left (unfold reverse_loop in unfold reorder in refl)
bit_reverse-reorder (suc k) a l size =
    let (length_b, entries) =
      reverse_loop-IsPartly k (pow2 (suc k) - 1) 0 a a (omega arith) (omega (arith, pow2_pos k))
        (start-IsPartly (suc k) a size) in
    rw (size, sym (reversed-zero (suc k)))
      (entries-determine _ (reorder (suc k) a) (length_b ∙ sym (length-reorder (suc k) a size))
        (λ i h.
          let below : i < pow2 (suc k) = omega (arith, length_b) in
          entries i below
          ∙ settled (suc k) a (pow2 (suc k)) i (inl (inl below))
          ∙ sym (get_or-reorder (suc k) a i size below)))
