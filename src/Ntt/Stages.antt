-- ===== src/Ntt/Stages.antt =====
-- The stages of the transform on whole blocks: a stage over two halves is the stage over each.
use native.Mathlib.Nat.{mod-eq_of_lt}
use rf_class_groups.Base.{
  ℕ, zero, suc, ◌+◌, ◌*◌, ◌-◌, ◌/◌, ◌%◌, ◌^◌, ◌≤◌, ◌<◌, ◌≡◌, refl, sym, ap, ◌∙◌, Bool, true, false,
  leb, ltb, ltb→lt, Bool-cases, inl, inr, List, [], ◌∷◌, ◌++◌, length, length-append, length-take,
  length-drop, take, drop, take-append, drop-append, Mpz, ok, arith,
}
use rf_class_groups.Base.Bits.{pow2, pow2_pos, pow2_add, pow2_mono}
use rf_class_groups.Config.{Env}
use rf_class_groups.Ntt.{
  butterflies, transform_block, transform_blocks, ntt_primitive_root, direction, stage_loop,
}

module _ {A : Type 0} where
  append-nil : (xs : List A) → xs ++ [] ≡ xs
  append-nil [] = refl
  append-nil (x ∷ xs) = ap (◌∷◌ x) (append-nil xs)

  append_assoc : (xs ys zs : List A) → (xs ++ ys) ++ zs ≡ xs ++ (ys ++ zs)
  append_assoc [] ys zs = refl
  append_assoc (x ∷ xs) ys zs = ap (◌∷◌ x) (append_assoc xs ys zs)

  take-append_left : (n : ℕ) (xs ys : List A) → n ≤ length xs → take n (xs ++ ys) ≡ take n xs
  take-append_left zero xs ys h = refl
  take-append_left (suc n) [] ys h = absurd (omega arith)
  take-append_left (suc n) (x ∷ xs) ys h = ap (◌∷◌ x) (take-append_left n xs ys (omega arith))

  drop-append_left : (n : ℕ) (xs ys : List A) → n ≤ length xs → drop n (xs ++ ys) ≡ drop n xs ++ ys
  drop-append_left zero xs ys h = refl
  drop-append_left (suc n) [] ys h = absurd (omega arith)
  drop-append_left (suc n) (x ∷ xs) ys h = drop-append_left n xs ys (omega arith)

module _ (q : ℕ) where
  length-butterflies :
      (wlen w : ℕ) (us xs : List ℕ)
      → length us ≡ length xs
      → (length (butterflies q wlen w us xs).0 ≡ length us)
        × (length (butterflies q wlen w us xs).1 ≡ length us)
  unfolding butterflies
  length-butterflies wlen w [] [] h = (refl, refl)
  length-butterflies wlen w [] (x ∷ xs) h = absurd (omega arith)
  length-butterflies wlen w (u ∷ us) [] h = absurd (omega arith)
  length-butterflies wlen w (u ∷ us) (x ∷ xs) h =
      let (a, b) = length-butterflies wlen (w * wlen % q) us xs (omega arith) in
      (ap suc a, ap suc b)

  length-transform_block :
      (wlen half : ℕ) (block : List ℕ)
      → length block ≡ 2 * half
      → length (transform_block q wlen half block) ≡ 2 * half
  unfolding transform_block
  length-transform_block wlen half block h =
      let front = length-take half block in
      let back = length-drop half block in
      let (a, b) =
        length-butterflies wlen 1 (take half block) (drop half block)
          (omega (arith, front, back)) in
      length-append (butterflies q wlen 1 (take half block) (drop half block)).0
        (butterflies q wlen 1 (take half block) (drop half block)).1
      ∙ omega (arith, a, b, front)

  -- A stage over `c` blocks of 2^(s+1) entries.
  pub stage : ℕ → ℕ → ℕ → List ℕ → List ℕ
  stage wlen s zero a = []
  stage wlen s (suc c) a =
      transform_block q wlen (pow2 s) (take (pow2 (suc s)) a)
      ++ stage wlen s c (drop (pow2 (suc s)) a)

  transform_blocks-stage :
      (fuel wlen s c : ℕ) (a : List ℕ)
      → c ≤ fuel
      → length a ≡ c * pow2 (suc s)
      → transform_blocks fuel q wlen (pow2 (suc s)) a ≡ stage wlen s c a
  unfolding transform_blocks stage
  transform_blocks-stage fuel wlen s zero [] h e = refl
  transform_blocks-stage fuel wlen s (suc c) [] h e = absurd (omega (arith, pow2_pos s))
  transform_blocks-stage fuel wlen s zero (x ∷ a) h e = absurd (omega arith)
  transform_blocks-stage zero wlen s (suc c) (x ∷ a) h e = absurd (omega arith)
  transform_blocks-stage (suc fuel) wlen s (suc c) (x ∷ a) h e =
      let half : pow2 (suc s) / 2 ≡ pow2 s = omega arith in
      rw
        (
          half,
          transform_blocks-stage fuel wlen s c (drop (pow2 (suc s)) (x ∷ a)) (omega arith)
              (length-drop (pow2 (suc s)) (x ∷ a) ∙ omega arith),
        )
        refl

  length-stage :
      (wlen s c : ℕ) (a : List ℕ)
      → length a ≡ c * pow2 (suc s)
      → length (stage wlen s c a) ≡ c * pow2 (suc s)
  unfolding stage
  length-stage wlen s zero a h = omega arith
  length-stage wlen s (suc c) a h =
      let first = length-take (pow2 (suc s)) a in
      let rest = length-drop (pow2 (suc s)) a in
      let block =
        length-transform_block wlen (pow2 s) (take (pow2 (suc s)) a) (omega (arith, first)) in
      length-append (transform_block q wlen (pow2 s) (take (pow2 (suc s)) a)) _
      ∙ omega (arith, block, length-stage wlen s c (drop (pow2 (suc s)) a) (omega (arith, rest)))

  stage-append :
      (wlen s c d : ℕ) (a b : List ℕ)
      → length a ≡ c * pow2 (suc s)
      → stage wlen s (c + d) (a ++ b) ≡ stage wlen s c a ++ stage wlen s d b
  unfolding stage
  stage-append wlen s zero d [] b h =
      ap (λ (n : ℕ). stage wlen s n b) {x = 0 + d} {y = d} (omega arith)
  stage-append wlen s zero d (x ∷ a) b h = absurd (omega arith)
  stage-append wlen s (suc c) d a b h =
      let fits : pow2 (suc s) ≤ length a = omega arith in
      let rest : length (drop (pow2 (suc s)) a) ≡ c * pow2 (suc s) =
        length-drop (pow2 (suc s)) a ∙ omega arith in
      let more : suc c + d ≡ suc (c + d) = omega arith in
      rw
        (
          more,
          take-append_left (pow2 (suc s)) a b fits,
          drop-append_left (pow2 (suc s)) a b fits,
          stage-append wlen s c d (drop (pow2 (suc s)) a) b rest,
        )
        (sym (append_assoc (transform_block q wlen (pow2 s) (take (pow2 (suc s)) a)) _ _))

module _ (q : ℕ) (W : ℕ → ℕ) where
  -- The first `s` stages over 2^k entries, where `W s` is the root for blocks of 2^s.
  unfoldable pub staged : ℕ → ℕ → List ℕ → List ℕ
  staged k zero a = a
  staged k (suc s) a = stage q (W (suc s)) s (pow2 (k - suc s)) (staged k s a)

  blocks_of : (k s : ℕ) → suc s ≤ k → pow2 k ≡ pow2 (k - suc s) * pow2 (suc s)
  blocks_of k s h =
      ap pow2 {x = k} {y = k - suc s + suc s} (omega arith) ∙ pow2_add (k - suc s) (suc s)

  pub length-staged :
      (k s : ℕ) (a : List ℕ) → s ≤ k → length a ≡ pow2 k → length (staged k s a) ≡ pow2 k
  unfolding staged
  length-staged k zero a h e = e
  length-staged k (suc s) a h e =
      let parts = blocks_of k s h in
      length-stage q (W (suc s)) s (pow2 (k - suc s)) (staged k s a)
        (length-staged k s a (omega arith) e ∙ parts)
      ∙ sym parts

  -- The stages up to a half's size work on the halves.
  pub staged-append :
      (k s : ℕ) (a b : List ℕ)
      → s ≤ k
      → length a ≡ pow2 k
      → length b ≡ pow2 k
      → staged (suc k) s (a ++ b) ≡ staged k s a ++ staged k s b
  unfolding staged
  staged-append k zero a b h e f = refl
  staged-append k (suc s) a b h e f =
      let twice : pow2 (suc k - suc s) ≡ pow2 (k - suc s) + pow2 (k - suc s) =
        ap pow2 {x = suc k - suc s} {y = suc (k - suc s)} (omega arith) ∙ omega arith in
      rw (staged-append k s a b (omega arith) e f, twice)
        (stage-append q (W (suc s)) s (pow2 (k - suc s)) (pow2 (k - suc s)) (staged k s a)
          (staged k s b) (length-staged k s a (omega arith) e ∙ blocks_of k s h))

  -- The last stage has one block.
  pub staged-last :
      (k : ℕ) (a b : List ℕ)
      → length a ≡ pow2 k
      → length b ≡ pow2 k
      → staged (suc k) (suc k) (a ++ b)
        ≡ (butterflies q (W (suc k)) 1 (staged k k a) (staged k k b)).0
          ++ (butterflies q (W (suc k)) 1 (staged k k a) (staged k k b)).1
  unfolding staged stage transform_block
  staged-last k a b e f =
      let one_block : pow2 (suc k - suc k) ≡ 1 =
        ap pow2 {x = suc k - suc k} {y = 0} (omega arith) in
      let size = length-staged k k a (omega arith) e in
      let size' = length-staged k k b (omega arith) f in
      let both = staged k k a ++ staged k k b in
      let whole : take (pow2 (suc k)) both ≡ both =
        ap (λ (n : ℕ). take n both) {x = pow2 (suc k)} {y = length both}
          (omega (arith, length-append (staged k k a) (staged k k b), size, size'))
        ∙ take_all both in
      let front : take (pow2 k) both ≡ staged k k a =
        ap (λ (n : ℕ). take n both) (sym size) ∙ take-append (staged k k a) (staged k k b) in
      let back : drop (pow2 k) both ≡ staged k k b =
        ap (λ (n : ℕ). drop n both) (sym size) ∙ drop-append (staged k k a) (staged k k b) in
      rw (staged-append k k a b (omega arith) e f, one_block, whole, front, back) (append-nil _)
    where
      take_all : (xs : List ℕ) → take (length xs) xs ≡ xs
      take_all [] = refl
      take_all (x ∷ xs) = ap (◌∷◌ x) (take_all xs)

module _ (mpz : Mpz) (getenv : Env) (q : ℕ) (inverse : Bool) (W : ℕ → ℕ)
    (roots : (s : ℕ)
      → s < 63
      → (r : ℕ) × (ntt_primitive_root mpz getenv (pow2 (suc s)) q ≡ ok r)
        × (direction mpz getenv inverse r q ≡ W (suc s))) where
  -- The loop over the lengths runs the stages, up to 2^62 entries.
  pub stage_loop-staged :
      (fuel s k : ℕ) (a : List ℕ)
      → k ≤ 62
      → s ≤ k
      → k < s + fuel
      → length a ≡ pow2 k
      → stage_loop mpz getenv fuel q inverse (pow2 k) (pow2 (suc s)) (staged q W k s a)
        ≡ ok (staged q W k k a)
  unfolding stage_loop staged
  stage_loop-staged zero s k a h l m e = absurd (omega arith)
  stage_loop-staged (suc fuel) s k a h l m e = elim (Bool-cases (ltb s k)) [
    | inl more ↦
        let below : s < k = ltb→lt s k more in
        let again : leb (pow2 (suc s)) (pow2 k) ≡ true = ground (arith, pow2_mono (suc s) k) in
        let next : pow2 (suc s) * 2 % 2 ^ 64 ≡ pow2 (suc (suc s)) =
          ap (λ (t : ℕ). t % 2 ^ 64) {x = pow2 (suc s) * 2} {y = pow2 (suc (suc s))} (omega arith)
          ∙ mod-eq_of_lt (omega (arith, pow2_mono (suc (suc s)) 63 (omega arith))) in
        let (r, found, same) = roots s (omega arith) in
        let blocks =
          transform_blocks-stage q (pow2 k) (W (suc s)) s (pow2 (k - suc s)) (staged q W k s a)
            (pow2_mono (k - suc s) k (omega arith))
            (length-staged q W k s a l e ∙ blocks_of q W k s below) in
        rw (again, found, same, next, blocks)
          (stage_loop-staged fuel (suc s) k a h below (omega arith) e)
    | inr last ↦
        let same : s ≡ k = ground arith in
        let stop : leb (pow2 (suc k)) (pow2 k) ≡ false = ground (arith, pow2_pos k) in
        rw (same, stop) refl
  ]

  -- All of it, from length 2 on.
  pub stage_loop-whole :
      (k : ℕ) (a : List ℕ)
      → k ≤ 62
      → length a ≡ pow2 k
      → stage_loop mpz getenv 65 q inverse (pow2 k) 2 a ≡ ok (staged q W k k a)
  stage_loop-whole k a h e =
      let first : staged q W k 0 a ≡ a = unfold staged in refl in
      rw first at (stage_loop-staged 65 0 k a h (omega arith) (omega arith) e)
