-- ===== src/Ole/Chunks.antt =====
-- Cutting a round into chunks does not change its result.
use rf_class_groups.Base.{
  ℕ, zero, suc, ◌+◌, ◌≤◌, ◌≡◌, refl, ap, ◌∙◌, List, [], ◌∷◌, ◌++◌, length, take, drop, length-drop,
  Result, ok, err, ◌>>=◌, arith,
}
use rf_class_groups.Ole.{map_range, chunk_loop, in_chunks}

module _ {A B : Type 0} (f : ℕ → A → Result B) where
  joined : Result (List B) → Result (List B) → Result (List B)
  joined m n = m >>= λ ys. n >>= λ zs. ok (ys ++ zs)

  joined-none : (m : Result (List B)) → joined (ok []) m ≡ m
  joined-none (ok ys) = unfold joined in refl
  joined-none (err e) = unfold joined in refl

  joined-cons :
      (m n : Result (List B)) (y : B)
      → joined (m >>= λ ys. ok (y ∷ ys)) n ≡ (joined m n >>= λ ys. ok (y ∷ ys))
  joined-cons (err e) n y = unfold joined in refl
  joined-cons (ok ys) (ok zs) y = unfold joined in refl
  joined-cons (ok ys) (err e) y = unfold joined in refl

  later_cut :
      (head : Result B) (m n r : Result (List B))
      → joined m n ≡ r
      → joined (head >>= λ y. m >>= λ ys. ok (y ∷ ys)) n ≡ (head >>= λ y. r >>= λ ys. ok (y ∷ ys))
  later_cut (err e) m n r h = unfold joined in refl
  later_cut (ok y) m n r h =
      joined-cons m n y ∙ ap (λ (k : Result (List B)). k >>= λ ys. ok (y ∷ ys)) h

  -- A range can be cut anywhere.
  map_range-append :
      (n begin : ℕ) (xs : List A)
      → joined (map_range f begin (take n xs)) (map_range f (begin + n) (drop n xs))
        ≡ map_range f begin xs
  unfolding map_range
  map_range-append zero begin xs =
      joined-none (map_range f (begin + 0) xs)
      ∙ ap (λ (b : ℕ). map_range f b xs) {x = begin + 0} {y = begin} (omega arith)
  map_range-append (suc n) begin [] = joined-none (ok [])
  map_range-append (suc n) begin (x ∷ xs) =
      later_cut (f begin x) (map_range f (suc begin) (take n xs))
        (map_range f (begin + suc n) (drop n xs)) (map_range f (suc begin) xs)
        (ap (λ (b : ℕ). joined (map_range f (suc begin) (take n xs)) (map_range f b (drop n xs)))
            {x = begin + suc n} {y = suc begin + n} (omega arith)
          ∙ map_range-append n (suc begin) xs)

  chunk_loop-map_range :
      (fuel chunk begin : ℕ) (xs : List A)
      → 1 ≤ chunk
      → length xs ≤ fuel
      → chunk_loop f fuel chunk begin xs ≡ map_range f begin xs
  unfolding chunk_loop
  chunk_loop-map_range fuel chunk begin [] h k = unfold map_range in refl
  chunk_loop-map_range zero chunk begin (x ∷ xs) h k = absurd (omega arith)
  chunk_loop-map_range (suc fuel) chunk begin (x ∷ xs) h k =
      rw
        (chunk_loop-map_range fuel chunk (begin + chunk) (drop chunk (x ∷ xs)) h
          (omega (arith, length-drop chunk (x ∷ xs))))
        (unfold joined in map_range-append chunk begin (x ∷ xs))

  -- With a chunk size of at least 1, a round that is cut into chunks gives what one pass over all
  -- indices gives, failures included.
  pub in_chunks-map_range :
      (chunk : ℕ) (xs : List A) → 1 ≤ chunk → in_chunks f chunk xs ≡ map_range f 0 xs
  unfolding in_chunks
  in_chunks-map_range chunk xs h = chunk_loop-map_range (length xs) chunk 0 xs h (omega arith)
