-- ===== src/Ole/Direct.antt =====
-- The direct batched OLE computes what it specifies, chunk by chunk.
use rf_class_groups.Base.{
  ℕ, zero, suc, ◌+◌, ◌≤◌, ◌<◌, ◌≡◌, refl, sym, ap, ◌∙◌, List, [], ◌∷◌, ◌++◌, map, length, take,
  drop, length-drop, ==_refl, All, Result, ok, ◌>>=◌, arith,
}
use rf_class_groups.Config.{Env}
use rf_class_groups.Config.Limits.{AcceptsCount, accepted_count}
use rf_class_groups.Scheme.{ClassGroups}
use rf_class_groups.Scheme.Laws.{IsClassGroups}
use rf_class_groups.Ole.{
  Draws, encrypt_x, respond, map_range, zip_with_cipher, direct_loop, direct_ole_batch, ole,
}
use rf_class_groups.Ole.Rounds.{encrypt_x-Produces, respond-Produces, decrypt-plain_ole}

All-take : (P : ℕ → Type 0) (n : ℕ) (xs : List ℕ) → All P xs → All P (take n xs)
All-take P zero xs h = tt
All-take P (suc n) [] h = tt
All-take P (suc n) (x ∷ xs) (h, hs) = (h, All-take P n xs hs)

All-drop : (P : ℕ → Type 0) (n : ℕ) (xs : List ℕ) → All P xs → All P (drop n xs)
All-drop P zero xs h = h
All-drop P (suc n) [] h = tt
All-drop P (suc n) (x ∷ xs) (h, hs) = All-drop P n xs hs

ole-none : (q : ℕ) (xs bs : List ℕ) → ole q xs [] bs ≡ []
unfolding ole
ole-none q [] bs = refl
ole-none q (x ∷ xs) bs = refl

ole-zero : (q : ℕ) (xs as' : List ℕ) → ole q xs as' [] ≡ []
unfolding ole
ole-zero q [] as' = refl
ole-zero q (x ∷ xs) [] = refl
ole-zero q (x ∷ xs) (a ∷ as') = refl

-- Cutting the three vectors alike cuts the outputs.
ole-append :
    (q n : ℕ) (xs as' bs : List ℕ)
    → ole q (take n xs) (take n as') (take n bs) ++ ole q (drop n xs) (drop n as') (drop n bs)
      ≡ ole q xs as' bs
unfolding ole
ole-append q zero xs as' bs = refl
ole-append q (suc n) [] as' bs = refl
ole-append q (suc n) (x ∷ xs) [] bs = ole-none q (drop n xs) (drop (suc n) bs)
ole-append q (suc n) (x ∷ xs) (a ∷ as') [] = ole-zero q (drop n xs) (drop n as')
ole-append q (suc n) (x ∷ xs) (a ∷ as') (b ∷ bs) = rw (ole-append q n xs as' bs)

module _ (cs : ClassGroups) (laws : IsClassGroups cs) where
  -- One chunk of the two processes together.
  round_trip : ℕ → Draws → Draws → ℕ → List ℕ → List ℕ → List ℕ → Result (List ℕ)
  round_trip sk rx rb i xs as' bs = do
    enc_x ← map_range (encrypt_x cs (cs.keygen sk) rx) i xs
    enc_y ← map_range (respond cs (cs.keygen sk) rb) i (zip_with_cipher enc_x as' bs)
    ok (map (cs.decrypt sk) enc_y)

  round_trip-ole :
      (sk : ℕ) (rx rb : Draws) (i : ℕ) (xs as' bs : List ℕ)
      → All (λ x. x < cs.cleartext_bound) xs
      → All (λ b. b < cs.cleartext_bound) bs
      → round_trip sk rx rb i xs as' bs ≡ ok (ole cs.cleartext_bound xs as' bs)
  unfolding round_trip
  round_trip-ole sk rx rb i xs as' bs h k =
      let (c, e, he) = encrypt_x-Produces cs laws sk rx i xs h in
      let (d, f, hf) = respond-Produces cs laws sk rb i xs as' bs c k he in
      rw (e, f) (ap ok (decrypt-plain_ole cs laws sk xs as' bs d hf))

  direct_loop-ole :
      (fuel chunk sk : ℕ) (rx rb : Draws) (begin : ℕ) (xs as' bs : List ℕ)
      → 1 ≤ chunk
      → length xs ≤ fuel
      → All (λ x. x < cs.cleartext_bound) xs
      → All (λ b. b < cs.cleartext_bound) bs
      → direct_loop cs fuel chunk sk rx rb begin xs as' bs ≡ ok (ole cs.cleartext_bound xs as' bs)
  unfolding direct_loop
  direct_loop-ole fuel chunk sk rx rb begin [] as' bs l m h k = unfold ole in refl
  direct_loop-ole zero chunk sk rx rb begin (x ∷ xs) as' bs l m h k = absurd (omega arith)
  direct_loop-ole (suc fuel) chunk sk rx rb begin (x ∷ xs) as' bs l m h k =
      let ys = x ∷ xs in
      let (c, e, he) =
        encrypt_x-Produces cs laws sk rx begin (take chunk ys)
          (All-take (λ x. x < cs.cleartext_bound) chunk ys h) in
      let (d, f, hf) =
        respond-Produces cs laws sk rb begin (take chunk ys) (take chunk as') (take chunk bs) c
          (All-take (λ x. x < cs.cleartext_bound) chunk bs k) he in
      rw
        (
          e,
          f,
          direct_loop-ole fuel chunk sk rx rb (begin + chunk) (drop chunk ys) (drop chunk as')
              (drop chunk bs) l (omega (arith, length-drop chunk ys))
              (All-drop (λ x. x < cs.cleartext_bound) chunk ys h)
              (All-drop (λ x. x < cs.cleartext_bound) chunk bs k),
          decrypt-plain_ole cs laws sk (take chunk ys) (take chunk as') (take chunk bs) d hf,
        )
        (ap ok (ole-append cs.cleartext_bound chunk ys as' bs))

  -- With vectors of one length that is at least 1 and within the item limits of both processes, inputs and offsets below the plaintext bound and a chunk size of at
  -- least 1, the direct batch ends without a failure, and its outputs are `a * x + b` modulo the
  -- plaintext bound, for every index, whatever the keys and the randomness.
  pub direct_ole_batch-ole :
      (chunk : ℕ) (env_r env_s : Env) (sk : ℕ) (rx rb : Draws) (xs as' bs : List ℕ)
      → 1 ≤ chunk
      → AcceptsCount env_r (length xs)
      → AcceptsCount env_s (length xs)
      → length xs ≡ length as'
      → length as' ≡ length bs
      → All (λ x. x < cs.cleartext_bound) xs
      → All (λ b. b < cs.cleartext_bound) bs
      → direct_ole_batch cs chunk env_r env_s sk rx rb xs as' bs
        ≡ ok (ole cs.cleartext_bound xs as' bs)
  unfolding direct_ole_batch
  direct_ole_batch-ole chunk env_r env_s sk rx rb xs as' bs l c c' e f h k =
      rw
        (
          accepted_count env_r (length xs) c,
          sym e,
          accepted_count env_s (length xs) c',
          sym (e ∙ f),
          ==_refl (length xs),
        )
        (direct_loop-ole (length xs) chunk sk rx rb 0 xs as' bs l (omega arith) h k)
