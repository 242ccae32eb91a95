-- ===== src/Ole3/Masks.antt =====
-- Masks and plaintext blinds of the three-round OLE cancel as they should.
use rf_class_groups.Base.{
  ℕ, zero, suc, ◌+◌, ◌*◌, ◌%◌, ◌<◌, ◌≡◌, refl, sym, ap, ◌∙◌, List, [], ◌∷◌, map, length, ==_refl,
  Cong, Cong-mod, Cong-add, Cong-cancel, sub_mod, sub_mod-add, sub_mod-lt, ok, arith,
}
use native.Mathlib.Nat.{mod-eq_of_lt}
use rf_class_groups.Ole.{Draws, ole}
use rf_class_groups.Ole3.{
  FirewallDraws, unmask, sample_plain_blinds_ole3, blind_each, add_plain_blind_mod_ole3,
  sanitized_ole,
}
use rf_class_groups.Ole3.Stages.{blinded, masked}

-- Two numbers below `q` that differ by the mask `r`.
sub_mod-cancel : (q z r v : ℕ) → 0 < q → Cong q z (v + r) → sub_mod z r q ≡ v % q
sub_mod-cancel q z r v h e =
    sym (reduced (sub_mod z r q) (sub_mod-lt z r q h))
    ∙ Cong-cancel q (sub_mod z r q) v r h (sub_mod-add z r q h ∙ e)
  where
    reduced : (n : ℕ) → n < q → n % q ≡ n
    reduced n k = mod-eq_of_lt k

-- The direct receiver recovers the outputs.
pub unmask-masked :
    (q : ℕ) (r : Draws) (i : ℕ) (xs as' bs : List ℕ)
    → 0 < q
    → unmask q r i (map (λ m. m % q) (masked r i as' bs xs)) ≡ ole q xs as' bs
unfolding unmask ole
unmask-masked q r i [] [] bs h = refl
unmask-masked q r i [] (a ∷ as') [] h = refl
unmask-masked q r i [] (a ∷ as') (b ∷ bs) h = refl
unmask-masked q r i (x ∷ xs) [] bs h = refl
unmask-masked q r i (x ∷ xs) (a ∷ as') [] h = refl
unmask-masked q r i (x ∷ xs) (a ∷ as') (b ∷ bs) h = rw (
  unmask-masked q r (suc i) xs as' bs h,
  sub_mod-cancel q ((a * x + b + r i) % q) (r i) (a * x + b) h (Cong-mod q _),
)

pub length-sample_plain_blinds_ole3 :
    (n : ℕ) (draws : Draws) (i : ℕ) → length (sample_plain_blinds_ole3 n draws i) ≡ n
unfolding sample_plain_blinds_ole3
length-sample_plain_blinds_ole3 zero draws i = refl
length-sample_plain_blinds_ole3 (suc n) draws i =
    ap suc (length-sample_plain_blinds_ole3 n draws (suc i))

pub length-blind_each :
    (q : ℕ) (vs ds : List ℕ) → length vs ≡ length ds → length (blind_each q vs ds) ≡ length vs
unfolding blind_each
length-blind_each q [] ds h = refl
length-blind_each q (v ∷ vs) [] h = absurd (omega arith)
length-blind_each q (v ∷ vs) (d ∷ ds) h = ap suc (length-blind_each q vs ds (omega arith))

pub length-blinded : (draws : Draws) (i : ℕ) (ms : List ℕ) → length (blinded draws i ms) ≡ length ms
length-blinded draws i [] = refl
length-blinded draws i (m ∷ ms) = ap suc (length-blinded draws (suc i) ms)

pub length-masked :
    (r : Draws) (i : ℕ) (as' bs xs : List ℕ)
    → length as' ≡ length xs
    → length bs ≡ length xs
    → length (masked r i as' bs xs) ≡ length xs
length-masked r i [] bs [] h k = refl
length-masked r i [] bs (x ∷ xs) h k = absurd (omega arith)
length-masked r i (a ∷ as') bs [] h k = absurd (omega arith)
length-masked r i (a ∷ as') [] (x ∷ xs) h k = absurd (omega arith)
length-masked r i (a ∷ as') (b ∷ bs) (x ∷ xs) h k =
    ap suc (length-masked r (suc i) as' bs xs (omega arith) (omega arith))

-- Vectors of one length are blinded element by element.
pub add_plain_blind-blind_each :
    (values blinds : List ℕ) (q : ℕ)
    → length values ≡ length blinds
    → add_plain_blind_mod_ole3 values blinds q ≡ ok (blind_each q values blinds)
unfolding add_plain_blind_mod_ole3
add_plain_blind-blind_each values blinds q h = rw (h, ==_refl (length blinds))

-- Two plaintext blinds and the mask, at one index.
unmask-blinds :
    (q m s f r : ℕ) → 0 < q → sub_mod ((((m + r) % q + s) % q + f) % q) r q ≡ (m + s + f) % q
unmask-blinds q m s f r h = sub_mod-cancel q ((((m + r) % q + s) % q + f) % q) r (m + s + f) h (
    Cong-mod q _
    ∙ Cong-add q (((m + r) % q + s) % q) (m + r + s) f f
        (Cong-mod q _ ∙ Cong-add q ((m + r) % q) (m + r) s s (Cong-mod q _) refl) refl
    ∙ ap (λ (t : ℕ). t % q) {x = m + r + s + f} {y = m + s + f + r} (omega arith))

-- The firewalled receiver recovers the sanitized outputs.
pub unmask-sanitized :
    (q : ℕ) (r : Draws) (s f : FirewallDraws) (i : ℕ) (xs as' bs : List ℕ)
    → 0 < q
    → length as' ≡ length xs
    → length bs ≡ length xs
    → unmask q r i (
        blind_each q
          (blind_each q
            (map (λ m. m % q) (masked r i (blinded f.a_blinds i (blinded s.a_blinds i as')) bs xs))
            (sample_plain_blinds_ole3 (length xs) s.b_blinds i))
          (sample_plain_blinds_ole3 (length xs) f.b_blinds i))
      ≡ sanitized_ole q s f i xs as' bs
unfolding unmask blind_each sample_plain_blinds_ole3 sanitized_ole
unmask-sanitized q r s f i [] [] bs h k l = refl
unmask-sanitized q r s f i [] (a ∷ as') bs h k l = absurd (omega arith)
unmask-sanitized q r s f i (x ∷ xs) [] bs h k l = absurd (omega arith)
unmask-sanitized q r s f i (x ∷ xs) (a ∷ as') [] h k l = absurd (omega arith)
unmask-sanitized q r s f i (x ∷ xs) (a ∷ as') (b ∷ bs) h k l =
    let A = a + s.a_blinds i + f.a_blinds i in
    rw
      (
        unmask-sanitized q r s f (suc i) xs as' bs h (omega arith) (omega arith),
        unmask-blinds q (A * x + b) (s.b_blinds i) (f.b_blinds i) (r i) h,
      )
      (ap (λ (t : ℕ). (t % q) ∷ sanitized_ole q s f (suc i) xs as' bs)
        {x = A * x + b + s.b_blinds i + f.b_blinds i}
        {y = A * x + (b + s.b_blinds i + f.b_blinds i)} (omega arith))
