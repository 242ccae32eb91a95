-- ===== src/Scheme/Laws.antt =====
-- What BICYCL documents of the class groups and of CL_HSMqk, as named hypotheses.
use rf_class_groups.Base.{ℕ, suc, ◌+◌, ◌%◌, ◌<◌, ◌≡◌, CipherText}
use rf_class_groups.Scheme.{ClassGroups, to_delta}

pub record IsClassGroups (cs : ClassGroups) : Type 0 where
  -- Cl_G() and Cl_Delta() are commutative groups, and `nupow` is the power.
  pub one_g : cs.Qfi
  pub one_delta : cs.Qfi
  pub assoc_g : (x y z : cs.Qfi) → cs.nucomp_g (cs.nucomp_g x y) z ≡ cs.nucomp_g x (cs.nucomp_g y z)
  pub comm_g : (x y : cs.Qfi) → cs.nucomp_g x y ≡ cs.nucomp_g y x
  pub one-comp_g : (x : cs.Qfi) → cs.nucomp_g one_g x ≡ x
  pub pow-zero_g : (x : cs.Qfi) → cs.nupow_g x 0 ≡ one_g
  pub pow-suc_g : (x : cs.Qfi) (n : ℕ) → cs.nupow_g x (suc n) ≡ cs.nucomp_g x (cs.nupow_g x n)
  pub assoc_delta :
      (x y z : cs.Qfi)
      → cs.nucomp_delta (cs.nucomp_delta x y) z ≡ cs.nucomp_delta x (cs.nucomp_delta y z)
  pub comm_delta : (x y : cs.Qfi) → cs.nucomp_delta x y ≡ cs.nucomp_delta y x
  pub one-comp_delta : (x : cs.Qfi) → cs.nucomp_delta one_delta x ≡ x
  pub pow-zero_delta : (x : cs.Qfi) → cs.nupow_delta x 0 ≡ one_delta
  pub pow-suc_delta :
      (x : cs.Qfi) (n : ℕ) → cs.nupow_delta x (suc n) ≡ cs.nucomp_delta x (cs.nupow_delta x n)
  pub compinv-comp : (x y : cs.Qfi) → cs.nucompinv_delta (cs.nucomp_delta x y) y ≡ x
  -- The map from Cl_G() to Cl_Delta() is a homomorphism, in either variant.
  pub delta-one : to_delta cs one_g ≡ one_delta
  pub delta-comp :
      (x y : cs.Qfi)
      → to_delta cs (cs.nucomp_g x y) ≡ cs.nucomp_delta (to_delta cs x) (to_delta cs y)
  -- `power_of_h` and `power_of_f` are powers; f has order cleartext_bound, and `decrypt` takes the
  -- discrete logarithm of c2 / c1^sk in its group.
  pub power-zero_h : cs.power_of_h 0 ≡ one_g
  pub power-add_h :
      (m n : ℕ) → cs.power_of_h (m + n) ≡ cs.nucomp_g (cs.power_of_h m) (cs.power_of_h n)
  pub power-zero_f : cs.power_of_f 0 ≡ one_delta
  pub power-add_f :
      (m n : ℕ) → cs.power_of_f (m + n) ≡ cs.nucomp_delta (cs.power_of_f m) (cs.power_of_f n)
  -- The exponentiation of a public key, which has precomputed tables, is the power in Cl_G().
  pub exponentiation-pow : (pk : cs.Qfi) (s : ℕ) → cs.exponentiation pk s ≡ cs.nupow_g pk s
  pub keygen-power : (sk : ℕ) → cs.keygen sk ≡ cs.power_of_h sk
  pub encrypt-c1 : (pk : cs.Qfi) (m r : ℕ) → (cs.encrypt pk m r).c1 ≡ cs.power_of_h r
  pub encrypt-c2 :
      (pk : cs.Qfi) (m r : ℕ)
      → (cs.encrypt pk m r).c2
        ≡ cs.nucomp_delta (to_delta cs (cs.exponentiation pk r)) (cs.power_of_f m)
  pub decrypt-power :
      (sk : ℕ) (c : CipherText cs.Qfi) (m : ℕ)
      → cs.nucompinv_delta c.c2 (to_delta cs (cs.nupow_g c.c1 sk)) ≡ cs.power_of_f m
      → cs.decrypt sk c ≡ m % cs.cleartext_bound
  pub bound_pos : 0 < cs.cleartext_bound
