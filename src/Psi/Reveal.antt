-- ===== src/Psi/Reveal.antt =====
-- Two-way PSI: cg_psi2_receiver.cpp and cg_psi2_sender.cpp. After the one-way protocol the receiver sends
-- its output back in a fixed number of slots, the unused ones filled with zeros, and the sender keeps the
-- values that are in its own set. The wire is that of Network.
pub mod Filter
pub mod Encrypted
pub mod Correct
use rf_class_groups.Base.{
  ℕ, zero, suc, min, ltb, not, ◌&&◌, if◌then◌else◌, List, [], ◌∷◌, length, take, Mpz, Result, ok,
  err, ◌>>=◌, ◌>>◌, reject_if, intersection_too_large, short_read,
}
use rf_class_groups.Config.{Env}
use rf_class_groups.Ole.{Draws}
use rf_class_groups.Opa.{OleBatch}
use rf_class_groups.Psi.Membership.{is_member}
use rf_class_groups.Psi.Protocol.{psi}

-- `real ? intersection[i] : padding_value` for every slot.
pub reveal_slots : ℕ → List ℕ → List ℕ
reveal_slots zero intersection = []
reveal_slots (suc n) [] = 0 ∷ reveal_slots n []
reveal_slots (suc n) (x ∷ intersection) = x ∷ reveal_slots n intersection

-- The receiver's part.
pub reveal_send : ℕ → List ℕ → Result (List ℕ)
reveal_send reveal_bound intersection = do
  reject_if (ltb reveal_bound (length intersection)) intersection_too_large
  ok (reveal_slots reveal_bound intersection)

-- `if (own_values.count(key) && seen.insert(key).second)` for every value.
pub keep_own : List ℕ → List ℕ → List ℕ → List ℕ
keep_own own_values seen [] = []
keep_own own_values seen (v ∷ values) =
    let taken = keep_own own_values (v ∷ seen) values in
    let rest = keep_own own_values seen values in
    if is_member v own_values && not (is_member v seen) then v ∷ taken else rest

-- The sender's part, over the values that arrive.
pub reveal_receive : ℕ → List ℕ → List ℕ → Result (List ℕ)
reveal_receive reveal_bound set_A slots = do
  reject_if (ltb (length slots) reveal_bound) short_read
  ok (keep_own set_A [] (take reveal_bound slots))

-- Both programs: the receiver's output and the sender's.
pub psi2 :
    Mpz
    → OleBatch
    → Env
    → Env
    → List ℕ
    → List ℕ
    → ℕ
    → ℕ
    → Draws
    → Draws
    → ℕ
    → Result (List ℕ × List ℕ)
psi2 mpz ole_batch env_r env_s set_A set_B m_A m_B mask mask' q = do
  intersection ← psi mpz ole_batch env_r env_s set_A set_B m_A m_B mask mask' q
  slots ← reveal_send (min m_A (length set_B)) intersection
  learned ← reveal_receive (min (length set_A) m_B) set_A slots
  ok (intersection, learned)
