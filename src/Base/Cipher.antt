-- ===== src/Base/Cipher.antt =====
-- A CG-AHE ciphertext is a pair of class-group elements.
pub record CipherText (Q : Type 0) : Type 0 where
  pub c1 : Q
  pub c2 : Q
