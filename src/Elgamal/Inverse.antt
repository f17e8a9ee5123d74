-- ===== src/Elgamal/Inverse.antt =====
-- ElGamal decryption undoes encryption.
use seal.Base.{◌≡◌, ap, ◌∙◌}
use seal.External.{Group}
use seal.Elgamal.{public_key, encrypt, decrypt}

module _ {S : Type 0} (g : Group S) where
  open g use {Element, generator, plus, minus, times, minus-plus, times_comm}

  -- The secret key decrypts what was encrypted under its public key, whatever was drawn.
  pub decrypt-encrypt :
      (sk r : S) (msg : Element) → decrypt g sk (encrypt g r msg (public_key g sk)) ≡ msg
  unfolding decrypt encrypt public_key
  decrypt-encrypt sk r msg =
      ap (λ k. minus (plus k msg) (times (times generator r) sk)) (times_comm generator sk r)
      ∙ minus-plus (times (times generator r) sk) msg
