-- ===== src/Prelude/Result.antt =====
-- The result of code that returns a value or throws.

pub data Result {ℓ κ} (E : Type ℓ) (A : Type κ) : Type (ℓ ⊔ κ) where
  ok : A → Result E A
  err : E → Result E A
