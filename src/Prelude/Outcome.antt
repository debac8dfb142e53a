-- ===== src/Prelude/Outcome.antt =====
-- The result of a call that may throw; what is thrown is not looked at by the code modelled here.
pub data Outcome (A : Type 0) : Type 0 where
  returned : A → Outcome A
  threw : Outcome A

infixl 5 ◌>>=◌
abbrev pub ◌>>=◌ : {A B : Type 0} → Outcome A → (A → Outcome B) → Outcome B
returned a >>= f = f a
threw >>= f = threw
