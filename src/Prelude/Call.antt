-- ===== src/Prelude/Call.antt =====
-- Calls that change a state and may throw: what is written before a throw stays written.
use mathlib.Core.Path.{◌≡◌, refl}
use corner_tasks.Prelude.Outcome.{Outcome, returned, threw}

abbrev pub Call : Type 0 → Type 0 → Type 0
Call S A = S → Outcome A × S

-- After a call that returned.
abbrev pub continue : {S A B : Type 0} → Outcome A → (A → Call S B) → Call S B
continue (returned a) f s = f a s
continue threw f s = (threw, s)

infixl 5 ◌>>=◌
abbrev pub ◌>>=◌ : {S A B : Type 0} → Call S A → (A → Call S B) → Call S B
◌>>=◌ m f s = let (r, s') = m s in continue r f s'

pub continue_keeps :
    {S A B : Type 0} (P : S → Type 0) (r : Outcome A) (f : A → Call S B) (s : S)
    → P s
    → ((a : A) → P (f a s).1)
    → P (continue r f s).1
continue_keeps P (returned a) f s h k = k a
continue_keeps P threw f s h k = h

-- A chain that returns: its first call did, and the rest from there.
pub continue_returned :
    {S A B : Type 0} (r : Outcome A) (f : A → Call S B) (s s' : S) (b : B)
    → continue r f s ≡ (returned b, s')
    → (a : A) × (r ≡ returned a) × (f a s ≡ (returned b, s'))
continue_returned (returned a) f s s' b e = (a, refl, e)
continue_returned threw f s s' b e = cc e
