-- ===== src/Prelude/Order.antt =====
-- Strict total orders with a Boolean test: numbers, texts, and pairs compared lexicographically.
use mathlib.Core.Path.{◌≡◌}
use mathlib.Core.Bool.{Bool, true, false}
use native.Mathlib.Omega.{arith}
use corner_tasks.Prelude.Tests.{ltb, if◌then◌else◌}
use corner_tasks.Prelude.Text.{text_lt, text_lt_irrefl, text_lt_trans, text_lt_total}

pub record IsStrict {ℓ} {K : Type ℓ} (lt : K → K → Bool) : Type ℓ where
  pub lt_irrefl : (a : K) → lt a a ≡ false
  pub lt_trans : (a b c : K) → lt a b ≡ true → lt b c ≡ true → lt a c ≡ true
  pub lt_total : (a b : K) → lt a b ≡ false → lt b a ≡ false → a ≡ b

module _ {ℓ} {K : Type ℓ} {lt : K → K → Bool} (strict : IsStrict lt) where
  open strict use {lt_irrefl, lt_trans, lt_total}

  pub lt_asym : (a b : K) → lt a b ≡ true → lt b a ≡ false
  lt_asym a b h = ground (arith, lt_trans a b a, lt_irrefl a)

  pub ge_trans : (a b c : K) → lt a b ≡ false → lt b c ≡ false → lt a c ≡ false
  ge_trans a b c h k =
      ground (arith, lt_trans b a c, lt_total a b, lt_trans a c b, lt_total b c, lt_trans c b a)

pub ltb-IsStrict : IsStrict ltb
ltb-IsStrict = record {
  lt_irrefl = λ a. ground arith;
  lt_trans = λ a b c h k. ground arith;
  lt_total = λ a b h k. ground arith;
}

pub text_lt-IsStrict : IsStrict text_lt
text_lt-IsStrict = record {
  lt_irrefl = text_lt_irrefl;
  lt_trans = text_lt_trans;
  lt_total = text_lt_total;
}

module _ {ℓ κ} {A : Type ℓ} {B : Type κ} (lt_a : A → A → Bool) (lt_b : B → B → Bool) where
  abbrev pub lex : A × B → A × B → Bool
  lex x y = if lt_a x.0 y.0 then true else if lt_a y.0 x.0 then false else lt_b x.1 y.1

  pub lex-IsStrict : IsStrict lt_a → IsStrict lt_b → IsStrict lex
  lex-IsStrict p q = record {
    lt_irrefl = λ x. ground (arith, p.lt_irrefl x.0, q.lt_irrefl x.1);
    lt_trans = λ x y z h k. ground (
      arith,
      p.lt_trans x.0 y.0 z.0,
      p.lt_trans y.0 z.0 x.0,
      p.lt_trans z.0 x.0 y.0,
      p.lt_total x.0 y.0,
      p.lt_total y.0 z.0,
      p.lt_irrefl x.0,
      p.lt_irrefl z.0,
      p.lt_irrefl y.0,
      q.lt_trans x.1 y.1 z.1,
    );
    lt_total = λ x y h k. ground (arith, p.lt_total x.0 y.0, q.lt_total x.1 y.1);
  }
