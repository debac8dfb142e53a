-- ===== src/Prelude/Latest.antt =====
-- Last writer wins, over any strict order on the values' keys: the value that a sequence of
-- replacements leaves is its greatest, so it depends neither on the order nor on repetitions.
use corner_tasks.Prelude.Tests.{if◌then◌else◌}
use corner_tasks.Prelude.Lists.{In}
use corner_tasks.Prelude.Order.{IsStrict, lt_asym, ge_trans}
use mathlib.Core.Path.{◌≡◌, refl, sym, ap, ◌∙◌}
use mathlib.Core.Logic.{inl, inr}
use mathlib.Core.Bool.{Bool, false}
use mathlib.Core.Option.{Option, none, some}
use mathlib.Core.List.{List, [], ◌∷◌}
use native.Mathlib.Omega.{arith}

module _ {K V : Type 0} (lt : K → K → Bool) (key : V → K) where
  -- An incoming value replaces what is held if its key is strictly greater.
  abbrev pub latest : Option V → V → Option V
  latest none v = some v
  latest (some w) v = some (if lt (key w) (key v) then v else w)

  abbrev pub latest_of : Option V → List V → Option V
  latest_of o [] = o
  latest_of o (v ∷ vs) = latest_of (latest o v) vs

  abbrev pub winner : V → List V → V
  winner w [] = w
  winner w (v ∷ vs) = winner (if lt (key w) (key v) then v else w) vs

  pub latest_of-winner : (w : V) (vs : List V) → latest_of (some w) vs ≡ some (winner w vs)
  latest_of-winner w [] = refl
  latest_of-winner w (v ∷ vs) = latest_of-winner (if lt (key w) (key v) then v else w) vs

  pub winner-In : (w : V) (vs : List V) → In (winner w vs) (w ∷ vs)
  winner-In w [] = inl refl
  winner-In w (v ∷ vs) = ground (arith, winner-In (if lt (key w) (key v) then v else w) vs)

  module _ (strict : IsStrict lt) where
    -- Nothing among the values beats the winner.
    pub winner_max :
        (w : V) (vs : List V) (x : V) → In x (w ∷ vs) → lt (key (winner w vs)) (key x) ≡ false
    winner_max w [] x (inl e) = rw e (strict.lt_irrefl (key w))
    winner_max w [] x (inr m) = absurd m
    winner_max w (v ∷ vs) x h = ground (
      arith,
      winner_max (if lt (key w) (key v) then v else w) vs x,
      winner_max (if lt (key w) (key v) then v else w) vs v,
      winner_max (if lt (key w) (key v) then v else w) vs w,
      lt_asym strict (key w) (key v),
      ge_trans strict (key (winner v vs)) (key v) (key w),
      ge_trans strict (key (winner w vs)) (key w) (key v),
    )

    -- Two sequences with the same values leave the same value.
    pub latest_of_unique :
        (vs ws : List V)
        → ((x : V) → In x vs → In x ws)
        → ((x : V) → In x ws → In x vs)
        → ((x y : V) → In x vs → In y vs → key x ≡ key y → x ≡ y)
        → latest_of none vs ≡ latest_of none ws
    latest_of_unique [] [] f g inj = refl
    latest_of_unique [] (w ∷ ws) f g inj = absurd (g w (inl refl))
    latest_of_unique (v ∷ vs) [] f g inj = absurd (f v (inl refl))
    latest_of_unique (v ∷ vs) (w ∷ ws) f g inj =
        latest_of-winner v vs
        ∙ ap some (
            inj (winner v vs) (winner w ws) (winner-In v vs) (g (winner w ws) (winner-In w ws)) (
              strict.lt_total (key (winner v vs)) (key (winner w ws))
                (winner_max v vs (winner w ws) (g (winner w ws) (winner-In w ws)))
                (winner_max w ws (winner v vs) (f (winner v vs) (winner-In v vs)))))
        ∙ sym (latest_of-winner w ws)
