-- ===== src/Core/Cursor.antt =====
-- The pull cursor: `parseCursor` of backend/core/src/lib/db.ts, and `String(n)` by which the stores print the
-- sequence number. A number is a double: a decimal text is rounded to the nearest, to the even one of two, and
-- `String` prints the shortest decimal that reads as the number, with an exponent from 10^21 on.
use corner_tasks.Prelude.{
  ℕ, zero, suc, ◌+◌, ◌-◌, ◌*◌, ◌/◌, ◌%◌, ◌^◌, ◌<◌, ◌≤◌, ◌≡◌, refl, subst, ap, Bool, true, false,
  ◌&&◌, ◌||◌, not, Option, none, some, or_else, [], ◌∷◌, ◌++◌, arith, ◌∙◌, ltb, leb, ltb→lt, lt→ltb,
  ◌==◌, ==_iff, if◌then◌else◌, length, branches, is_empty,
}
use corner_tasks.Prelude.Text.{Text, codes}

-- /^[0-9]+$/
abbrev pub is_digit : ℕ → Bool
is_digit c = leb b'0' c && leb c b'9'

unfoldable pub all_digits : Text → Bool
all_digits [] = true
all_digits (c ∷ s) = let rest = all_digits s in if is_digit c then rest else false

unfoldable pub is_cursor : Text → Bool
unfolding all_digits
is_cursor [] = false
is_cursor (c ∷ s) = all_digits (c ∷ s)

-- `Number(s)` on a string of decimal digits
unfoldable pub number_from : ℕ → Text → ℕ
number_from n [] = n
number_from n (c ∷ s) = number_from (n * 10 + (c - b'0')) s

-- The weight of the last of the 53 bits that a double keeps of `n`: `unit` doubled until `n` fits, at most
-- `fuel` times. 971 times is enough for what is below 2^1024.
unfoldable pub unit_from : ℕ → ℕ → ℕ → ℕ
unit_from zero unit n = unit
unit_from (suc fuel) unit n = elim (ltb n (unit * 2 ^ 53)) [
  | true ↦ unit
  | false ↦ unit_from fuel (2 * unit) n
]

-- `n` rounded to a multiple of `unit`, to the even one of two
abbrev pub round_to : ℕ → ℕ → ℕ
round_to unit n =
    if ltb (2 * (n % unit)) unit
    then n / unit * unit
    else if ltb unit (2 * (n % unit))
    then (n / unit + 1) * unit
    else (n / unit + n / unit % 2) * unit

-- `Number.isFinite`
abbrev pub if_finite : ℕ → Option ℕ
if_finite n = if ltb n (2 ^ 1024) then some n else none

-- The double that the decimal digits of `n` read as, if it is finite; up to 2^53 it is `n`.
unfoldable pub double_of : ℕ → Option ℕ
double_of n = if ltb n (2 ^ 53) then some n else if_finite (round_to (unit_from 971 1 n) n)

-- The empty text and `null` are falsy: both read 0, as any text that is no finite number does.
unfoldable pub parse_cursor : Option Text → ℕ
unfolding is_cursor number_from
parse_cursor none = 0
parse_cursor (some s) = if is_cursor s then or_else (double_of (number_from 0 s)) 0 else 0

-- The decimal digits of `n`
unfoldable pub decimal_onto : ℕ → ℕ → Text → Text
decimal_onto zero n rest = rest
decimal_onto (suc fuel) n rest =
    let more = decimal_onto fuel (n / 10) ((b'0' + n % 10) ∷ rest) in
    if ltb n 10 then (b'0' + n) ∷ rest else more

unfoldable pub decimal : ℕ → Text
unfolding decimal_onto
decimal n = decimal_onto (suc n) n []

abbrev pub is_reading : ℕ → Option ℕ → Bool
is_reading n none = false
is_reading n (some k) = k == n

unfoldable pub reads_as : ℕ → ℕ → Bool
reads_as n m = is_reading n (double_of m)

-- Is `low`, of which `s` are the digits, the closer one to `n`, or the even one of two as close?
abbrev pub is_closer : ℕ → ℕ → ℕ → ℕ → Bool
is_closer n s low high = ltb (n - low) (high - n) || ((n - low == high - n) && (s % 2 == 0))

unfoldable pub choose : ℕ → ℕ → ℕ → ℕ → Option ℕ
choose n s low high =
    if reads_as n low && (is_closer n s low high || not (reads_as n high))
    then some low
    else if reads_as n high
    then some high
    else none

abbrev pub or_shorter : Option ℕ → Option ℕ → Option ℕ
or_shorter (some m) o = some m
or_shorter none o = o

-- The decimal with the fewest digits before its zeros, at most `zeros` of them, that reads as `n`.
unfoldable pub shortest : ℕ → ℕ → Option ℕ
shortest zero n = if reads_as n n then some n else none
shortest (suc zeros) n =
    let unit = 10 ^ suc zeros in
    or_shorter (choose n (n / unit) (n / unit * unit) ((n / unit + 1) * unit)) (shortest zeros n)

-- The digits without the zeros at their end
unfoldable pub significant : Text → Text
significant [] = []
significant (c ∷ s) =
    let rest = significant s in if is_empty rest && (c == b'0') then [] else c ∷ rest

abbrev pub with_point : Text → Text
with_point [] = []
with_point (c ∷ []) = c ∷ []
with_point (c ∷ d ∷ s) = c ∷ b'.' ∷ d ∷ s

unfoldable pub exponential : ℕ → Text
exponential m =
    with_point (significant (decimal m)) ++ b'e' ∷ b'+' ∷ decimal (length (decimal m) - 1)

-- No double is an integer that no decimal reads as: there is nothing to print.
unfoldable pub large_text : Option ℕ → Text
large_text none = []
large_text (some m) = if ltb m (10 ^ 21) then decimal m else exponential m

-- `String(n)`; up to 2^53 it is the digits of `n`.
unfoldable pub print_cursor : ℕ → Text
unfolding decimal
print_cursor n =
    if ltb n (2 ^ 53) then decimal n else large_text (shortest (length (decimal n) - 1) n)

-- Reading the digits of `n` and then `rest` goes on from `n`.
number_from-decimal_onto :
    (fuel n : ℕ) (rest : Text)
    → n < fuel
    → number_from 0 (decimal_onto fuel n rest) ≡ number_from n rest
unfolding decimal_onto number_from
number_from-decimal_onto zero n rest h = elim h [ ]
number_from-decimal_onto (suc fuel) n rest h =
    ground (arith, number_from-decimal_onto fuel (n / 10) ((b'0' + n % 10) ∷ rest))

is_cursor-decimal_onto :
    (fuel n : ℕ) (rest : Text)
    → n < fuel
    → all_digits rest ≡ true
    → is_cursor (decimal_onto fuel n rest) ≡ true
unfolding decimal_onto is_cursor
is_cursor-decimal_onto zero n rest h d = elim h [ ]
is_cursor-decimal_onto (suc fuel) n rest h d =
    ground (arith, is_cursor-decimal_onto fuel (n / 10) ((b'0' + n % 10) ∷ rest))

is_cursor-decimal : (n : ℕ) → is_cursor (decimal n) ≡ true
unfolding decimal
is_cursor-decimal n = is_cursor-decimal_onto (suc n) n [] (omega arith) (unfold all_digits in refl)

number_from-decimal : (n : ℕ) → number_from 0 (decimal n) ≡ n
unfolding decimal
number_from-decimal n =
    number_from-decimal_onto (suc n) n [] (omega arith) ∙ (unfold number_from in refl)

-- The digits of `n` are read as the double that `n` rounds to.
parse_cursor-decimal : (n : ℕ) → parse_cursor (some (decimal n)) ≡ or_else (double_of n) 0
unfolding parse_cursor
parse_cursor-decimal n = rw (is_cursor-decimal n, number_from-decimal n) refl

double_of-small : (n : ℕ) → n < 2 ^ 53 → double_of n ≡ some n
unfolding double_of
double_of-small n h = rw (lt→ltb n (2 ^ 53) h) refl

print_cursor-small : (n : ℕ) → n < 2 ^ 53 → print_cursor n ≡ decimal n
unfolding print_cursor
print_cursor-small n h = rw (lt→ltb n (2 ^ 53) h) refl

-- What a store prints as a cursor below 2^53, `parseCursor` reads back as the same number.
pub parse_cursor-print_cursor : (n : ℕ) → n < 2 ^ 53 → parse_cursor (some (print_cursor n)) ≡ n
parse_cursor-print_cursor n h =
    ap (λ t. parse_cursor (some t)) (print_cursor-small n h)
    ∙ parse_cursor-decimal n
    ∙ ap (λ o. or_else o 0) (double_of-small n h)

first_holds : (b c : Bool) → b && c ≡ true → b ≡ true
first_holds true c h = refl
first_holds false c h = cc h

same_branches : (b : Bool) → (if b then false else false) ≡ false
same_branches true = refl
same_branches false = refl

-- What is chosen reads as `n`.
abbrev IsReading : ℕ → Option ℕ → Type 0
IsReading n o = (m : ℕ) → o ≡ some m → double_of m ≡ some n

reads-IsReading :
    (n m : ℕ) (o : Option ℕ) → double_of m ≡ o → is_reading n o ≡ true → double_of m ≡ some n
reads-IsReading n m none e h = cc h
reads-IsReading n m (some k) e h = e ∙ ap some ((==_iff k n).0 h)

reads_as-double : (n m : ℕ) → reads_as n m ≡ true → IsReading n (some m)
unfolding reads_as
reads_as-double n m h k e =
    subst (λ j. double_of j ≡ some n) (cc e) (reads-IsReading n m (double_of m) refl h)

none-IsReading : (n : ℕ) → IsReading n none
none-IsReading n m e = cc e

choose-IsReading : (n s low high : ℕ) → IsReading n (choose n s low high)
unfolding choose
choose-IsReading n s low high =
    branches (IsReading n) (reads_as n low && (is_closer n s low high || not (reads_as n high)))
      (some low) (if reads_as n high then some high else none)
      (λ e. reads_as-double n low (first_holds (reads_as n low) _ e))
      (λ _.
        branches (IsReading n) (reads_as n high) (some high) none (reads_as-double n high)
          (λ _. none-IsReading n))

or_shorter-IsReading :
    (n : ℕ) (o p : Option ℕ) → IsReading n o → IsReading n p → IsReading n (or_shorter o p)
or_shorter-IsReading n none p h k = k
or_shorter-IsReading n (some m) p h k = h

shortest-IsReading : (zeros n : ℕ) → IsReading n (shortest zeros n)
unfolding shortest
shortest-IsReading zero n =
    branches (IsReading n) (reads_as n n) (some n) none (reads_as-double n n)
      (λ _. none-IsReading n)
shortest-IsReading (suc zeros) n =
    or_shorter-IsReading n _ _
      (choose-IsReading n (n / 10 ^ suc zeros) (n / 10 ^ suc zeros * 10 ^ suc zeros)
        ((n / 10 ^ suc zeros + 1) * 10 ^ suc zeros))
      (shortest-IsReading zeros n)

all_digits-e : (s t : Text) → all_digits (s ++ b'e' ∷ t) ≡ false
unfolding all_digits
all_digits-e [] t = refl
all_digits-e (c ∷ s) t = rw (all_digits-e s t) (same_branches (is_digit c))

is_cursor-e : (s t : Text) → is_cursor (s ++ b'e' ∷ t) ≡ false
unfolding is_cursor
is_cursor-e [] t = all_digits-e [] t
is_cursor-e (c ∷ s) t = all_digits-e (c ∷ s) t

parse_cursor-exponential : (m : ℕ) → parse_cursor (some (exponential m)) ≡ 0
unfolding parse_cursor exponential
parse_cursor-exponential m =
    rw
      (is_cursor-e (with_point (significant (decimal m))) (b'+' ∷ decimal (length (decimal m) - 1)))
      refl

parse_cursor-large_text-le :
    (n : ℕ) (o : Option ℕ) → IsReading n o → parse_cursor (some (large_text o)) ≤ n
unfolding large_text
parse_cursor-large_text-le n none h = unfold parse_cursor in omega arith
parse_cursor-large_text-le n (some m) h =
    branches (λ t. parse_cursor (some t) ≤ n) (ltb m (10 ^ 21)) (decimal m) (exponential m)
      (λ _. omega (arith, parse_cursor-decimal m ∙ ap (λ o. or_else o 0) (h m refl)))
      (λ _. omega (arith, parse_cursor-exponential m))

-- What a store prints is never read back as a greater number.
pub parse_cursor-print_cursor-le : (n : ℕ) → parse_cursor (some (print_cursor n)) ≤ n
unfolding print_cursor
parse_cursor-print_cursor-le n =
    branches (λ t. parse_cursor (some t) ≤ n) (ltb n (2 ^ 53)) (decimal n)
      (large_text (shortest (length (decimal n) - 1) n))
      (λ e. omega (
        arith,
        parse_cursor-decimal n ∙ ap (λ o. or_else o 0) (double_of-small n (ltb→lt n (2 ^ 53) e)),
      ))
      (λ _. parse_cursor-large_text-le n _ (shortest-IsReading (length (decimal n) - 1) n))

print_test : print_cursor 1203 ≡ codes "1203"
unfolding print_cursor
print_test = refl

-- A number of twenty-two digits is not printed as digits, and not read back.
large_test : print_cursor (10 ^ 21) ≡ codes "1e+21"
unfolding print_cursor shortest choose reads_as double_of unit_from large_text exponential
    significant
large_test = refl

rounded_test : parse_cursor (some (codes "9007199254740993")) ≡ 2 ^ 53
unfolding parse_cursor double_of unit_from
rounded_test = refl
