-- ===== src/Reply/Read/Decimal.antt =====
-- Decimal numerals, as a server prints them, and what `redis_reply_read_integer` makes of them.
use native.Mathlib.Nat.{pow-suc}
use kj_cpp_redis.Strstr.Prefix.{Lacks}
use kj_cpp_redis.Reply.Read.{to_integer}
use kj_cpp_redis.Prelude.{
  ℕ, zero, suc, ◌+◌, ◌-◌, ◌*◌, ◌/◌, ◌%◌, ◌^◌, ◌≤◌, ◌<◌, ◌≡◌, ◌∙◌, refl, Bool, true, false, List, [],
  ◌∷◌, ◌++◌, arith, ltb, if◌then◌else◌,
}

-- The numeral of a number below 10 ^ (fuel + 1).
unfoldable pub decimal_fuel : ℕ → ℕ → List ℕ
decimal_fuel zero n = (48 + n) ∷ []
decimal_fuel (suc fuel) n =
    let front = decimal_fuel fuel (n / 10) in
    if ltb n 10 then (48 + n) ∷ [] else front ++ ((48 + n % 10) ∷ [])

-- Twenty digits hold every 64-bit number.
unfoldable pub decimal : ℕ → List ℕ
unfolding decimal_fuel
decimal n = decimal_fuel 19 n

abbrev IsDigit : ℕ → Type 0
IsDigit c = (48 ≤ c) × (c ≤ 57)

abbrev AllDigits : List ℕ → Type 0
AllDigits [] = Unit {0}
AllDigits (c ∷ cs) = IsDigit c × AllDigits cs

abbrev digits_value : List ℕ → ℕ → ℕ
digits_value [] v = v
digits_value (c ∷ cs) v = digits_value cs (v * 10 + (c - 48))

AllDigits-append : (xs : List ℕ) (c : ℕ) → AllDigits xs → IsDigit c → AllDigits (xs ++ (c ∷ []))
AllDigits-append [] c h hc = (hc, tt)
AllDigits-append (x ∷ xs) c h hc = (h.0, AllDigits-append xs c h.1 hc)

digits_value-append :
    (xs : List ℕ) (c v : ℕ) → digits_value (xs ++ (c ∷ [])) v ≡ digits_value xs v * 10 + (c - 48)
digits_value-append [] c v = refl
digits_value-append (x ∷ xs) c v = digits_value-append xs c (v * 10 + (x - 48))

digits_value-le : (cs : List ℕ) (v : ℕ) → v ≤ digits_value cs v
digits_value-le [] v = omega arith
digits_value-le (c ∷ cs) v = omega (arith, digits_value-le cs (v * 10 + (c - 48)))

decimal_fuel-AllDigits : (fuel n : ℕ) → n < 10 ^ suc fuel → AllDigits (decimal_fuel fuel n)
unfolding decimal_fuel
decimal_fuel-AllDigits zero n h = omega arith
decimal_fuel-AllDigits (suc fuel) n h = ground (
  arith,
  decimal_fuel-AllDigits fuel (n / 10) (omega (arith, pow-suc 10 (suc fuel))),
  AllDigits-append (decimal_fuel fuel (n / 10)) (48 + n % 10),
)

decimal_fuel_value : (fuel n : ℕ) → digits_value (decimal_fuel fuel n) 0 ≡ n
unfolding decimal_fuel
decimal_fuel_value zero n = omega arith
decimal_fuel_value (suc fuel) n = ground (
  arith,
  decimal_fuel_value fuel (n / 10),
  digits_value-append (decimal_fuel fuel (n / 10)) (48 + n % 10) 0,
)

to_integer-digits :
    (cs : List ℕ) (v : ℕ) (negative : Bool)
    → AllDigits cs
    → digits_value cs v < 2 ^ 64
    → to_integer cs v negative ≡ to_integer [] (digits_value cs v) negative
unfolding to_integer
to_integer-digits [] v negative h small = refl
to_integer-digits (c ∷ cs) v negative h small = ground (
  arith,
  digits_value-le cs (v * 10 + (c - 48)),
  to_integer-digits cs (v * 10 + (c - 48)) negative h.1 small,
)

pub to_integer-decimal : (n : ℕ) → n < 2 ^ 64 → to_integer (decimal n) 0 false ≡ n
unfolding decimal to_integer
to_integer-decimal n h =
    let e = decimal_fuel_value 19 n in
    to_integer-digits (decimal_fuel 19 n) 0 false (decimal_fuel-AllDigits 19 n (omega arith))
      (omega arith)
    ∙ e

-- With a minus sign in front the numeral of a positive number below 2^64 is read as the 64-bit word
-- of its negation.
pub to_integer_negative :
    (n : ℕ) → 0 < n → n < 2 ^ 64 → to_integer (b'-' ∷ decimal n) 0 false ≡ 2 ^ 64 - n
unfolding decimal to_integer
to_integer_negative n pos h = ground (
  arith,
  decimal_fuel_value 19 n,
  to_integer-digits (decimal_fuel 19 n) 0 true (decimal_fuel-AllDigits 19 n (omega arith)),
)

AllDigits-Lacks : (cs : List ℕ) → AllDigits cs → Lacks 13 cs
AllDigits-Lacks [] h = tt
AllDigits-Lacks (c ∷ cs) h = (omega arith, AllDigits-Lacks cs h.1)

pub decimal-Lacks : (n : ℕ) → n < 2 ^ 64 → Lacks 13 (decimal n)
unfolding decimal
decimal-Lacks n h = AllDigits-Lacks (decimal_fuel 19 n) (decimal_fuel-AllDigits 19 n (omega arith))
