-- ===== src/Flatten/Durations.antt =====
-- `formatDuration` of operator/internal/renderer/endpoints.go, and the meaning of its text.
use kraken_d_operator.Base.{
  ℕ, zero, suc, ◌+◌, ◌-◌, ◌*◌, ◌/◌, ◌%◌, ◌<◌, ◌≡◌, ◌∙◌, ap, Bool, true, false, ◌&&◌, Option, none,
  some, [], ◌∷◌, ◌++◌, refl, inl, inr, arith, leb, ltb, nat_eq, Bool-cases, if◌then◌else◌,
}
use kraken_d_operator.Base.Int.{ℤ, pos, negsuc}
use kraken_d_operator.Base.Texts.{Text, codes, text_eq}
use kraken_d_operator.Check.Verdicts.{decimal_from, decimal}
use mathlib.Core.List.{append_assoc}
use native.Mathlib.Nat.{mod-add-div'}

abbrev microsecond : ℕ
microsecond = 1000

abbrev millisecond : ℕ
millisecond = 1000 * 1000

abbrev second : ℕ
second = 1000 * 1000 * 1000

abbrev minute : ℕ
minute = 60 * 1000 * 1000 * 1000

abbrev hour : ℕ
hour = 60 * 60 * 1000 * 1000 * 1000

-- `µs` in UTF-8
abbrev micro : Text
micro = 194 ∷ 181 ∷ codes "s"

-- `d >= unit && d%unit == 0`
abbrev is_exact : ℕ → ℕ → Bool
is_exact unit d = leb unit d && nat_eq (d % unit) 0

unfoldable pub format_duration : ℤ → Text
format_duration (negsuc n) = codes "-" ++ (decimal (suc n) ++ codes "ns")
format_duration (pos d) =
    if is_exact hour d
    then decimal (d / hour) ++ codes "h"
    else if is_exact minute d
    then decimal (d / minute) ++ codes "m"
    else if is_exact second d
    then decimal (d / second) ++ codes "s"
    else if is_exact millisecond d
    then decimal (d / millisecond) ++ codes "ms"
    else if is_exact microsecond d
    then decimal (d / microsecond) ++ micro
    else decimal d ++ codes "ns"

-- The number that a text begins with, and the rest; `n` is the number read so far.
unfoldable pub read_decimal : ℕ → Text → ℕ × Text
read_decimal n [] = (n, [])
read_decimal n (c ∷ s) =
    let rest = read_decimal (n * 10 + (c - 48)) s in
    if leb 48 c && leb c 57 then rest else (n, c ∷ s)

abbrev unit_of : Text → Option ℕ
unit_of s =
    if text_eq s (codes "h")
    then some hour
    else if text_eq s (codes "m")
    then some minute
    else if text_eq s (codes "s")
    then some second
    else if text_eq s (codes "ms")
    then some millisecond
    else if text_eq s micro
    then some microsecond
    else if text_eq s (codes "ns")
    then some 1
    else none

abbrev times : ℕ → Option ℕ → Option ℕ
times n none = none
times n (some unit) = some (n * unit)

-- The nanoseconds of a text of one integer and one unit, which is the form that KrakenD reads.
unfoldable pub read_duration : Text → Option ℕ
unfolding read_decimal
read_duration s = let (n, rest) = read_decimal 0 s in times n (unit_of rest)

read_digit :
    (n d : ℕ) (s : Text) → d < 10 → read_decimal n ((48 + d) ∷ s) ≡ read_decimal (n * 10 + d) s
unfolding read_decimal
read_digit n d s h =
    let in_range : (leb 48 (48 + d) && leb (48 + d) 57) ≡ true = ground arith in
    let value : (48 + d) - 48 ≡ d = omega arith in rw (in_range, value) refl

-- Reading goes on behind a printed number as if its value had been read.
read-decimal_from :
    (fuel n : ℕ) (s : Text)
    → n < fuel
    → read_decimal 0 (decimal_from fuel n ++ s) ≡ read_decimal n s
read-decimal_from zero n s h = absurd (omega arith)
read-decimal_from (suc fuel) n s h = elim (Bool-cases (ltb n 10)) [
  | inl small ↦
      rw small
        (rw (read_digit 0 n s (ground arith)) (ap (λ (m : ℕ). read_decimal m s) (omega arith)))
  | inr large ↦
      rw (large, append_assoc (decimal_from fuel (n / 10)) ((48 + n % 10) ∷ []) s)
        (read-decimal_from fuel (n / 10) ((48 + n % 10) ∷ s) (ground arith)
          ∙ read_digit (n / 10) (n % 10) s (omega arith)
          ∙ ap (λ (m : ℕ). read_decimal m s) (omega arith))
]

read-decimal :
    (n : ℕ) (s : Text) → read_decimal n s ≡ (n, s) → read_decimal 0 (decimal n ++ s) ≡ (n, s)
read-decimal n s h = read-decimal_from (suc n) n s (omega arith) ∙ h

read_unit :
    (n unit : ℕ) (s : Text)
    → read_decimal n s ≡ (n, s)
    → unit_of s ≡ some unit
    → read_duration (decimal n ++ s) ≡ some (n * unit)
unfolding read_duration
read_unit n unit s h u = rw (read-decimal n s h, u) refl

exact : (unit d : ℕ) → is_exact unit d ≡ true → d / unit * unit ≡ d
exact unit d h = let whole : d % unit ≡ 0 = ground arith in omega (arith, mod-add-div' d unit)

read_exact :
    (d unit : ℕ) (s : Text)
    → read_decimal (d / unit) s ≡ (d / unit, s)
    → unit_of s ≡ some unit
    → is_exact unit d ≡ true
    → read_duration (decimal (d / unit) ++ s) ≡ some d
read_exact d unit s h u e = read_unit (d / unit) unit s h u ∙ ap some (exact unit d e)

read_if :
    (b : Bool) (s t : Text) (d : ℕ)
    → (b ≡ true → read_duration s ≡ some d)
    → read_duration t ≡ some d
    → read_duration (if b then s else t) ≡ some d
read_if true s t d h k = h refl
read_if false s t d h k = k

-- The text of a duration that is not negative is one integer with one unit, and reads as the
-- duration's nanoseconds.
pub read-format_duration : (d : ℕ) → read_duration (format_duration (pos d)) ≡ some d
unfolding format_duration read_decimal
read-format_duration d = read_if (is_exact hour d) _ _ d (read_exact d hour (codes "h") refl refl) (
    read_if (is_exact minute d) _ _ d (read_exact d minute (codes "m") refl refl) (
      read_if (is_exact second d) _ _ d (read_exact d second (codes "s") refl refl) (
        read_if (is_exact millisecond d) _ _ d (read_exact d millisecond (codes "ms") refl refl) (
          read_if (is_exact microsecond d) _ _ d (read_exact d microsecond micro refl refl)
            (read_unit d 1 (codes "ns") refl refl ∙ ap some (omega arith))))))
