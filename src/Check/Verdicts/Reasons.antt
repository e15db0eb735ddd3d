-- ===== src/Check/Verdicts/Reasons.antt =====
-- The bounded text of a rejection.
use mathlib.Core.Path.{subst}
use mathlib.Core.List.{append_assoc}
use kraken_d_operator.Base.{
  ℕ, zero, suc, ◌+◌, ◌-◌, ◌≤◌, ◌<◌, false, List, [], ◌∷◌, ◌++◌, ◌≡◌, ◌≢◌, inl, inr, refl,
  Bool-cases, All, leb, length, length-append, arith,
}
use kraken_d_operator.Base.Texts.{Text}
use kraken_d_operator.Check.Verdicts.{
  Verdict, truncate, marker, join_bounded, no_finding, findings, or_no_output, split_lines_from,
  trim_space, excerpt,
}
use kraken_d_operator.Check.Verdicts.Cuts.{
  IsCut, truncate-IsCut, joined, IsFull, marker_after, join_rest-IsJoined,
}

-- The text of `s` and `parts` under a limit: `s` and as many parts behind it as fit with it, joined,
-- and the count of the parts left out; or a cut of `s`, if it alone does not fit, and then the count
-- of all the others, or word that it was cut if there are none.
pub data IsBoundedText (s : Text) (parts : List Text) (limit : ℕ) : Text → Type 0 where
  whole :
      (kept left : List Text)
      → kept ++ left ≡ parts
      → length (s ++ joined kept) ≤ limit
      → IsFull (s ∷ kept) left (limit + 2)
      → IsBoundedText s parts limit (s ++ joined kept ++ marker_after left)
  cut_first :
      (t : Text)
      → limit < length s
      → IsCut s limit t
      → IsBoundedText s parts limit (t ++ marker (length parts))

-- For parts with a first one and every limit: if the first part fits, the joined text is it and
-- behind it, separated by "; ", every further part up to the first one that passes the limit, and
-- then the count of the parts left out, if any; otherwise it is the first part truncated at the
-- limit, with the count of the others, or " (truncated)" if there are none.
pub join_bounded-IsBoundedText :
    (s : Text) (parts : List Text) (limit : ℕ)
    → IsBoundedText s parts limit (join_bounded (s ∷ parts) limit)
unfolding join_bounded
join_bounded-IsBoundedText s parts limit = elim (Bool-cases (leb (length s) limit)) [
  | inl fits ↦
      let more = join_rest-IsJoined parts (limit - length s) in
      rw (fits, more.text)
        (subst (IsBoundedText s parts limit)
          (append_assoc s (joined more.kept) (marker_after more.left))
          (whole more.kept more.left more.is_split
            (ground (arith, more.fits, length-append s (joined more.kept)))
            (first-IsFull s more.kept more.left limit (ground arith) more.full)))
  | inr long ↦ rw long (cut_first (truncate s limit) (ground arith) (truncate-IsCut s limit))
]
  where
    first-IsFull :
        (s : Text) (kept left : List Text) (limit : ℕ)
        → length s ≤ limit
        → IsFull kept left (limit - length s)
        → IsFull (s ∷ kept) left (limit + 2)
    first-IsFull s kept [] limit h full = tt
    first-IsFull s kept (t ∷ left) limit h full =
        ground (arith, full, length-append s (joined kept))

nonempty-append : (s t : Text) → s ≢ [] → s ++ t ≢ []
nonempty-append [] t h e = h refl
nonempty-append (c ∷ s) t h e = ground arith

append-nonempty : (s t : Text) → t ≢ [] → s ++ t ≢ []
append-nonempty [] t h e = h e
append-nonempty (c ∷ s) t h e = ground arith

marker-nonempty : (n : ℕ) → marker n ≢ []
marker-nonempty zero e = ground arith
marker-nonempty (suc n) e = ground arith

join_bounded-nonempty :
    (s : Text) (parts : List Text) (limit : ℕ) → s ≢ [] → join_bounded (s ∷ parts) limit ≢ []
unfolding join_bounded
join_bounded-nonempty s parts limit h = elim (Bool-cases (leb (length s) limit)) [
  | inl fits ↦ rw fits (nonempty-append s _ h)
  | inr long ↦ rw long (append-nonempty (truncate s limit) _ (marker-nonempty (length parts)))
]

-- a kept line is not empty
findings-All : (lines : List Text) → All (λ l. no_finding l ≡ false) (findings lines)
unfolding findings
findings-All [] = tt
findings-All (l ∷ lines) = elim (Bool-cases (no_finding (trim_space l))) [
  | inl skip ↦ rw skip (findings-All lines)
  | inr hit ↦ rw hit (hit, findings-All lines)
]

no_finding-nonempty : (l : Text) → no_finding l ≡ false → l ≢ []
unfolding no_finding
no_finding-nonempty [] h e = ground arith
no_finding-nonempty (c ∷ l) h e = ground arith

joined-nonempty :
    (lines : List Text) (limit : ℕ)
    → All (λ l. no_finding l ≡ false) lines
    → join_bounded (or_no_output false lines) limit ≢ []
joined-nonempty [] limit h = join_bounded-nonempty _ [] limit (λ e. ground arith)
joined-nonempty (l ∷ lines) limit (p, h) =
    join_bounded-nonempty l lines limit (no_finding-nonempty l p)

-- The excerpt of a rejection is not empty, whatever the output and the limit.
excerpt-nonempty : (v : Verdict) (limit : ℕ) → v.ok ≡ false → excerpt v limit ≢ []
unfolding excerpt
excerpt-nonempty v limit h = rw h (
    joined-nonempty (findings (split_lines_from [] v.output)) limit
      (findings-All (split_lines_from [] v.output)))
