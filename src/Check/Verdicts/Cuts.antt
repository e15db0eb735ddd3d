-- ===== src/Check/Verdicts/Cuts.antt =====
-- The cuts of a rejection's texts.
use mathlib.Core.List.{append-nil, append_assoc}
use kraken_d_operator.Base.{
  ℕ, zero, suc, ◌+◌, ◌-◌, ◌≤◌, ◌<◌, true, false, List, [], ◌∷◌, ◌++◌, ◌≡◌, ◌⊎◌, inl, inr, refl, sym,
  ap, nat_eq, nat_eq_iff, Bool-cases, leb, length, length-append, arith,
}
use kraken_d_operator.Base.Texts.{Text, codes}
use kraken_d_operator.Check.Verdicts.{
  starts_rune, take, drop, cut_at, truncate, truncate_ellipsis, marker, join_rest,
}

take-drop : (n : ℕ) (s : Text) → take n s ++ drop n s ≡ s
take-drop zero s = refl
take-drop (suc n) [] = refl
take-drop (suc n) (c ∷ s) = rw (take-drop n s)

length-take : (n : ℕ) (s : Text) → length (take n s) ≤ n
length-take zero s = omega arith
length-take (suc n) [] = omega arith
length-take (suc n) (c ∷ s) = omega (arith, length-take n s)

take-length : (n : ℕ) (s : Text) → n ≤ length s → length (take n s) ≡ n
take-length zero s h = refl
take-length (suc n) [] h = omega (arith, h)
take-length (suc n) (c ∷ s) h = omega (arith, take-length n s (omega (arith, h)))

cut_at_le : (n : ℕ) (s : Text) → cut_at n s ≤ n
unfolding cut_at
cut_at_le zero s = omega arith
cut_at_le (suc n) s = ground (arith, cut_at_le n s)

-- the cut is at the start of a rune, or of the text
cut_at-starts : (n : ℕ) (s : Text) → (cut_at n s ≡ 0) ⊎ (starts_rune (drop (cut_at n s) s) ≡ true)
unfolding cut_at
cut_at-starts zero s = inl refl
cut_at-starts (suc n) s = elim (Bool-cases (starts_rune (drop (suc n) s))) [
  | inl here ↦ rw here (inr here)
  | inr later ↦ rw later (cut_at-starts n s)
]

-- no later place up to `n` starts a rune
cut_at-last : (n m : ℕ) (s : Text) → m ≤ n → starts_rune (drop m s) ≡ true → m ≤ cut_at n s
unfolding cut_at
cut_at-last zero m s h k = omega (arith, h)
cut_at-last (suc n) m s h k = elim (Bool-cases (starts_rune (drop (suc n) s))) [
  | inl here ↦ rw (here, cut_at) h
  | inr later ↦ rw (later, cut_at) (cut_at-last n m s (earlier later) k)
]
  where
    earlier : starts_rune (drop (suc n) s) ≡ false → m ≤ n
    earlier later = elim (Bool-cases (nat_eq m (suc n))) [
      | inl same ↦
          let e = (nat_eq_iff m (suc n)).0 same in
          let k' : starts_rune (drop (suc n) s) ≡ true = rw e at k in cc
      | inr other ↦ ground arith
    ]

-- `t` is `s` cut at `limit`: a prefix that fits, the whole text if that fits, and otherwise one that
-- ends where a rune starts, or empty; behind its end, no place up to the limit starts a rune.
pub record IsCut (s : Text) (limit : ℕ) (t : Text) : Type 0 where
  pub rest : Text
  pub is_prefix : t ++ rest ≡ s
  pub fits : length t ≤ limit
  pub ends : (rest ≡ []) ⊎ (t ≡ []) ⊎ (starts_rune rest ≡ true)
  pub whole : (t ≡ s) ⊎ (limit < length s)
  pub last : (m : ℕ) → (m ≤ length t) ⊎ ((limit < m) ⊎ (starts_rune (drop m s) ≡ false))

drop-behind : (m : ℕ) (s : Text) → length s ≤ m → drop m s ≡ []
drop-behind zero [] h = refl
drop-behind zero (c ∷ s) h = absurd (omega (arith, h))
drop-behind (suc m) [] h = refl
drop-behind (suc m) (c ∷ s) h = drop-behind m s (omega (arith, h))

-- a place behind the cut is past the limit or starts no rune
cut_at-behind :
    (s : Text) (limit m : ℕ)
    → (m ≤ cut_at limit s) ⊎ ((limit < m) ⊎ (starts_rune (drop m s) ≡ false))
cut_at-behind s limit m = elim (Bool-cases (leb m limit)) [
  | inr past ↦ inr (inl (ground arith))
  | inl near ↦ elim (Bool-cases (starts_rune (drop m s))) [
    | inl starts ↦ inl (cut_at-last limit m s (ground arith) starts)
    | inr inner ↦ inr (inr inner)
  ]
]

-- For every text and limit, the truncated text is the longest prefix within the limit that splits no
-- rune: it is the whole text if that fits, and otherwise it ends where a rune starts, or is empty,
-- and no place behind its end and up to the limit starts a rune.
pub truncate-IsCut : (s : Text) (limit : ℕ) → IsCut s limit (truncate s limit)
unfolding truncate
truncate-IsCut s limit = elim (Bool-cases (leb (length s) limit)) [
  | inl fits ↦ rw fits (record {
    rest = [];
    is_prefix = append-nil s;
    fits = ground arith;
    ends = inl refl;
    whole = inl refl;
    last = λ m. elim (Bool-cases (leb m (length s))) [
      | inl within ↦ inl (ground arith)
      | inr past ↦ inr (inr (rw (drop-behind m s (ground arith)) refl))
    ];
  })
  | inr long ↦
      let m = cut_at limit s in
      let exact = take-length m s (omega (arith, cut_at_le limit s, too_long long)) in
      rw long (record {
        rest = drop m s;
        is_prefix = take-drop m s;
        fits = omega (arith, length-take m s, cut_at_le limit s);
        ends = elim (cut_at-starts limit s) [
          | inl none_left ↦ inr (inl (rw none_left))
          | inr starts ↦ inr (inr starts)
        ];
        whole = inr (ground arith);
        last = λ k. rw exact (cut_at-behind s limit k);
      })
]
  where
    too_long : leb (length s) limit ≡ false → limit ≤ length s
    too_long h = ground arith

-- Whatever the text, one with an ellipsis fits in the limit.
length-truncate_ellipsis : (s : Text) (limit : ℕ) → length (truncate_ellipsis s limit) ≤ limit
unfolding truncate_ellipsis
length-truncate_ellipsis s limit =
    let short = (truncate-IsCut s limit).fits in
    let cut = (truncate-IsCut s (limit - 3)).fits in
    ground (arith, short, cut, length-append (truncate s (limit - 3)) (codes "..."))

drop-append : (p q : Text) → drop (length p) (p ++ q) ≡ q
drop-append [] q = refl
drop-append (c ∷ p) q = drop-append p q

-- No prefix of the text that fits in the limit and ends where a rune starts is longer.
truncate-longest :
    (p q : Text) (limit : ℕ)
    → length p ≤ limit
    → starts_rune q ≡ true
    → length p ≤ length (truncate (p ++ q) limit)
unfolding truncate
truncate-longest p q limit h k = elim (Bool-cases (leb (length (p ++ q)) limit)) [
  | inl fits ↦ rw fits (omega (arith, length-append p q))
  | inr long ↦
      let m = cut_at limit (p ++ q) in
      let last = cut_at-last limit (length p) (p ++ q) h (rw (drop-append p q) k) in
      let whole = take-length m (p ++ q) (omega (arith, cut_at_le limit (p ++ q), too_long long)) in
      rw long (omega (arith, last, whole))
]
  where
    too_long : leb (length (p ++ q)) limit ≡ false → limit ≤ length (p ++ q)
    too_long h = ground arith

-- the parts that a bounded text keeps, joined
abbrev pub joined : List Text → Text
joined [] = []
joined (s ∷ parts) = codes "; " ++ (s ++ joined parts)

abbrev pub marker_after : List Text → Text
marker_after [] = []
marker_after (s ∷ left) = marker (suc (length left))

-- The part behind the kept ones does not fit in the room.
abbrev pub IsFull : List Text → List Text → ℕ → Type 0
IsFull kept [] room = Unit
IsFull kept (s ∷ left) room = room < (length (joined kept) + (length s + 2))

-- As many of `parts` in front as fit, joined as they are, and the count of the others.
pub record IsJoined (parts : List Text) (room : ℕ) (t : Text) : Type 0 where
  pub kept : List Text
  pub left : List Text
  pub is_split : kept ++ left ≡ parts
  pub fits : length (joined kept) ≤ room
  pub full : IsFull kept left room
  pub text : t ≡ joined kept ++ marker_after left

IsFull-cons :
    (s : Text) (kept left : List Text) (room : ℕ)
    → (length s + 2) ≤ room
    → IsFull kept left (room - (length s + 2))
    → IsFull (s ∷ kept) left room
IsFull-cons s kept [] room h full = tt
IsFull-cons s kept (t ∷ left) room h full = ground (arith, full, length-append s (joined kept))

pub join_rest-IsJoined : (parts : List Text) (room : ℕ) → IsJoined parts room (join_rest parts room)
unfolding join_rest
join_rest-IsJoined [] room = record {
  kept = [];
  left = [];
  is_split = refl;
  fits = omega arith;
  full = tt;
  text = refl;
}
join_rest-IsJoined (s ∷ parts) room = elim (Bool-cases (leb (length s + 2) room)) [
  | inl fits ↦
      let more = join_rest-IsJoined parts (room - (length s + 2)) in
      rw fits (record {
        kept = s ∷ more.kept;
        left = more.left;
        is_split = rw more.is_split;
        fits = ground (arith, more.fits, length-append s (joined more.kept));
        full = IsFull-cons s more.kept more.left room (ground arith) more.full;
        text = rw more.text (
            ap (λ x. codes "; " ++ x)
              (sym (append_assoc s (joined more.kept) (marker_after more.left))));
      })
  | inr full ↦ rw full (record {
    kept = [];
    left = s ∷ parts;
    is_split = refl;
    fits = omega arith;
    full = ground arith;
    text = refl;
  })
]
