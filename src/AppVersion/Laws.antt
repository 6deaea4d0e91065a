-- ===== src/AppVersion/Laws.antt =====
-- `compareVersions` orders versions by their segments.
use dash_ota.Base.{◌≡◌, refl, sym, ◌↔◌, ◌⊎◌, ap, ◌∙◌, Text, arith, ℕ}
use dash_ota.Base.Int.{ℤ, pos, negsuc, ◌<ℤ◌}
use dash_ota.AppVersion.{
  Version, Order, less, same, greater, compare_segment, concrete, compare_parsed, compare_versions,
  parse_version,
}

abbrev pub reverse : Order → Order
reverse less = greater
reverse same = same
reverse greater = less

reverse-less : (o : Order) → (reverse o ≡ greater) ↔ (o ≡ less)
reverse-less less = (λ e. refl, λ e. refl)
reverse-less same = (λ e. cc e, λ e. cc e)
reverse-less greater = (λ e. cc e, λ e. cc e)

compare_segment-reverse :
    (x y : ℤ) (o : Order) → compare_segment x y (reverse o) ≡ reverse (compare_segment y x o)
unfolding compare_segment
compare_segment-reverse x y o = ground arith

compare_parsed-reverse : (a b : Version) → compare_parsed a b ≡ reverse (compare_parsed b a)
unfolding compare_parsed
compare_parsed-reverse a b =
    ap (compare_segment a.major b.major) minor ∙ compare_segment-reverse a.major b.major _
  where
    patch : compare_segment a.patch b.patch same ≡ reverse (compare_segment b.patch a.patch same)
    patch = compare_segment-reverse a.patch b.patch same

    minor :
        compare_segment a.minor b.minor (compare_segment a.patch b.patch same)
        ≡ reverse (compare_segment b.minor a.minor (compare_segment b.patch a.patch same))
    minor = ap (compare_segment a.minor b.minor) patch ∙ compare_segment-reverse a.minor b.minor _

-- A segment as the order counts it: a wildcard, or what is no number, counts as 0.
abbrev pub counted : ℤ → ℤ
counted (pos n) = pos n
counted (negsuc ℕ.zero) = pos 0
counted (negsuc (ℕ.suc n)) = negsuc (ℕ.suc n)

abbrev pub IsLevel : ℤ → ℤ → Type 0
IsLevel x y = counted x ≡ counted y

abbrev pub IsLower : ℤ → ℤ → Type 0
IsLower x y = counted x <ℤ counted y

-- The first segment that differs decides.
abbrev pub IsBefore : Version → Version → Type 0
IsBefore a b =
    IsLower a.major b.major
    ⊎ (IsLevel a.major b.major
        × (IsLower a.minor b.minor ⊎ (IsLevel a.minor b.minor × IsLower a.patch b.patch)))

concrete-counted : (x : ℤ) → concrete x ≡ counted x
unfolding concrete
concrete-counted (pos n) = ground arith
concrete-counted (negsuc ℕ.zero) = refl
concrete-counted (negsuc (ℕ.suc n)) = ground arith

compare_segment_less :
    (x y : ℤ) (o : Order)
    → (compare_segment x y o ≡ less) ↔ (IsLower x y ⊎ (IsLevel x y × (o ≡ less)))
unfolding compare_segment
compare_segment_less x y o = ground (arith, concrete-counted x, concrete-counted y)

compare_parsed_less : (a b : Version) → (compare_parsed a b ≡ less) ↔ IsBefore a b
unfolding compare_parsed
compare_parsed_less a b = ground (
  arith,
  compare_segment_less a.major b.major
      (compare_segment a.minor b.minor (compare_segment a.patch b.patch same)),
  compare_segment_less a.minor b.minor (compare_segment a.patch b.patch same),
  compare_segment_less a.patch b.patch same,
)

-- Swapping the two texts reverses the answer of `compareVersions`; so a text equals itself.
compare_versions-reverse : (a b : Text) → compare_versions a b ≡ reverse (compare_versions b a)
unfolding compare_versions
compare_versions-reverse a b = compare_parsed-reverse (parse_version a) (parse_version b)

-- `compareVersions` orders two version texts by their segments, a wildcard counted as 0: the answer is
-- "less" exactly when the first segment in which they differ is lower in the first text, and
-- "greater" exactly when it is lower in the second.
pub compare_versions_iff :
    (a b : Text)
    → ((compare_versions a b ≡ less) ↔ IsBefore (parse_version a) (parse_version b))
      × ((compare_versions a b ≡ greater) ↔ IsBefore (parse_version b) (parse_version a))
unfolding compare_versions
compare_versions_iff a b =
    let one = parse_version a in
    let two = parse_version b in
    let turned = compare_parsed-reverse one two in
    let below = compare_parsed_less two one in
    (
      compare_parsed_less one two,
      (
        λ e. below.0 ((reverse-less (compare_parsed two one)).0 (sym turned ∙ e)),
        λ h. turned ∙ (reverse-less (compare_parsed two one)).1 (below.1 h),
      ),
    )
