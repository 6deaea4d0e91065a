-- ===== src/Http/Ranges.antt =====
-- What a range answer promises, and the bug at an empty blob.
use dash_ota.Base.{
  ℕ, ◌+◌, ◌-◌, ◌≤◌, ◌<◌, ◌≡◌, refl, ◌≢◌, false, Option, none, some, [], ◌∷◌, Text, arith, length,
  take, drop, min, suc, zero, is_empty, Bool-cases, length-take, length-drop, leb, ltb, ◌||◌, ◌==◌,
  inl, inr,
}
use dash_ota.Base.Scan.{trim}
use dash_ota.Base.Int.{pos, negsuc}
use dash_ota.Providers.{Bytes}
use dash_ota.Store.Serving.{throws, opened, read_range}
use dash_ota.Http.{
  RangeResult, whole, part, unsatisfiable, parse_range, range_of, match_range, suffix_range,
  bounded_range, overflows, digits,
}

-- The range lies inside an object of this size.
abbrev pub IsInside : ℕ → RangeResult → Type 0
IsInside size whole = Unit {0}
IsInside size unsatisfiable = Unit {0}
IsInside size (part r) = (end : ℕ) × (r.end ≡ pos end) × (r.start ≤ end) × (end < size)

suffix_range-IsInside : (suffix size : ℕ) → 0 < size → IsInside size (suffix_range suffix size)
unfolding suffix_range
suffix_range-IsInside suffix zero h = elim h [ ]
suffix_range-IsInside suffix (suc n) h = elim (Bool-cases (overflows suffix || suffix == 0)) [
  | inl refused ↦ rw refused tt
  | inr taken ↦ rw taken (n, refl, ground arith, omega arith)
]

bounded_range-IsInside :
    (start end size : ℕ) → end ≤ size - 1 → IsInside size (bounded_range start end size)
unfolding bounded_range
bounded_range-IsInside start end size h = elim (Bool-cases (leb size start)) [
  | inl past ↦ rw past tt
  | inr inside ↦ elim (Bool-cases (ltb end start)) [
    | inl reversed ↦ rw (inside, reversed) tt
    | inr ordered ↦ rw (inside, ordered) (end, refl, ground arith, ground arith)
  ]
]

range_of-IsInside :
    (m : Option (Text × Text)) (size : ℕ) → 0 < size → IsInside size (range_of m size)
unfolding range_of
range_of-IsInside none size h = tt
range_of-IsInside (some ([], [])) size h = tt
range_of-IsInside (some ([], e ∷ es)) size h = suffix_range-IsInside (digits (e ∷ es)) size h
range_of-IsInside (some (s ∷ ss, [])) size h =
    bounded_range-IsInside (digits (s ∷ ss)) (size - 1) size (omega arith)
range_of-IsInside (some (s ∷ ss, e ∷ es)) size h =
    bounded_range-IsInside (digits (s ∷ ss)) (min (digits (e ∷ es)) (size - 1)) size (omega arith)

-- For an object that is not empty, every range that `parseRange` answers lies inside the object.
parse_range-IsInside :
    (value : Option Text) (size : ℕ) → 0 < size → IsInside size (parse_range value size)
unfolding parse_range
parse_range-IsInside none size h = tt
parse_range-IsInside (some []) size h = tt
parse_range-IsInside (some (c ∷ cs)) size h = range_of-IsInside (match_range (trim (c ∷ cs))) size h

-- What a partial answer announces and delivers.
abbrev pub Delivers : Bytes → RangeResult → Type 0
Delivers bytes whole = read_range bytes none ≡ opened bytes
Delivers bytes unsatisfiable = Unit {0}
Delivers bytes (part r) =
    (end : ℕ) × (sent : Bytes) × (r.end ≡ pos end)
    × (end < length bytes)
    × (read_range bytes (some r) ≡ opened sent)
    × (length sent + r.start ≡ end + 1)

inside-Delivers : (bytes : Bytes) (r : RangeResult) → IsInside (length bytes) r → Delivers bytes r
inside-Delivers bytes whole h = refl
inside-Delivers bytes unsatisfiable h = tt
inside-Delivers bytes (part r) (end, at, ordered, inside) = (
  end,
  take (suc end - r.start) (drop r.start bytes),
  at,
  inside,
  rw at (let forward : ltb end r.start ≡ false = ground arith in rw forward refl),
  omega (arith, length-take (suc end - r.start) (drop r.start bytes), length-drop r.start bytes),
)

-- For a stored object that is not empty, the answer to a `Range` header can be served: opening the
-- stream for the range does not throw, and it delivers exactly the `end - start + 1` bytes that the
-- response announces.
pub parse_range-Delivers :
    (value : Option Text) (bytes : Bytes)
    → 0 < length bytes
    → Delivers bytes (parse_range value (length bytes))
parse_range-Delivers value bytes h =
    inside-Delivers bytes _ (parse_range-IsInside value (length bytes) h)

-- For an empty object a suffix range ("bytes=-N" with a finite N above 0) is answered with the range
-- from 0 to -1 where the code means to answer 416, and opening the stream for it throws.
pub suffix_of_empty :
    (value raw_end : Text)
    → is_empty value ≡ false
    → match_range (trim value) ≡ some ([], raw_end)
    → is_empty raw_end ≡ false
    → overflows (digits raw_end) ≡ false
    → digits raw_end ≢ 0
    → (parse_range (some value) 0 ≡ part (record { start = 0; end = negsuc 0 }))
      × (read_range [] (some (record { start = 0; end = negsuc 0 })) ≡ throws)
unfolding parse_range range_of suffix_range
suffix_of_empty value raw_end given matched named finite positive = (
  rw (given, matched, range_of)
      (let nonzero : (digits raw_end == 0) ≡ false = ground arith in
        rw (named, finite, nonzero) (ground arith)),
  refl,
)
