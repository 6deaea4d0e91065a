-- ===== src/Http/Matching/Best.antt =====
-- Which route `matchRoute` answers.
use dash_ota.Base.{
  ℕ, suc, ◌≤◌, ◌≡◌, refl, Bool, true, false, ◌||◌, Option, none, some, List, [], ◌∷◌, Text, ltb,
  any, if◌then◌else◌, arith, All, Bool-cases, inl, inr,
}
use mathlib.Core.List.{Memᴰ}
use dash_ota.Base.Dict.{Dict}
use dash_ota.Base.Scan.{split}
use dash_ota.Http.Matching.{
  Route, RouteMatch, Matched, matched, malformed, no_match, fits, route_params, route_exactness,
  improve, consider, turn, answer, scan, match_route,
}

-- How good an answer is: 0 for none, above that by the number of literal segments.
abbrev pub rank_best : Option RouteMatch → ℕ
rank_best none = 0
rank_best (some m) = suc (route_exactness m.route)

abbrev pub rank_answer : Matched → ℕ
rank_answer (matched m) = suc (route_exactness m.route)
rank_answer _ = 0

module _ (decode : Text → Option Text) (method : Text) (parts : List Text) where
  abbrev rank_params : Route → Option (Dict Text) → ℕ
  rank_params r none = 0
  rank_params r (some params) = suc (route_exactness r)

  -- How good a route is for the request: 0 if it does not fit or a parameter cannot be decoded.
  abbrev pub rank : Route → ℕ
  rank r = if fits method parts r then rank_params r (route_params decode parts r) else 0

  rank-consider :
      (best : Option RouteMatch) (bad : Bool) (r : Route) (params : Option (Dict Text))
      → (rank_params r params ≤ rank_best (consider decode method parts best bad r params).0)
        × (rank_best best ≤ rank_best (consider decode method parts best bad r params).0)
  unfolding consider improve
  rank-consider best bad r none = (ground arith, ground arith)
  rank-consider none bad r (some params) = (ground arith, ground arith)
  rank-consider (some m) bad r (some params) = (ground arith, ground arith)

  rank-turn :
      (best : Option RouteMatch) (bad : Bool) (r : Route)
      → (rank r ≤ rank_best (turn decode method parts best bad r).0)
        × (rank_best best ≤ rank_best (turn decode method parts best bad r).0)
  unfolding turn
  rank-turn best bad r = elim (Bool-cases (fits method parts r)) [
    | inl here ↦ rw here (rank-consider best bad r (route_params decode parts r))
    | inr other ↦ rw other (omega arith, omega arith)
  ]

  rank-scan :
      (best : Option RouteMatch) (bad : Bool) (rs : List Route)
      → All (λ r. rank r ≤ rank_answer (scan decode method parts best bad rs)) rs
        × (rank_best best ≤ rank_answer (scan decode method parts best bad rs))
  unfolding scan answer
  rank-scan none bad [] = (tt, omega arith)
  rank-scan (some m) bad [] = (tt, omega arith)
  rank-scan best bad (r ∷ rs) =
      let next = turn decode method parts best bad r in
      let (rest, later) = rank-scan next.0 next.1 rs in
      let (here, kept) = rank-turn best bad r in
      ((omega (arith, here, later), rest), omega (arith, kept, later))

  -- The match is a route of the list that fits, with its decoded parameters.
  abbrev pub IsMatch : List Route → RouteMatch → Type 0
  IsMatch routes m =
      Memᴰ m.route routes
      × (fits method parts m.route ≡ true)
      × (route_params decode parts m.route ≡ some m.params)

  abbrev AreMatches : List Route → Option RouteMatch → Type 0
  AreMatches routes none = Unit {0}
  AreMatches routes (some m) = IsMatch routes m

  -- The answer over these routes, where `fitted` says whether one of them fits.
  abbrev pub IsAnswer : List Route → (fitted : Bool) → Matched → Type 0
  IsAnswer routes fitted (matched m) = IsMatch routes m
  IsAnswer routes fitted malformed = fitted ≡ true
  IsAnswer routes fitted no_match = fitted ≡ false

  -- Whether the loop has seen a route that fits.
  abbrev has_fitted : Option RouteMatch → Bool → Bool
  has_fitted none bad = bad
  has_fitted (some m) bad = true

  has_fitted-consider :
      (best : Option RouteMatch) (bad : Bool) (r : Route) (params : Option (Dict Text))
      → (let next = consider decode method parts best bad r params in has_fitted next.0 next.1)
        ≡ (has_fitted best bad || true)
  unfolding consider
  has_fitted-consider none bad r none = ground arith
  has_fitted-consider (some m) bad r none = ground arith
  has_fitted-consider none bad r (some params) = ground arith
  has_fitted-consider (some m) bad r (some params) = ground arith

  has_fitted-turn :
      (best : Option RouteMatch) (bad : Bool) (r : Route)
      → (let next = turn decode method parts best bad r in has_fitted next.0 next.1)
        ≡ (has_fitted best bad || fits method parts r)
  unfolding turn
  has_fitted-turn best bad r = elim (Bool-cases (fits method parts r)) [
    | inl here ↦ rw here (has_fitted-consider best bad r (route_params decode parts r))
    | inr other ↦ rw other (ground arith)
  ]

  consider-AreMatches :
      (routes : List Route) (best : Option RouteMatch) (bad : Bool) (r : Route)
      (params : Option (Dict Text))
      → Memᴰ r routes
      → fits method parts r ≡ true
      → route_params decode parts r ≡ params
      → AreMatches routes best
      → AreMatches routes (consider decode method parts best bad r params).0
  unfolding consider improve
  consider-AreMatches routes best bad r none m f p h = h
  consider-AreMatches routes none bad r (some params) m f p h = (m, f, p)
  consider-AreMatches routes (some b) bad r (some params) m f p h =
      elim (Bool-cases (ltb (route_exactness b.route) (route_exactness r))) [
        | inl better ↦ rw better (m, f, p)
        | inr worse ↦ rw worse h
      ]

  turn-AreMatches :
      (routes : List Route) (best : Option RouteMatch) (bad : Bool) (r : Route)
      → Memᴰ r routes
      → AreMatches routes best
      → AreMatches routes (turn decode method parts best bad r).0
  unfolding turn
  turn-AreMatches routes best bad r m h = elim (Bool-cases (fits method parts r)) [
    | inl here ↦
        rw here (consider-AreMatches routes best bad r (route_params decode parts r) m here refl h)
    | inr other ↦ rw other h
  ]

  scan-IsAnswer :
      (routes : List Route) (fitted : Bool) (best : Option RouteMatch) (bad : Bool)
      (rs : List Route)
      → ((r : Route) → Memᴰ r rs → Memᴰ r routes)
      → AreMatches routes best
      → (has_fitted best bad || any (fits method parts) rs) ≡ fitted
      → IsAnswer routes fitted (scan decode method parts best bad rs)
  unfolding scan answer
  scan-IsAnswer routes fitted none true [] among h e = ground (arith, e)
  scan-IsAnswer routes fitted none false [] among h e = ground (arith, e)
  scan-IsAnswer routes fitted (some m) bad [] among h e = h
  scan-IsAnswer routes fitted best bad (r ∷ rs) among h e =
      let next = turn decode method parts best bad r in
      scan-IsAnswer routes fitted next.0 next.1 rs (λ s k. among s (Memᴰ.tail k))
        (turn-AreMatches routes best bad r (among r (Memᴰ.head refl)) h)
        (ground (arith, has_fitted-turn best bad r, e))

-- `matchRoute` answers a match only with a listed route of the same method that fits the path, with
-- its decoded parameters; no listed route that fits and decodes has more literal segments, and there
-- is none when it answers no match or a malformed path. It answers a malformed path only when some
-- route fits, and no match only when none does.
pub match_route-IsAnswer :
    (decode : Text → Option Text) (routes : List Route) (method pathname : Text)
    → (let parts = split b'/' pathname in
        IsAnswer decode method parts routes
          (any (fits method parts) routes)
          (match_route decode routes method pathname)
        × All
            (λ r.
              rank decode method parts r ≤ rank_answer (match_route decode routes method pathname))
            routes)
unfolding match_route
match_route-IsAnswer decode routes method pathname =
    let parts = split b'/' pathname in
    (
      scan-IsAnswer decode method parts routes (any (fits method parts) routes) none false routes
          (λ r m. m) tt refl,
      (rank-scan decode method parts none false routes).0,
    )
