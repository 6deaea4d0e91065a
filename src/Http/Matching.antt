-- ===== src/Http/Matching.antt =====
-- packages/backend/src/http.ts, `matchRoute`. `decodeURIComponent` is a parameter, `none` where it
-- throws; a route is its method and path.
pub mod Best
use dash_ota.Base.{
  ℕ, ◌+◌, Bool, true, false, ◌&&◌, ◌||◌, Option, none, some, List, [], ◌∷◌, Text, ◌===◌, ◌==◌, ltb,
  length, if◌then◌else◌,
}
use dash_ota.Base.Dict.{Dict, set}
use dash_ota.Base.Scan.{split}

pub record Route : Type 0 where
  pub method : Text
  pub path : Text

pub record RouteMatch : Type 0 where
  pub route : Route
  pub params : Dict Text

-- The three answers of `matchRoute`.
pub data Matched : Type 0 where
  matched : RouteMatch → Matched
  malformed no_match : Matched

-- `seg.startsWith(':')`
abbrev pub is_param : Text → Bool
is_param [] = false
is_param (c ∷ cs) = c == b':'

-- `seg.slice(1)`
abbrev pub param_name : Text → Text
param_name [] = []
param_name (c ∷ cs) = cs

-- Every literal segment of the route is that of the request.
unfoldable pub literals_agree : List Text → List Text → Bool
literals_agree (s ∷ ss) (p ∷ ps) = (is_param s || s === p) && literals_agree ss ps
literals_agree _ _ = true

unfoldable pub fits : Text → List Text → Route → Bool
unfolding literals_agree
fits method parts r =
    (r.method === method)
    && length (split b'/' r.path) == length parts
    && literals_agree (split b'/' r.path) parts

-- The number of literal segments.
unfoldable pub exactness : List Text → ℕ
exactness [] = 0
exactness (s ∷ ss) = if is_param s then exactness ss else exactness ss + 1

module _ (decode : Text → Option Text) where
  -- The parameters, `none` if one of them cannot be decoded.
  unfoldable pub read_params : Dict Text → List Text → List Text → Option (Dict Text)
  read_params params (s ∷ ss) (p ∷ ps) =
      let literal = read_params params ss ps in
      elim (decode p) [
        | none ↦ if is_param s then none else literal
        | some value ↦
            if is_param s then read_params (set params (param_name s) value) ss ps else literal
      ]
  read_params params _ _ = some params

  abbrev pub route_params : List Text → Route → Option (Dict Text)
  route_params parts r = read_params [] (split b'/' r.path) parts

abbrev pub route_exactness : Route → ℕ
route_exactness r = exactness (split b'/' r.path)

-- `if (!best || exactness > best.exactness)`
unfoldable pub improve : Option RouteMatch → RouteMatch → RouteMatch
improve none new = new
improve (some best) new =
    if ltb (route_exactness best.route) (route_exactness new.route) then new else best

module _ (decode : Text → Option Text) (method : Text) (parts : List Text) where
  -- One turn of the loop on a route that fits.
  unfoldable pub consider :
      Option RouteMatch → Bool → Route → Option (Dict Text) → Option RouteMatch × Bool
  unfolding improve
  consider best bad r none = (best, true)
  consider best bad r (some params) =
      (some (improve best (record { route = r; params = params })), bad)

  unfoldable pub turn : Option RouteMatch → Bool → Route → Option RouteMatch × Bool
  unfolding consider fits read_params
  turn best bad r =
      if fits method parts r then consider best bad r (route_params decode parts r) else (best, bad)

  unfoldable pub answer : Option RouteMatch → Bool → Matched
  answer (some best) bad = matched best
  answer none bad = if bad then malformed else no_match

  unfoldable pub scan : Option RouteMatch → Bool → List Route → Matched
  unfolding turn answer
  scan best bad [] = answer best bad
  scan best bad (r ∷ rs) = let next = turn best bad r in scan next.0 next.1 rs

-- `matchRoute`
unfoldable pub match_route : (decode : Text → Option Text) → List Route → Text → Text → Matched
unfolding scan
match_route decode routes method pathname =
    scan decode method (split b'/' pathname) none false routes
