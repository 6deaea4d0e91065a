-- ===== src/Tests/Matching.antt =====
-- Example: a literal route beside a parameterised one, with a decoder that accepts every segment.
use dash_ota.Base.{◌≤◌, Option, some, List, [], ◌∷◌, Text, text, any, All}
use dash_ota.Base.Scan.{split}
use dash_ota.Http.Matching.{Route, fits, match_route}
use dash_ota.Http.Matching.Best.{IsAnswer, rank, rank_answer, match_route-IsAnswer}

abbrev routes : List Route
routes =
    record { method = text "GET"; path = text "/a/:id" }
    ∷ record { method = text "GET"; path = text "/a/b" }
    ∷ []

abbrev plain : Text → Option Text
plain s = some s

match_route-IsAnswer_example :
    IsAnswer plain
      (text "GET")
      (split b'/' (text "/a/b"))
      routes
      (any (fits (text "GET") (split b'/' (text "/a/b"))) routes)
      (match_route plain routes (text "GET") (text "/a/b"))
    × All
        (λ r.
          rank plain (text "GET") (split b'/' (text "/a/b")) r
          ≤ rank_answer (match_route plain routes (text "GET") (text "/a/b")))
        routes
match_route-IsAnswer_example = match_route-IsAnswer plain routes (text "GET") (text "/a/b")
