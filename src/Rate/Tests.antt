-- ===== src/Rate/Tests.antt =====
-- The budget's theorem at concrete hits.
use apipi.Base.{◌≡◌, true, [], ◌∷◌, arith}
use apipi.Rate.Budget.{relay_rate_allowed, relay_rate_allowed-recent}

relay_rate_allowed-recent_example :
    ((relay_rate_allowed (1 ∷ 900 ∷ []) 1500 2).0 ≡ 900 ∷ 1500 ∷ [])
    × ((relay_rate_allowed (1 ∷ 900 ∷ []) 1500 2).1 ≡ true)
relay_rate_allowed-recent_example =
    relay_rate_allowed-recent (1 ∷ 900 ∷ []) 1500 2 ((omega arith, tt), (tt, tt))
