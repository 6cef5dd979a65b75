-- ===== src/Tags/Tests.antt =====
-- Two tags, at 100 and 200.
use raccoon_exok.Common.{ℕ, Option, none, some, List, [], ◌∷◌, ◌==◌, if◌then◌else◌}
use raccoon_exok.Tags.{Tag}

abbrev tags : List (ℕ × ℕ)
tags = (100, 7) ∷ (200, 8) ∷ []

abbrev mem : ℕ → Option Tag
mem p =
    if p == 100
    then some (record { identifier = 7; next = 200 })
    else if p == 200
    then some (record { identifier = 8; next = 0 })
    else none
