-- ===== src/Metrics/Tests.antt =====
-- The registry on examples.

use link_nest.Base.{ℕ, ◌≡◌, ◌-◌, List, [], ◌∷◌, length, drop}
use link_nest.Text.{lit, equals}
use link_nest.Metrics.{new_registry}
use link_nest.Metrics.Window.{kept_of, observe_all, kept_of-observe_all}
use link_nest.Metrics.Counters.{Act, increment, set_gauge, observed}

abbrev acts : List Act
acts =
    increment (lit "a") 2
    ∷ observed (lit "a") 5
    ∷ increment (lit "b") 1
    ∷ set_gauge (lit "a") 9
    ∷ increment (lit "a") 3
    ∷ []

kept_of-observe_all_example :
    kept_of (lit "a") (observe_all ((lit "a", 5) ∷ (lit "b", 6) ∷ []) new_registry)
    ≡ (let ds : List ℕ = 5 ∷ [] in drop (length ds - 1024) ds)
unfolding equals
kept_of-observe_all_example = kept_of-observe_all (lit "a") ((lit "a", 5) ∷ (lit "b", 6) ∷ [])
