-- ===== src/Store/Reach/Tests.antt =====
-- A history of calls, and the theorems on its states.
use link_nest.Base.{pos, true, none, some, some-inj, [], ◌∷◌}
use link_nest.Text.{lit}
use link_nest.Platform.Sample.{sample}
use link_nest.Models.{broken}
use link_nest.Store.World.{World}
use link_nest.Store.Reach.{Op, create, move, run_op, fresh, ran, Reachable, begun, next}
use link_nest.Store.Reach.Shelf.{Shelved, run_op-Shelved}

abbrev add : Op
add = create 7 (lit "Home") (lit "/home") true

-- The third call of the driver fails at first.
abbrev one_added : World
one_added = run_op sample add (fresh 100 (none ∷ none ∷ some (broken 1) ∷ []))

abbrev two_added : World
two_added = run_op sample add one_added

two_added-Reachable : Reachable sample two_added
two_added-Reachable =
    next (next (begun 100 (none ∷ none ∷ some (broken 1) ∷ [])) (ran add)) (ran add)

run_op-Shelved_example :
    Shelved 7 two_added.tables (run_op sample (move 7 (pos 2) true) two_added).tables
run_op-Shelved_example =
    run_op-Shelved sample 7 (move 7 (pos 2) true) two_added-Reachable (λ v own. some-inj own)
