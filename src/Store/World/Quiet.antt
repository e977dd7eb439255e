-- ===== src/Store/World/Quiet.antt =====
-- Runs on a database that never fails, put together from the runs of their parts.
use link_nest.Base.{◌≡◌, refl, ap, List, [], ◌∷◌}
use link_nest.Models.{Error, ok, err}
use link_nest.Store.World.{World, Db, pure, call, query, scan_rows, rollback, in_tx}
use link_nest.Store.World.Atomic.{bind-ok}
use link_nest.Store.World.Robust.{quiet}

pub call-quiet : (w : World) → call (quiet w) ≡ (ok tt, quiet w)
unfolding call
call-quiet w = refl

scan_rows-quiet :
    {A : Type 0} (rows : List A) (w : World) → scan_rows rows (quiet w) ≡ (ok rows, quiet w)
unfolding scan_rows call
scan_rows-quiet [] w = refl
scan_rows-quiet (a ∷ rows) w =
    bind-ok (scan_rows rows) (λ rest. pure (a ∷ rest)) (quiet w) (scan_rows-quiet rows w)

pub query-quiet :
    {A : Type 0} (f : World → List A) (w : World) → query f (quiet w) ≡ (ok (f (quiet w)), quiet w)
unfolding query call
query-quiet f w = scan_rows-quiet (f (quiet w)) w

module _ {A : Type 0} (body : Db A) (w w' : World) where
  pub in_tx-quiet_ok :
      {a : A} → body (quiet w) ≡ (ok a, quiet w') → in_tx body (quiet w) ≡ (ok a, quiet w')
  unfolding in_tx rollback call
  in_tx-quiet_ok e = ap (rollback w.tables) e

  pub in_tx-quiet_err :
      {e : Error}
      → body (quiet w) ≡ (err e, quiet w')
      → in_tx body (quiet w) ≡ (err e, quiet (record w' { tables = w.tables }))
  unfolding in_tx rollback call
  in_tx-quiet_err h = ap (rollback w.tables) h
