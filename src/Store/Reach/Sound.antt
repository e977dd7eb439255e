-- ===== src/Store/Reach/Sound.antt =====
-- An invariant of the links and the click log holds after every call of store/store.go, and in every
-- state that can be reached the links have ids of their own, positive and given out before.

use link_nest.Base.{ℕ, ◌≡◌, refl, arith, Option, none, some}
use link_nest.Platform.{Platform}
use link_nest.Store.World.{World}
use link_nest.Store.Reach.{
  Op, create, update, delete, move, click, sign_up, edit_profile, open_session, end_session,
  hourly_run, daily_run, clean_up, run_op, ran, passed, Reachable, begun, next,
}
use link_nest.Store.Reach.Steady.{Rule, Grown}
use link_nest.Store.Reach.Rules.{LinkRule, ClickRule, AccountRule, AccountRule-apart}
use link_nest.Store.Reach.Numbered.{
  IsNumbered, IsNumbered-Rule, IsNumbered-LinkRule, IsNumbered-ClickRule,
}
use link_nest.Store.Reach.LinkCalls.{
  Steady-create_link, Steady-update_link, Steady-delete_link, Steady-move_link,
}
use link_nest.Store.Reach.OtherCalls.{
  Steady-ingest_click, Steady-create_user, Steady-update_profile, Steady-create_session,
  Steady-delete_session,
}
use link_nest.Store.Reach.StatCalls.{
  Steady-aggregate_hour, Steady-aggregate_day, Steady-cleanup_old_clicks,
}

-- Whose links the call changes, but for the count of clicks.
abbrev pub owner_of : Op → Option ℕ
owner_of (create u title url public) = some u
owner_of (update u id title url public) = some u
owner_of (delete u id) = some u
owner_of (move u id up) = some u
owner_of (click e) = none
owner_of (sign_up generate email password username first last) = none
owner_of (edit_profile u first last bio) = none
owner_of (open_session random now u ip ua) = none
owner_of (end_session id) = none
owner_of (hourly_run hour) = none
owner_of (daily_run date) = none
owner_of (clean_up days) = none

module _ (p : Platform) {I : World → Type 0} ⦃rule : Rule I⦄ (accounts : AccountRule p I)
    (clicks : ClickRule I) where
  pub run_op-Steady :
      (o : Op)
      → ((u : ℕ) → owner_of o ≡ some u → LinkRule I u)
      → (w : World) → I w
      → Grown w (run_op p o w) × I (run_op p o w)
  unfolding run_op
  run_op-Steady (create u title url public) links w h =
      (Steady-create_link (links u refl) p title url public).steady w h
  run_op-Steady (update u id title url public) links w h =
      (Steady-update_link p u ((links u refl).edit) id title url public).steady w h
  run_op-Steady (delete u id) links w h = (Steady-delete_link (links u refl) id).steady w h
  run_op-Steady (move u id up) links w h = (Steady-move_link (links u refl) id up).steady w h
  run_op-Steady (click e) links w h = (Steady-ingest_click clicks p e).steady w h
  run_op-Steady (sign_up generate email password username first last) links w h =
      (Steady-create_user p accounts generate email password username first last).steady w h
  run_op-Steady (edit_profile u first last bio) links w h =
      (Steady-update_profile p accounts u first last bio).steady w h
  run_op-Steady (open_session random now u ip ua) links w h =
      (Steady-create_session {I = I} p random now u ip ua).steady w h
  run_op-Steady (end_session id) links w h = (Steady-delete_session {I = I} p id).steady w h
  run_op-Steady (hourly_run hour) links w h = (Steady-aggregate_hour {I = I} p hour).steady w h
  run_op-Steady (daily_run date) links w h = (Steady-aggregate_day {I = I} p date).steady w h
  run_op-Steady (clean_up days) links w h = (Steady-cleanup_old_clicks p clicks days).steady w h

module _ (p : Platform) where
  run_op-IsNumbered : (o : Op) (w : World) → IsNumbered w → IsNumbered (run_op p o w)
  run_op-IsNumbered o w h =
      (run_op-Steady p (AccountRule-apart p IsNumbered (λ n users w h. h)) IsNumbered-ClickRule o
        (λ u _. IsNumbered-LinkRule u) w h).1

  -- In every state that calls of the store lead to from the empty database, in any order, whichever
  -- calls of the driver fail and however time passes: no two links have the same id, and each id is
  -- positive and below the next one to be given.
  pub Reachable-IsNumbered : {w : World} → Reachable p w → IsNumbered w
  Reachable-IsNumbered (begun now faults) = record {
    distinct = tt;
    given = tt;
    positive = omega arith;
  }
  Reachable-IsNumbered (next {w} r (ran o)) = run_op-IsNumbered o w (Reachable-IsNumbered r)
  Reachable-IsNumbered (next {w} r (passed now faults)) =
      let h = Reachable-IsNumbered r in
      record { distinct = h.distinct; given = h.given; positive = h.positive }
