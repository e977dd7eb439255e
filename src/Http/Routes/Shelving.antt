-- ===== src/Http/Routes/Shelving.antt =====
-- A request edits at most the list of the user who is signed in.
use link_nest.Base.{ℕ, ◌≡◌, refl, ap, sym, ◌∙◌, none, some, some-inj, List, []}
use mathlib.Core.Path.{subst}
use link_nest.Text.{Text}
use link_nest.Models.{User, Result}
use link_nest.Metrics.{Registry}
use link_nest.Store.World.{Tables, World}
use link_nest.Store.Links.{ordered_ids}
use link_nest.Store.Reach.{Op, run_op, Reachable}
use link_nest.Store.Reach.Sound.{owner_of}
use link_nest.Store.Reach.Keys.{run_op-ordered_ids}
use link_nest.Store.Reach.Shelf.{Edit, Shelved, run_op-Shelved}
use link_nest.Store.Reach.Runs.{Runs, done, called, looked, Runs-Reachable, Runs-still}
use link_nest.Http.{Request}
use link_nest.Http.Pages.{Server}
use link_nest.Http.Pages.Signed.{SignedIn}
use link_nest.Http.Routes.{Route, Library, serve}
use link_nest.Http.Routes.Permitted.{
  Permitted, creates, updates, deletes, moves, saves, counts, registers, starts, enters, leaves,
}
use link_nest.Http.Routes.Serving.{serve-Permitted}

-- The users' lists are left as they were, or one of them, that of a user who is signed in, was edited
-- once.
pub data Rearranged (s : Server) (r : Request) (w : World) (t' : Tables) : Type 0 where
  left : ((u : ℕ) → ordered_ids u t'.links ≡ ordered_ids u w.tables.links) → Rearranged s r w t'
  rearranged : (u : User) → SignedIn s r w u → Shelved u.id w.tables t' → Rearranged s r w t'

module _ (s : Server) (r : Request) (now : ℕ) (random : Result Text) (w : World)
    (reached : Reachable s.platform w) where
  abbrev Comes : Route → List Op → World → Type 0
  Comes route calls v = Runs s.platform (Permitted s r now random w route) w calls v

  abbrev Leads : World → Type 0
  Leads v = Rearranged s r w v.tables

  -- The first call is one for the links of a user who is signed in.
  first :
      (route : Route) (u : User) (o : Op) (v : World)
      → SignedIn s r w u
      → owner_of o ≡ some u.id
      → Comes route [] v
      → Leads (run_op s.platform o v)
  first route u o v h own runs =
      let before : v.tables ≡ w.tables = ap (λ (x : World). x.tables) (Runs-still runs) in
      rearranged u h (
        subst (λ t. Shelved u.id t (run_op s.platform o v).tables) before
          (run_op-Shelved s.platform u.id o (Runs-Reachable reached runs)
            (λ x own'. some-inj (sym own ∙ own'))))

  -- A call that is not for the links of a user.
  another : (o : Op) (v : World) → owner_of o ≡ none → Leads v → Leads (run_op s.platform o v)
  another o v own (left same) = left (λ u. run_op-ordered_ids s.platform u o v own ∙ same u)
  another o v own (rearranged u h shelved) =
      let same = λ (x : ℕ). run_op-ordered_ids s.platform x o v own in
      rearranged u h (record {
        edit = subst (Edit (ordered_ids u.id w.tables.links)) (sym (same u.id)) (shelved.edit);
        others = λ x ne. same x ∙ (shelved.others) x ne;
      })

  next_call :
      (route : Route) (calls : List Op) (o : Op) (v : World)
      → Permitted s r now random w route calls o
      → Comes route calls v
      → Leads v
      → Leads (run_op s.platform o v)
  next_call _ _ _ v (creates u h e) runs leads = first _ u _ v h refl runs
  next_call _ _ _ v (updates u path id h e n) runs leads = first _ u _ v h refl runs
  next_call _ _ _ v (deletes u path id h n) runs leads = first _ u _ v h refl runs
  next_call _ _ _ v (moves u path id h n) runs leads = first _ u _ v h refl runs
  next_call _ _ _ v (saves u h e) runs leads = another _ v refl leads
  next_call _ _ _ v (counts path id link n e) runs leads = another _ v refl leads
  next_call _ _ _ v (registers e) runs leads = another _ v refl leads
  next_call _ _ _ v (starts u x e) runs leads = another _ v refl leads
  next_call _ _ _ v (enters u x e) runs leads = another _ v refl leads
  next_call _ _ _ v (leaves id e) runs leads = another _ v refl leads

  Runs-Rearranged : {route : Route} {calls : List Op} {v : World} → Comes route calls v → Leads v
  Runs-Rearranged done = left (λ u. refl)
  Runs-Rearranged {route} (called {calls = before} {v = x} o a runs) =
      next_call route before o x a runs (Runs-Rearranged runs)
  Runs-Rearranged (looked {v = x} u e runs) =
      subst (Rearranged s r w) (ap (λ (y : World). y.tables) (sym e)) (Runs-Rearranged runs)

-- A request implements at most one edit of one list of ids: on a database that could be reached,
-- whatever the request and whichever calls of the driver fail, either the order of every user's links
-- is left as it was, or one user, who is signed in with the request, has one id appended, one removed,
-- or two neighbours exchanged, and all others' orders are left.
pub serve-Rearranged :
    (s : Server) (l : Library) (r : Request) (now : ℕ) (random : Result Text) (duration : ℕ)
    (m : Registry) (w : World)
    → Reachable s.platform w
    → Rearranged s r w (serve s l r now random duration m w).2.tables
serve-Rearranged s l r now random duration m w reached =
    Runs-Rearranged s r now random w reached (serve-Permitted s l r now random duration m w).runs
