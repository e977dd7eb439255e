-- ===== src/Http/Routes/Apart.antt =====
-- Requests without a session of a user leave the links of that user alone.
use link_nest.Base.{ℕ, ◌≡◌, ◌≢◌, some, none-ne-some, some-inj, List}
use mathlib.Core.Path.{subst}
use link_nest.Text.{Text}
use link_nest.Models.{User, Result}
use link_nest.Metrics.{Registry}
use link_nest.Store.World.{World}
use link_nest.Store.Reach.{Op}
use link_nest.Store.Reach.Sound.{owner_of}
use link_nest.Store.Reach.Shown.{shown}
use link_nest.Store.Reach.Runs.{Runs-shown}
use link_nest.Http.{Request}
use link_nest.Http.Pages.{Server}
use link_nest.Http.Pages.Signed.{SignedIn}
use link_nest.Http.Routes.{Route, Library, serve}
use link_nest.Http.Routes.Permitted.{
  Permitted, creates, updates, deletes, moves, saves, counts, registers, starts, enters, leaves,
}
use link_nest.Http.Routes.Serving.{serve-Permitted}

-- The request has no session of the user `v`.
abbrev pub WithoutSession : Server → Request → World → ℕ → Type 0
WithoutSession s r w v = (u : User) → SignedIn s r w u → v ≢ u.id

module _ (s : Server) (r : Request) (now : ℕ) (random : Result Text) (w : World) (v : ℕ)
    (without : WithoutSession s r w v) where
  Permitted-owner :
      (route : Route) (calls : List Op) (o : Op)
      → Permitted s r now random w route calls o
      → (u : ℕ) → owner_of o ≡ some u
      → v ≢ u
  Permitted-owner _ _ _ (creates u h e) n own = subst (λ i. v ≢ i) (some-inj own) (without u h)
  Permitted-owner _ _ _ (updates u path id h e f) n own =
      subst (λ i. v ≢ i) (some-inj own) (without u h)
  Permitted-owner _ _ _ (deletes u path id h e) n own =
      subst (λ i. v ≢ i) (some-inj own) (without u h)
  Permitted-owner _ _ _ (moves u path id h e) n own =
      subst (λ i. v ≢ i) (some-inj own) (without u h)
  Permitted-owner _ _ _ (saves u h e) n own = absurd (none-ne-some _ own)
  Permitted-owner _ _ _ (counts path id link e f) n own = absurd (none-ne-some _ own)
  Permitted-owner _ _ _ (registers e) n own = absurd (none-ne-some _ own)
  Permitted-owner _ _ _ (starts u x e) n own = absurd (none-ne-some _ own)
  Permitted-owner _ _ _ (enters u x e) n own = absurd (none-ne-some _ own)
  Permitted-owner _ _ _ (leaves id e) n own = absurd (none-ne-some _ own)

-- A request that carries no signed session of the user `v`, whatever it asks for and whichever calls of
-- the driver fail, leaves all links of `v` as they were, in the same order, but for the counts of
-- their clicks.
pub serve-shown :
    (s : Server) (l : Library) (r : Request) (now : ℕ) (random : Result Text) (duration : ℕ)
    (m : Registry) (w : World) (v : ℕ)
    → WithoutSession s r w v
    → shown v (serve s l r now random duration m w).2.tables.links ≡ shown v w.tables.links
serve-shown s l r now random duration m w v without =
    Runs-shown v (Permitted-owner s r now random w v without (l.route r))
      (serve-Permitted s l r now random duration m w).runs
