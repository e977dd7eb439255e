-- ===== src/Store/Reach/Shown.antt =====
-- The links of a user, but for the count of their clicks, through the calls of everybody else.
use link_nest.Base.{
  ℕ, ℤ, ◌≡◌, ◌≢◌, refl, ap, ◌∙◌, inl, inr, Bool, some, List, [], ◌∷◌, ◌++◌, map, arith, Bool-cases,
  ==_iff,
}
use link_nest.Text.{Text}
use link_nest.Platform.{Platform}
use link_nest.Models.{ClickEvent}
use link_nest.Store.World.{LinkRow, World}
use link_nest.Store.Links.{insert_link, new_link, edited}
use link_nest.Store.Links.Isolation.{of_user, of_user-placed, of_user-remove_if}
use link_nest.Store.Clicks.{seen, insert_click, bumped}
use link_nest.Store.Reach.{Op, run_op}
use link_nest.Store.Reach.Steady.{Rule}
use link_nest.Store.Reach.Rules.{LinkRule, ClickRule, AccountRule-apart}
use link_nest.Store.Reach.Sound.{owner_of, run_op-Steady}

-- A link with its count left out.
abbrev pub uncounted : LinkRow → LinkRow
uncounted r = record r { link = record (r.link) { click_count = 0 } }

-- What the links of a user say: all columns of all links, but for the counts.
abbrev pub shown : ℕ → List LinkRow → List LinkRow
shown v rows = map uncounted (of_user v rows)

abbrev pub Shows : ℕ → List LinkRow → World → Type 0
Shows v rows w = shown v w.tables.links ≡ rows

module _ (v : ℕ) (rows : List LinkRow) where
  instance pub Shows-Rule : Rule (Shows v rows)
  Shows-Rule = record { frame = λ same h. ap (shown v) (same.links) ∙ h; back = λ le h. h }

shown-bumped : (v l : ℕ) (rs : List LinkRow) → shown v (map (bumped l) rs) ≡ shown v rs
unfolding bumped
shown-bumped v l [] = refl
shown-bumped v l (r ∷ rs) = ground (arith, shown-bumped v l rs)

log-Shows :
    (v : ℕ) (rows : List LinkRow) (p : Platform) (e : ClickEvent) (w : World)
    → Shows v rows w
    → Shows v rows (insert_click p e w).1
unfolding insert_click
log-Shows v rows p e w h = elim (Bool-cases (seen p e.idempotency_key w.tables.click_events)) [
  | inl k ↦ rw k h
  | inr k ↦ rw k h
]

pub Shows-ClickRule : (v : ℕ) (rows : List LinkRow) → ClickRule (Shows v rows)
Shows-ClickRule v rows = record {
  log = log-Shows v rows;
  bump = λ l w h. shown-bumped v l w.tables.links ∙ h;
  clean = λ days w h. h;
}

module _ (u v : ℕ) (ne : v ≢ u) where
  of_user-append :
      (rs : List LinkRow) (r : LinkRow)
      → r.link.user_id ≡ u
      → of_user v (rs ++ r ∷ []) ≡ of_user v rs
  of_user-append [] r e = ground (arith, ==_iff r.link.user_id v)
  of_user-append (q ∷ rs) r e = ground (arith, of_user-append rs r e)

  of_user-edited :
      (id : ℤ) (title url : Text) (public : Bool) (now : ℕ) (rs : List LinkRow)
      → of_user v (map (edited u id title url public now) rs) ≡ of_user v rs
  unfolding edited
  of_user-edited id title url public now [] = refl
  of_user-edited id title url public now (r ∷ rs) =
      ground (arith, of_user-edited id title url public now rs)

  pub Shows-LinkRule : (rows : List LinkRow) → LinkRule (Shows v rows) u
  unfolding insert_link new_link
  Shows-LinkRule rows = record {
    insert = λ title url position public w h.
        ap (map uncounted) (
          of_user-append w.tables.links (new_link w.serials.link u title url position public w.now)
            refl)
        ∙ h;
    edit = λ id title url public w h.
        ap (map uncounted) (of_user-edited id title url public w.now w.tables.links) ∙ h;
    place = λ id i w h. ap (map uncounted) (of_user-placed u v ne id i w.tables.links) ∙ h;
    remove = λ id w h. ap (map uncounted) (of_user-remove_if u v ne id w.tables.links) ∙ h;
  }

-- A call that is not one of the user `v` on links leaves what the links of `v` say.
pub run_op-shown :
    (p : Platform) (v : ℕ) (o : Op) (w : World)
    → ((u : ℕ) → owner_of o ≡ some u → v ≢ u)
    → shown v (run_op p o w).tables.links ≡ shown v w.tables.links
run_op-shown p v o w other =
    let rows = shown v w.tables.links in
    (run_op-Steady p ⦃rule = Shows-Rule v rows⦄
      (AccountRule-apart p (Shows v rows) (λ n users w h. h)) (Shows-ClickRule v rows) o
      (λ u own. Shows-LinkRule u v (other u own) rows) w refl).1
