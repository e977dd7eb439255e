-- ===== src/Store/Reach/Rules.antt =====
-- What an invariant needs of the statements that change the accounts, the links and the click log.
use link_nest.Base.{ℕ, ℤ, Bool, List, map, not, ◌==◌, if◌then◌else◌, inl, inr, Option-cases}
use link_nest.Text.{Text}
use link_nest.Platform.{Platform}
use link_nest.Models.{ClickEvent}
use link_nest.Store.World.{UserRow, World}
use link_nest.Store.Users.{violation, insert_user}
use link_nest.Store.Links.{insert_link, edited, with_links, names_link, placed, remove_if}
use link_nest.Store.Clicks.{insert_click, bumped}
use link_nest.Store.Reads.{select}
use link_nest.Store.Rollup.{is_old}

-- The statements on the links of a user: INSERT, UPDATE of the texts, UPDATE of a position, DELETE.
pub record LinkRule (I : World → Type 0) (u : ℕ) : Type 0 where
  pub insert :
      (title url : Text) (position : ℕ) (public : Bool) (w : World)
      → I w
      → I (insert_link u title url position public w).1
  pub edit :
      (id : ℤ) (title url : Text) (public : Bool) (w : World)
      → I w
      → I (record w { tables = with_links (map (edited u id title url public w.now)) w })
  pub place :
      (id i : ℕ) (w : World) → I w → I (record w { tables = with_links (map (placed u id i)) w })
  pub remove :
      (id : ℤ) (w : World)
      → I w
      → I (record w { tables = with_links (remove_if (names_link u id)) w })

-- The statements on the click log, and the count in a link.
pub record ClickRule (I : World → Type 0) : Type 0 where
  pub log : (p : Platform) (e : ClickEvent) (w : World) → I w → I (insert_click p e w).1
  pub bump : (l : ℕ) (w : World) → I w → I (record w { tables = with_links (map (bumped l)) w })
  pub clean :
      (days : ℕ) (w : World)
      → I w
      → I (record w {
        tables = record (w.tables) {
          click_events = select (λ e. not (is_old days w.now e)) w.tables.click_events;
        };
      })

-- The new names of a profile, row by row.
abbrev pub renamed : ℕ → Text → Text → Text → UserRow → UserRow
renamed u first last bio r =
    if r.user.id == u
    then record r { user = record (r.user) { first_name = first; last_name = last; bio = bio } }
    else r

-- The statements on accounts.
pub record AccountRule (p : Platform) (I : World → Type 0) : Type 0 where
  pub enrol : (r : UserRow) (w : World) → I w → I (insert_user p r w).1
  pub rename :
      (u : ℕ) (first last bio : Text) (w : World)
      → I w
      → I (record w {
        tables = record (w.tables) { users = map (renamed u first last bio) w.tables.users };
      })

-- A property that does not speak of accounts.
pub AccountRule-apart :
    (p : Platform) (I : World → Type 0)
    → ((n : ℕ) (users : List UserRow) (w : World)
        → I w
        → I (record w {
          serials = record (w.serials) { user = n };
          tables = record (w.tables) { users = users };
        }))
    → AccountRule p I
unfolding insert_user
AccountRule-apart p I keep = record {
  enrol = λ r w h. elim (Option-cases (violation p r w.tables.users)) [
    | inl k ↦ rw (k, insert_user) (keep _ _ w h)
    | inr (e, k) ↦ rw (k, insert_user) (keep _ _ w h)
  ];
  rename = λ u first last bio w h. keep w.serials.user _ w h;
}
