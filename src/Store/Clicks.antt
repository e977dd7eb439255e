-- ===== src/Store/Clicks.antt =====
-- Recording clicks (store/store.go): one transaction that appends an event, unless its idempotency
-- key is known, and counts it on the link.
pub mod Once
pub mod Counting
pub mod Open
use link_nest.Base.{
  ℕ, ℤ, is_nat, suc, ◌+◌, Bool, true, false, ◌&&◌, ◌||◌, List, [], ◌∷◌, ◌++◌, map, ◌==◌,
  if◌then◌else◌,
}
use link_nest.Text.{Text}
use link_nest.Platform.{Platform}
use link_nest.Models.{Link, ClickEvent, Result, ok, err, driver, no_rows}
use link_nest.Store.World.{
  LinkRow, Tables, World, Db, pure, fail, ◌>>=◌, ◌>>◌, call, gets, modify, in_tx,
}
use link_nest.Store.Links.{with_links}

-- Whether the unique index on `idempotency_key` holds the key.
unfoldable pub seen : Platform → Text → List ClickEvent → Bool
seen p key [] = false
seen p key (e ∷ es) = p.same e.idempotency_key key || seen p key es

-- `INSERT … ON DUPLICATE KEY UPDATE id = id`, with the number of affected rows: one if a row is
-- added, none if a row is set to the values that it has. A value of the counter is used up anyway.
unfoldable pub insert_click : Platform → ClickEvent → Db ℕ
unfolding seen
insert_click p event w =
    let id = w.serials.event in
    let used = record w { serials = record (w.serials) { event = suc id } } in
    if seen p event.idempotency_key w.tables.click_events then (ok 0, used) else (
      ok 1,
      record used {
        tables = record (w.tables) {
          click_events = w.tables.click_events ++ record event { id = id } ∷ [];
        };
      },
    )

-- `UPDATE links SET click_count = click_count + 1 WHERE id = ?`.
unfoldable pub bumped : ℕ → LinkRow → LinkRow
bumped id r =
    if r.link.id == id
    then record r { link = record (r.link) { click_count = r.link.click_count + 1 } }
    else r

unfoldable pub count_click : ℕ → ℕ → Db (Unit {0})
unfolding bumped
count_click affected link_id =
    if affected == 1 then call >> modify (λ w. with_links (map (bumped link_id)) w) else pure tt

unfoldable pub ingest_click : Platform → ClickEvent → Db Bool
unfolding insert_click count_click
ingest_click p event = in_tx (do
  call
  inserted ← insert_click p event
  call
  count_click inserted event.link_id
  call
  pure (inserted == 1))

-- `LinkForTracking`: the first public link of that id.
unfoldable pub find_public : ℤ → List LinkRow → Result Link
find_public id [] = err (driver no_rows)
find_public id (r ∷ rs) =
    if is_nat id r.link.id && r.link.public then ok (r.link) else find_public id rs

unfoldable pub link_for_tracking : ℤ → Db Link
unfolding find_public
link_for_tracking id = call >>= λ _ w. (find_public id w.tables.links, w)
