-- ===== src/Store/Links.antt =====
-- The links of store/store.go: creating, editing, deleting, moving and listing them.
use link_nest.Base.{
  ℕ, ℤ, pos, negsuc, is_nat, zero, suc, ◌+◌, Bool, true, false, not, ◌&&◌, ◌||◌, Option, none, some,
  List, [], ◌∷◌, ◌++◌, map, leb, ltb, ◌==◌, if◌then◌else◌, length, get_elem?, set, take,
}
pub mod Order
pub mod Placing
pub mod Keeping
pub mod Isolation
pub mod Ids
pub mod Runs
pub mod Delete
pub mod Step
pub mod Move
pub mod Create
pub mod Robust
use Prim.Native.Nat.{max}
use link_nest.Text.{Text, lit, equals}
use link_nest.Text.Utf8.{trim_space}
use link_nest.Platform.{Platform}
use link_nest.Models.{
  Link, UserError, err_link_not_found, err_link_at_edge, Error, user, driver, no_rows, Result, ok,
  err,
}
use link_nest.Store.World.{
  LinkRow, Tables, World, Db, pure, fail, ◌>>=◌, ◌>>◌, call, gets, modify, check, require, query,
  in_tx,
}
use link_nest.Store.Validate.{validate_link}

-- `user_id = ?`.
abbrev pub owned : ℕ → LinkRow → Bool
owned u r = r.link.user_id == u

-- `id = ? AND user_id = ?`; the id comes from a request.
abbrev pub names_link : ℕ → ℤ → LinkRow → Bool
names_link u id r = is_nat id r.link.id && owned u r

-- `COALESCE(MAX(position), -1) + 1` over the links of a user.
unfoldable pub next_position : ℕ → List LinkRow → ℕ
next_position u [] = 0
next_position u (r ∷ rs) =
    let rest = next_position u rs in if owned u r then max (r.link.position + 1) rest else rest

-- The row that INSERT adds; the columns that it does not give have the schema's defaults.
unfoldable pub new_link : ℕ → ℕ → Text → Text → ℕ → Bool → ℕ → LinkRow
new_link id u title url position public now = record {
  link = record {
    id = id;
    user_id = u;
    title = title;
    url = url;
    position = position;
    public = public;
    icon_color = lit "#3b82f6";
    click_count = 0;
  };
  updated_at = now;
}

unfoldable pub insert_link : ℕ → Text → Text → ℕ → Bool → Db (Unit {0})
unfolding new_link
insert_link u title url position public w =
    let id = w.serials.link in
    let row = new_link id u title url position public w.now in
    (
      ok tt,
      record w {
        tables = record (w.tables) { links = w.tables.links ++ row ∷ [] };
        serials = record (w.serials) { link = id + 1 };
      },
    )

unfoldable pub create_link : Platform → ℕ → Text → Text → Bool → Db (Unit {0})
unfolding insert_link next_position
create_link p u title url public = do
  let title' = trim_space title
  let url' = trim_space url
  check (validate_link p title' url')
  in_tx (do
    call
    position ← gets (λ w. next_position u w.tables.links)
    call
    insert_link u title' url' position public
    call)

-- UPDATE, row by row.
unfoldable pub edited : ℕ → ℤ → Text → Text → Bool → ℕ → LinkRow → LinkRow
edited u id title url public now r =
    if names_link u id r
    then record r {
      link = record (r.link) { title = title; url = url; public = public };
      updated_at = now;
    }
    else r

abbrev same_bool : Bool → Bool → Bool
same_bool true b = b
same_bool false b = not b

-- Whether UPDATE gives a row new values. MySQL's driver reports the rows that changed, since the DSN
-- of db/db.go does not ask for the rows that matched.
unfoldable pub changes : ℕ → ℤ → Text → Text → Bool → ℕ → LinkRow → Bool
changes u id title url public now r =
    names_link u id r
    && not (
        equals r.link.title title
        && equals r.link.url url
        && same_bool r.link.public public
        && r.updated_at == now)

unfoldable pub count_if : (LinkRow → Bool) → List LinkRow → ℕ
count_if f [] = 0
count_if f (r ∷ rs) = if f r then suc (count_if f rs) else count_if f rs

-- `requireRow`, on the number of rows that the driver reports.
unfoldable pub require_row : ℕ → Db (Unit {0})
require_row affected = do call; require (not (affected == 0)) (user err_link_not_found)

abbrev pub with_links : (List LinkRow → List LinkRow) → World → Tables
with_links f w = record (w.tables) { links = f w.tables.links }

unfoldable pub update_link : Platform → ℕ → ℤ → Text → Text → Bool → Db (Unit {0})
unfolding edited changes count_if require_row
update_link p u id title url public = do
  let title' = trim_space title
  let url' = trim_space url
  check (validate_link p title' url')
  call
  affected ← gets (λ w. count_if (changes u id title' url' public w.now) w.tables.links)
  modify (λ w. with_links (map (edited u id title' url' public w.now)) w)
  require_row affected

-- `ORDER BY position, id` on (position, id): the links of a user, sorted by insertion.
abbrev pub Key : Type 0
Key = ℕ × ℕ

abbrev pub le_key : Key → Key → Bool
le_key (p, i) (q, j) = ltb p q || (p == q && leb i j)

unfoldable pub insert_key : Key → List Key → List Key
insert_key k [] = k ∷ []
insert_key k (j ∷ js) = if le_key k j then k ∷ j ∷ js else j ∷ insert_key k js

unfoldable pub sort_keys : List Key → List Key
unfolding insert_key
sort_keys [] = []
sort_keys (k ∷ ks) = insert_key k (sort_keys ks)

unfoldable pub keys : ℕ → List LinkRow → List Key
keys u [] = []
keys u (r ∷ rs) = if owned u r then (r.link.position, r.link.id) ∷ keys u rs else keys u rs

-- The rows that the query of `orderedLinkIDs` returns.
unfoldable pub ordered_ids : ℕ → List LinkRow → List ℕ
unfolding sort_keys keys
ordered_ids u rows = map (λ k. k.1) (sort_keys (keys u rows))

unfoldable pub ordered_link_ids : ℕ → Db (List ℕ)
unfolding ordered_ids
ordered_link_ids u = query (λ w. ordered_ids u w.tables.links)

-- `UPDATE links SET position = ? WHERE id = ? AND user_id = ?`.
unfoldable pub placed : ℕ → ℕ → ℕ → LinkRow → LinkRow
placed u id i r =
    if r.link.id == id && owned u r then record r { link = record (r.link) { position = i } } else r

-- The loop from the index `i` on.
unfoldable pub write_positions_from : ℕ → ℕ → List ℕ → Db (Unit {0})
unfolding placed
write_positions_from u i [] = pure tt
write_positions_from u i (id ∷ ids) = do
  call
  modify (λ w. with_links (map (placed u id i)) w)
  write_positions_from u (suc i) ids

unfoldable pub write_positions : ℕ → List ℕ → Db (Unit {0})
unfolding write_positions_from
write_positions u ids = write_positions_from u 0 ids

unfoldable pub renumber : ℕ → Db (Unit {0})
unfolding ordered_link_ids write_positions
renumber u = do ids ← ordered_link_ids u; write_positions u ids

unfoldable pub remove_if : (LinkRow → Bool) → List LinkRow → List LinkRow
remove_if f [] = []
remove_if f (r ∷ rs) = if f r then remove_if f rs else r ∷ remove_if f rs

unfoldable pub delete_link : ℕ → ℤ → Db (Unit {0})
unfolding count_if remove_if require_row renumber
delete_link u id = in_tx (do
  call
  affected ← gets (λ w. count_if (names_link u id) w.tables.links)
  modify (λ w. with_links (remove_if (names_link u id)) w)
  require_row affected
  renumber u
  call)

-- The loop over `ids`: the first index that holds the id; `none` stands for -1.
unfoldable pub index_of : ℤ → List ℕ → Option ℕ
index_of id [] = none
index_of id (x ∷ xs) =
    if is_nat id x then some 0 else elim (index_of id xs) [ none ↦ none | some i ↦ some (suc i) ]

-- `to := at + 1; if up { to = at - 1 }`; `none` is -1.
unfoldable pub target : Bool → ℕ → Option ℕ
target true zero = none
target true (suc i) = some i
target false i = some (i + 1)

-- `ids[at], ids[to] = ids[to], ids[at]`, for indices in range.
unfoldable pub swapped : ℕ → ℕ → List ℕ → List ℕ
swapped i j ids = elim (get_elem? ids i) [
  | none ↦ ids
  | some a ↦ elim (get_elem? ids j) [ none ↦ ids | some b ↦ set (set ids i b) j a ]
]

-- The new order, or the error of `MoveLink`.
unfoldable pub moved : ℤ → Bool → List ℕ → Result (List ℕ)
unfolding index_of target swapped
moved id up ids = elim (index_of id ids) [
  | none ↦ err (user err_link_not_found)
  | some at ↦ elim (target up at) [
    | none ↦ err (user err_link_at_edge)
    | some to ↦ if leb (length ids) to then err (user err_link_at_edge) else ok (swapped at to ids)
  ]
]

abbrev pub lift : {A : Type 0} → Result A → Db A
lift r w = (r, w)

unfoldable pub move_link : ℕ → ℤ → Bool → Db (Unit {0})
unfolding ordered_link_ids write_positions moved
move_link u id up =
    in_tx (do ids ← ordered_link_ids u; ids' ← lift (moved id up ids); write_positions u ids'; call)
