-- ===== src/Store/Links/Create.antt =====
-- What creating a link does.

use mathlib.Core.List.{Permᴰ, map-append}
use mathlib.Core.List.Permᴰ
use link_nest.Base.{
  ℕ, ◌<◌, ◌≡◌, refl, ap, ◌∙◌, inl, inr, Bool, true, false, none, some, List, [], ◌∷◌, ◌++◌, map,
  arith, ==_refl, All, All-mp, Bool-cases, Option-cases,
}
use link_nest.Text.{Text}
use link_nest.Text.Utf8.{trim_space}
use link_nest.Platform.{Platform}
use link_nest.Models.{UserError, user, Result, ok, err}
use link_nest.Store.World.{LinkRow, Tables, World, check}
use link_nest.Store.World.Atomic.{Unchanged, in_tx-Unchanged}
use link_nest.Store.World.Robust.{Faulted, Transacts-of_Robust}
use link_nest.Store.Validate.{validate_link}
use link_nest.Store.Links.{
  Key, le_key, owned, keys, insert_key, sort_keys, ordered_ids, next_position, new_link,
  create_link, with_links,
}
use link_nest.Store.Links.Order.{sort_keys-perm, sort_keys_of_perm, All-perm}
use link_nest.Store.Links.Runs.{created, create_link-invalid, create_link-quiet}
use link_nest.Store.Links.Robust.{Robust-create_link}

-- Every link of the user stands below the position of the new one.
keys-lt-next_position :
    (u : ℕ) (rows : List LinkRow) → All (λ (k : Key). k.0 < next_position u rows) (keys u rows)
unfolding keys next_position
keys-lt-next_position u [] = tt
keys-lt-next_position u (r ∷ rows) = elim (Bool-cases (owned u r)) [
  | inl e ↦
      rw (e, keys, next_position)
        (omega arith, All-mp _ _ (keys u rows) (λ k h. omega arith) (keys-lt-next_position u rows))
  | inr e ↦ rw (e, keys, next_position) (keys-lt-next_position u rows)
]

insert_key_greatest :
    (k : Key) (l : List Key) → All (λ j. le_key k j ≡ false) l → insert_key k l ≡ l ++ k ∷ []
unfolding insert_key
insert_key_greatest k [] h = refl
insert_key_greatest k (j ∷ l) (p, h) = rw p (ap (λ m. j ∷ m) (insert_key_greatest k l h))

keys-append :
    (u : ℕ) (rows : List LinkRow) (r : LinkRow)
    → owned u r ≡ true
    → keys u (rows ++ r ∷ []) ≡ keys u rows ++ (r.link.position, r.link.id) ∷ []
unfolding keys
keys-append u [] r e = rw e
keys-append u (q ∷ rows) r e = ground (arith, keys-append u rows r e)

above-le_key : (p i : ℕ) (k : Key) → k.0 < p → le_key (p, i) k ≡ false
above-le_key p i (q, j) h = ground arith

-- A new row at the next position comes last.
ordered_ids-append :
    (u : ℕ) (rows : List LinkRow) (r : LinkRow)
    → owned u r ≡ true
    → r.link.position ≡ next_position u rows
    → ordered_ids u (rows ++ r ∷ []) ≡ ordered_ids u rows ++ r.link.id ∷ []
unfolding ordered_ids
ordered_ids-append u rows r mine last =
    let k : Key = (r.link.position, r.link.id) in
    let sorted : sort_keys (keys u (rows ++ r ∷ [])) ≡ sort_keys (keys u rows) ++ k ∷ [] =
      ap sort_keys (keys-append u rows r mine)
      ∙ sort_keys_of_perm (
          Permᴰ.trans (Permᴰ.middle k (keys u rows) [])
            (Permᴰ.cons refl (Permᴰ.append-nil (keys u rows))))
      ∙ unfold sort_keys in
        insert_key_greatest k (sort_keys (keys u rows)) (
          All-perm _ (sort_keys-perm (keys u rows)) (
            All-mp _ _ (keys u rows) (λ j h. above-le_key r.link.position r.link.id j (rw last h))
              (keys-lt-next_position u rows))) in
    ap (map (λ (j : Key). j.1)) sorted ∙ map-append _ (sort_keys (keys u rows)) (k ∷ [])

created-last :
    (p : Platform) (u : ℕ) (title url : Text) (public : Bool) (w : World)
    → ordered_ids u (w.tables.links ++ created p u title url public w ∷ [])
      ≡ ordered_ids u w.tables.links ++ w.serials.link ∷ []
unfolding new_link
created-last p u title url public w =
    ordered_ids-append u w.tables.links (created p u title url public w) (==_refl u) refl

-- How `CreateLink` can end.
pub data Creation (p : Platform) (u : ℕ) (title url : Text) (public : Bool) (w : World)
    (x : Result (Unit {0}) × World) : Type 0 where
  -- a driver error that was bound to come, and no change
  failed : Faulted w x → x.1.tables ≡ w.tables → Creation p u title url public w x
  -- the trimmed title and URL do not pass `validateLink`
  refused :
      (e : UserError)
      → validate_link p (trim_space title) (trim_space url) ≡ some e
      → x.0 ≡ err (user e)
      → x.1.tables ≡ w.tables
      → Creation p u title url public w x
  -- one row more, which comes last in the order of the user's links
  done :
      validate_link p (trim_space title) (trim_space url) ≡ none
      → x.0 ≡ ok tt
      → x.1.tables ≡ with_links (λ l. l ++ created p u title url public w ∷ []) w
      → ordered_ids u x.1.tables.links ≡ ordered_ids u w.tables.links ++ w.serials.link ∷ []
      → Creation p u title url public w x

create_link-Unchanged :
    (p : Platform) (u : ℕ) (title url : Text) (public : Bool) (w : World)
    → validate_link p (trim_space title) (trim_space url) ≡ none
    → Unchanged w (create_link p u title url public w)
unfolding create_link
create_link-Unchanged p u title url public w e = rw (e, check) (in_tx-Unchanged _ w)

-- Whichever calls of the driver fail, creating ends in one of three ways: with an error that the
-- driver was bound to report, and no change; with the error of `validateLink` on the trimmed title
-- and URL, and no change; or with success, and then one row with the next id is appended, which comes
-- last in the order of the user's links.
pub create_link-Creation :
    (p : Platform) (u : ℕ) (title url : Text) (public : Bool) (w : World)
    → Creation p u title url public w (create_link p u title url public w)
create_link-Creation p u title url public w =
    elim (Option-cases (validate_link p (trim_space title) (trim_space url))) [
      | inl valid ↦
          let run = create_link-quiet p u title url public w valid in
          elim (Transacts-of_Robust (create_link p u title url public) w
            (Robust-create_link p u title url public)
            (create_link-Unchanged p u title url public w valid) (run.0) (run.1)) [
              | inl (fault, same) ↦ failed fault same
              | inr (result, new) ↦ done valid result new (
                  ap (λ (t : Tables). ordered_ids u t.links) new
                  ∙ created-last p u title url public w)
            ]
      | inr (e, invalid) ↦
          let run = create_link-invalid p u title url public w invalid in
          refused e invalid (ap (λ x. x.0) run) (ap (λ x. x.1.tables) run)
    ]
