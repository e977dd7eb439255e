-- ===== src/Store/Reach/Keys.antt =====
-- The order of a user's links through the calls that do not arrange links.
use link_nest.Base.{
  ℕ, ℤ, ◌≡◌, refl, ap, sym, ◌∙◌, inl, inr, Bool, none, none-ne-some, List, [], ◌∷◌, map, arith,
  Bool-cases,
}
use link_nest.Text.{Text}
use link_nest.Platform.{Platform}
use link_nest.Models.{ClickEvent}
use link_nest.Store.World.{LinkRow, World}
use link_nest.Store.Links.{Key, keys, sort_keys, ordered_ids, edited, update_link}
use link_nest.Store.Clicks.{seen, insert_click, bumped}
use link_nest.Store.Reach.{Op, run_op}
use link_nest.Store.Reach.Steady.{Rule}
use link_nest.Store.Reach.Rules.{ClickRule, AccountRule-apart}
use link_nest.Store.Reach.LinkCalls.{Steady-update_link}
use link_nest.Store.Reach.Sound.{owner_of, run_op-Steady}

-- The keys of a user's links through the calls that do not arrange links.
abbrev HasKeys : ℕ → List Key → World → Type 0
HasKeys v ks w = keys v w.tables.links ≡ ks

module _ (v : ℕ) (ks : List Key) where
  instance HasKeys-Rule : Rule (HasKeys v ks)
  HasKeys-Rule = record { frame = λ same h. ap (keys v) (same.links) ∙ h; back = λ le h. h }

keys-map :
    (v : ℕ) (f : LinkRow → LinkRow)
    → ((r : LinkRow)
        → ((f r).link.user_id ≡ r.link.user_id)
          × ((f r).link.position ≡ r.link.position)
          × ((f r).link.id ≡ r.link.id))
    → (rows : List LinkRow) → keys v (map f rows) ≡ keys v rows
unfolding keys
keys-map v f alike [] = refl
keys-map v f alike (r ∷ rows) =
    let (user, position, id) = alike r in rw (user, position, id, keys-map v f alike rows) refl

bumped-same :
    (l : ℕ) (r : LinkRow)
    → ((bumped l r).link.user_id ≡ r.link.user_id)
      × ((bumped l r).link.position ≡ r.link.position)
      × ((bumped l r).link.id ≡ r.link.id)
unfolding bumped
bumped-same l r = ground arith

edited-same :
    (u : ℕ) (id : ℤ) (title url : Text) (public : Bool) (now : ℕ) (r : LinkRow)
    → ((edited u id title url public now r).link.user_id ≡ r.link.user_id)
      × ((edited u id title url public now r).link.position ≡ r.link.position)
      × ((edited u id title url public now r).link.id ≡ r.link.id)
unfolding edited
edited-same u id title url public now r = ground arith

log-HasKeys :
    (v : ℕ) (ks : List Key) (p : Platform) (e : ClickEvent) (w : World)
    → HasKeys v ks w
    → HasKeys v ks (insert_click p e w).1
unfolding insert_click
log-HasKeys v ks p e w h = elim (Bool-cases (seen p e.idempotency_key w.tables.click_events)) [
  | inl k ↦ rw k h
  | inr k ↦ rw k h
]

HasKeys-ClickRule : (v : ℕ) (ks : List Key) → ClickRule (HasKeys v ks)
HasKeys-ClickRule v ks = record {
  log = log-HasKeys v ks;
  bump = λ l w h. keys-map v (bumped l) (bumped-same l) w.tables.links ∙ h;
  clean = λ days w h. h;
}

pub run_op-keys :
    (p : Platform) (v : ℕ) (o : Op) (w : World)
    → owner_of o ≡ none
    → keys v (run_op p o w).tables.links ≡ keys v w.tables.links
run_op-keys p v o w ownerless =
    let ks = keys v w.tables.links in
    (run_op-Steady p ⦃rule = HasKeys-Rule v ks⦄
      (AccountRule-apart p (HasKeys v ks) (λ n users w h. h)) (HasKeys-ClickRule v ks) o
      (λ u own. absurd (none-ne-some _ (sym ownerless ∙ own))) w refl).1

pub update_link-keys :
    (p : Platform) (u v : ℕ) (id : ℤ) (title url : Text) (public : Bool) (w : World)
    → keys v (update_link p u id title url public w).1.tables.links ≡ keys v w.tables.links
update_link-keys p u v id title url public w =
    let ks = keys v w.tables.links in
    ((Steady-update_link ⦃rule = HasKeys-Rule v ks⦄ p u
        (λ id title url public w h.
          keys-map v (edited u id title url public w.now) (edited-same u id title url public w.now)
            w.tables.links
          ∙ h)
        id title url public).steady
      w refl).1

pub run_op-ordered_ids :
    (p : Platform) (v : ℕ) (o : Op) (w : World)
    → owner_of o ≡ none
    → ordered_ids v (run_op p o w).tables.links ≡ ordered_ids v w.tables.links
unfolding ordered_ids
run_op-ordered_ids p v o w own =
    ap (λ ks. map (λ (k : Key). k.1) (sort_keys ks)) (run_op-keys p v o w own)
