-- ===== src/Store/Reach/Shelf.antt =====
-- What the calls of the store do, in terms of one list of ids per user.
use mathlib.Core.Path.{subst, sym}
use link_nest.Base.{
  ℕ, ℤ, pos, negsuc, is_nat, ◌≡◌, ◌≢◌, refl, ap, ◌∙◌, inl, inr, Bool, true, false, some, List, [],
  ◌∷◌, ◌++◌, map, arith, ==_iff, All, Distinct, Bool-cases,
}
use link_nest.Text.{Text}
use link_nest.Platform.{Platform}
use link_nest.Models.{Result}
use link_nest.Store.World.{LinkRow, Tables, World}
use link_nest.Store.Links.{
  Key, owned, keys, sort_keys, ordered_ids, create_link, update_link, delete_link, move_link,
  new_link,
}
use link_nest.Store.Links.Order.{map-enumerate}
use link_nest.Store.Links.Ids.{DistinctIds, ordered_ids-Distinct}
use link_nest.Store.Links.Isolation.{of_user, Renumbered}
use link_nest.Store.Links.Runs.{created}
use link_nest.Store.Links.Step.{Neighbours, exchanged}
use link_nest.Store.Links.Create
use link_nest.Store.Links.Create.{Creation, create_link-Creation}
use link_nest.Store.Links.Delete
use link_nest.Store.Links.Delete.{Deletion, erased, delete_link-Deletion}
use link_nest.Store.Links.Move
use link_nest.Store.Links.Move.{Movement, move_link-Movement}
use link_nest.Store.Reach.{
  Op, create, update, delete, move, click, sign_up, edit_profile, open_session, end_session,
  hourly_run, daily_run, clean_up, run_op, Reachable,
}
use link_nest.Store.Reach.Keys.{run_op-keys, update_link-keys}
use link_nest.Store.Reach.Sound.{owner_of, Reachable-IsNumbered}

-- A change of one list of ids.
pub data Edit : List ℕ → List ℕ → Type 0 where
  same : (xs : List ℕ) → Edit xs xs
  appended : (xs : List ℕ) (x : ℕ) → Edit xs (xs ++ x ∷ [])
  removed : (xs : List ℕ) (x : ℕ) (ys : List ℕ) → Edit (xs ++ x ∷ ys) (xs ++ ys)
  swapped_pair : (xs : List ℕ) (x y : ℕ) (ys : List ℕ) → Edit (xs ++ x ∷ y ∷ ys) (xs ++ y ∷ x ∷ ys)

Edit-cons : {xs ys : List ℕ} (z : ℕ) → Edit xs ys → Edit (z ∷ xs) (z ∷ ys)
Edit-cons z (same xs) = same (z ∷ xs)
Edit-cons z (appended xs x) = appended (z ∷ xs) x
Edit-cons z (removed xs x ys) = removed (z ∷ xs) x ys
Edit-cons z (swapped_pair xs x y ys) = swapped_pair (z ∷ xs) x y ys

is_nat-eq : (id : ℤ) (x y : ℕ) → is_nat id x ≡ true → is_nat id y ≡ true → x ≡ y
is_nat-eq (pos n) x y h k = ground (arith, ==_iff x n, ==_iff y n)
is_nat-eq (negsuc n) x y h k = cc

erased-absent :
    (id : ℤ) (x : ℕ) (xs : List ℕ) → is_nat id x ≡ true → All (λ y. x ≢ y) xs → erased id xs ≡ xs
erased-absent id x [] h a = refl
erased-absent id x (y ∷ xs) h (ne, a) = elim (Bool-cases (is_nat id y)) [
  | inl e ↦ absurd (ne (is_nat-eq id x y h e))
  | inr e ↦ rw e (ap (λ zs. y ∷ zs) (erased-absent id x xs h a))
]

Edit-erased : (id : ℤ) (xs : List ℕ) → Distinct xs → Edit xs (erased id xs)
Edit-erased id [] d = same []
Edit-erased id (x ∷ xs) (a, d) = elim (Bool-cases (is_nat id x)) [
  | inl e ↦ rw e (rw (erased-absent id x xs e a) (removed [] x xs))
  | inr e ↦ rw e (Edit-cons x (Edit-erased id xs d))
]

keys-of_user : (v : ℕ) (rows : List LinkRow) → keys v (of_user v rows) ≡ keys v rows
unfolding keys
keys-of_user v [] = refl
keys-of_user v (r ∷ rows) = elim (Bool-cases (owned v r)) [
  | inl e ↦ rw e (rw e (ap (λ ks. (r.link.position, r.link.id) ∷ ks) (keys-of_user v rows)))
  | inr e ↦ rw e (keys-of_user v rows)
]

ordered_ids-of_user :
    (v : ℕ) (xs ys : List LinkRow)
    → of_user v xs ≡ of_user v ys
    → ordered_ids v xs ≡ ordered_ids v ys
unfolding ordered_ids
ordered_ids-of_user v xs ys e =
    ap (λ ks. map (λ (k : Key). k.1) (sort_keys ks))
      (sym (keys-of_user v xs) ∙ ap (keys v) e ∙ keys-of_user v ys)

keys-append_other :
    (v : ℕ) (rows : List LinkRow) (r : LinkRow)
    → owned v r ≡ false
    → keys v (rows ++ r ∷ []) ≡ keys v rows
unfolding keys
keys-append_other v [] r e = rw e refl
keys-append_other v (q ∷ rows) r e = ground (arith, keys-append_other v rows r e)

-- The list of `u` was edited, and no other user's.
pub record Shelved (u : ℕ) (before after : Tables) : Type 0 where
  pub edit : Edit (ordered_ids u before.links) (ordered_ids u after.links)
  pub others : (v : ℕ) → v ≢ u → ordered_ids v after.links ≡ ordered_ids v before.links

Shelved-same : (u : ℕ) (before after : Tables) → after ≡ before → Shelved u before after
Shelved-same u before after e =
    subst (Shelved u before) (sym e)
      (record { edit = same (ordered_ids u before.links); others = λ v ne. refl })

Shelved-Renumbered :
    (u : ℕ) (ids : List ℕ) (links : List LinkRow) (before after : Tables)
    → Edit (ordered_ids u before.links) ids
    → Renumbered u ids links before after
    → Shelved u before after
unfolding ordered_ids
Shelved-Renumbered u ids links before after e r =
    let order : ordered_ids u after.links ≡ ids =
      ap (map (λ (k : Key). k.1)) (r.order) ∙ map-enumerate 0 ids in
    record {
      edit = subst (Edit (ordered_ids u before.links)) (sym order) e;
      others = λ v ne. ordered_ids-of_user v after.links before.links (r.others v ne);
    }

Shelved-Creation :
    (p : Platform) (u : ℕ) (title url : Text) (public : Bool) (w : World)
    (x : Result (Unit {0}) × World)
    → Creation p u title url public w x
    → Shelved u w.tables x.1.tables
Shelved-Creation p u title url public w x (Create.failed f e) = Shelved-same u w.tables x.1.tables e
Shelved-Creation p u title url public w x (Create.refused d v r e) =
    Shelved-same u w.tables x.1.tables e
Shelved-Creation p u title url public w x (Create.done v r new last) = record {
  edit =
      subst (Edit (ordered_ids u w.tables.links)) (sym last)
        (appended (ordered_ids u w.tables.links) w.serials.link);
  others = λ v ne.
      ap (λ (t : Tables). ordered_ids v t.links) new
      ∙ unfold ordered_ids in
        ap (λ ks. map (λ (k : Key). k.1) (sort_keys ks))
          (keys-append_other v w.tables.links (created p u title url public w)
            (unfold new_link in ground arith));
}

Shelved-Deletion :
    (u : ℕ) (id : ℤ) (w : World) (x : Result (Unit {0}) × World)
    → DistinctIds w.tables.links
    → Deletion u id w x
    → Shelved u w.tables x.1.tables
Shelved-Deletion u id w x d (Delete.failed f e) = Shelved-same u w.tables x.1.tables e
Shelved-Deletion u id w x d (Delete.missing n r e) = Shelved-same u w.tables x.1.tables e
Shelved-Deletion u id w x d (Delete.done o r new) =
    Shelved-Renumbered u (erased id (ordered_ids u w.tables.links)) _ w.tables x.1.tables
      (Edit-erased id (ordered_ids u w.tables.links) (ordered_ids-Distinct u w.tables.links d)) new

Edit-exchanged : {ids : List ℕ} (n : Neighbours ids) → Edit ids (exchanged n)
Edit-exchanged n =
    subst (λ ids. Edit ids (exchanged n)) (sym (n.whole))
      (swapped_pair (n.before) (n.first) (n.second) (n.behind))

Shelved-Movement :
    (u : ℕ) (id : ℤ) (up : Bool) (w : World) (x : Result (Unit {0}) × World)
    → Movement u id up w x (ordered_ids u w.tables.links)
    → Shelved u w.tables x.1.tables
Shelved-Movement u id up w x (Move.failed f e) = Shelved-same u w.tables x.1.tables e
Shelved-Movement u id up w x (Move.missing a r e) = Shelved-same u w.tables x.1.tables e
Shelved-Movement u id up w x (Move.edge a r e) = Shelved-same u w.tables x.1.tables e
Shelved-Movement u id up w x (Move.done n c r new) =
    Shelved-Renumbered u (exchanged n) w.tables.links w.tables x.1.tables (Edit-exchanged n) new

Shelved-keys :
    (u : ℕ) (before after : Tables)
    → ((v : ℕ) → keys v after.links ≡ keys v before.links)
    → Shelved u before after
unfolding ordered_ids
Shelved-keys u before after e =
    let list : (v : ℕ) → ordered_ids v after.links ≡ ordered_ids v before.links =
      λ v. ap (λ ks. map (λ (k : Key). k.1) (sort_keys ks)) (e v) in
    record {
      edit = subst (Edit (ordered_ids u before.links)) (sym (list u)) (same _);
      others = λ v ne. list v;
    }

-- All calls of the store implement edits of one list of ids per user: in every state that can be
-- reached, whichever calls of the driver fail, a call for a user leaves the lists of all other users,
-- and the user's list stays as it is, gets one id at its end, loses one, or has two neighbours
-- exchanged; a call that is not for the links of a user leaves all lists.
pub run_op-Shelved :
    (p : Platform) (u : ℕ) (o : Op) {w : World}
    → Reachable p w
    → ((v : ℕ) → owner_of o ≡ some v → u ≡ v)
    → Shelved u w.tables (run_op p o w).tables
unfolding run_op
run_op-Shelved p u (create v title url public) {w} r h =
    subst (λ x. Shelved u w.tables (create_link p x title url public w).1.tables) (h v refl)
      (Shelved-Creation p u title url public w (create_link p u title url public w)
        (create_link-Creation p u title url public w))
run_op-Shelved p u (update v id title url public) {w} r h =
    Shelved-keys u w.tables (update_link p v id title url public w).1.tables
      (λ x. update_link-keys p v x id title url public w)
run_op-Shelved p u (delete v id) {w} r h =
    let d = (Reachable-IsNumbered p r).distinct in
    subst (λ x. Shelved u w.tables (delete_link x id w).1.tables) (h v refl)
      (Shelved-Deletion u id w (delete_link u id w) d (delete_link-Deletion u id w d))
run_op-Shelved p u (move v id up) {w} r h =
    subst (λ x. Shelved u w.tables (move_link x id up w).1.tables) (h v refl)
      (Shelved-Movement u id up w (move_link u id up w)
        (move_link-Movement u id up w ((Reachable-IsNumbered p r).distinct)))
run_op-Shelved p u (click e) {w} r h =
    Shelved-keys u w.tables _ (λ x. run_op-keys p x (click e) w refl)
run_op-Shelved p u (sign_up generate email password username first last) {w} r h =
    Shelved-keys u w.tables _
      (λ x. run_op-keys p x (sign_up generate email password username first last) w refl)
run_op-Shelved p u (edit_profile v first last bio) {w} r h =
    Shelved-keys u w.tables _ (λ x. run_op-keys p x (edit_profile v first last bio) w refl)
run_op-Shelved p u (open_session random now v ip ua) {w} r h =
    Shelved-keys u w.tables _ (λ x. run_op-keys p x (open_session random now v ip ua) w refl)
run_op-Shelved p u (end_session id) {w} r h =
    Shelved-keys u w.tables _ (λ x. run_op-keys p x (end_session id) w refl)
run_op-Shelved p u (hourly_run hour) {w} r h =
    Shelved-keys u w.tables _ (λ x. run_op-keys p x (hourly_run hour) w refl)
run_op-Shelved p u (daily_run date) {w} r h =
    Shelved-keys u w.tables _ (λ x. run_op-keys p x (daily_run date) w refl)
run_op-Shelved p u (clean_up days) {w} r h =
    Shelved-keys u w.tables _ (λ x. run_op-keys p x (clean_up days) w refl)
