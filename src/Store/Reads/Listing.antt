-- ===== src/Store/Reads/Listing.antt =====
-- Pages show the links in the order that MoveLink works on.
use link_nest.Base.{
  ℕ, ℤ, pos, zero, suc, ◌<◌, ◌≡◌, refl, sym, ap, ◌∙◌, inl, inr, true, false, List, [], ◌∷◌, map,
  arith, take, All, Bool-cases,
}
use link_nest.Models.{Link}
use link_nest.Store.World.{LinkRow}
use link_nest.Store.Links.{Key, owned, keys, insert_key, sort_keys, ordered_ids}
use link_nest.Store.Reads.{
  page_limit, select, insert_by, sort_by, le_place, links_of, is_listed, listing,
}

abbrev key_of : Link → Key
key_of l = (l.position, l.id)

insert_key-map :
    (l : Link) (ls : List Link)
    → map key_of (insert_by le_place l ls) ≡ insert_key (key_of l) (map key_of ls)
unfolding insert_by insert_key
insert_key-map l [] = refl
insert_key-map l (m ∷ ls) = elim (Bool-cases (le_place l m)) [
  | inl e ↦ rw e refl
  | inr e ↦ rw e (ap (λ ks. key_of m ∷ ks) (insert_key-map l ls))
]

sort_keys-map : (ls : List Link) → map key_of (sort_by le_place ls) ≡ sort_keys (map key_of ls)
unfolding sort_by sort_keys
sort_keys-map [] = refl
sort_keys-map (l ∷ ls) =
    insert_key-map l (sort_by le_place ls) ∙ ap (insert_key (key_of l)) (sort_keys-map ls)

keys-select :
    (u : ℕ) (rows : List LinkRow)
    → All (λ r. 0 < r.link.id) rows
    → map key_of (select (is_listed u false (pos 0)) (links_of rows)) ≡ keys u rows
unfolding select keys
keys-select u [] h = refl
keys-select u (r ∷ rows) (p, h) = elim (Bool-cases (owned u r)) [
  | inl e ↦
      let listed : is_listed u false (pos 0) (r.link) ≡ true = ground arith in
      rw (listed, e) (ap (λ ks. key_of (r.link) ∷ ks) (keys-select u rows h))
  | inr e ↦
      let unlisted : is_listed u false (pos 0) (r.link) ≡ false = ground arith in
      rw (unlisted, e) (keys-select u rows h)
]

map-take : {A B : Type 0} (f : A → B) (n : ℕ) (xs : List A) → map f (take n xs) ≡ take n (map f xs)
map-take f zero xs = refl
map-take f (suc n) [] = refl
map-take f (suc n) (x ∷ xs) = ap (λ ys. f x ∷ ys) (map-take f n xs)

map-map :
    {A B C : Type 0} (f : A → B) (g : B → C) (xs : List A)
    → map g (map f xs) ≡ map (λ x. g (f x)) xs
map-map f g [] = refl
map-map f g (x ∷ xs) = ap (λ ys. g (f x) ∷ ys) (map-map f g xs)

-- On links whose ids are positive: a page of all links of a user, from the first on, shows the
-- links that MoveLink and DeleteLink put in order, in the same order, up to the limit.
pub listing-ordered_ids :
    (u : ℕ) (limit : ℤ) (rows : List LinkRow)
    → All (λ r. 0 < r.link.id) rows
    → map (λ (l : Link). l.id) (listing u false limit (pos 0) rows)
      ≡ take (page_limit limit) (ordered_ids u rows)
unfolding listing ordered_ids
listing-ordered_ids u limit rows h =
    let all = select (is_listed u false (pos 0)) (links_of rows) in
    map-take (λ (l : Link). l.id) (page_limit limit) (sort_by le_place all)
    ∙ ap (take (page_limit limit)) (
        sym (map-map key_of (λ (k : Key). k.1) (sort_by le_place all))
        ∙ ap (map (λ (k : Key). k.1)) (sort_keys-map all ∙ ap sort_keys (keys-select u rows h)))
