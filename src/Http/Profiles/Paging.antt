-- ===== src/Http/Profiles/Paging.antt =====
-- Reading the click log page by page, each page after the last event of the one before.
use link_nest.Base.{
  ℕ, ℤ, pos, negsuc, zero, suc, ◌<◌, ◌≡◌, refl, ap, sym, ◌∙◌, inl, inr, Bool, true, false, List, [],
  ◌∷◌, arith, leb, ◌==◌, if◌then◌else◌, Bool-cases, All, All-mp, take, drop,
}
use mathlib.Core.Path.{subst}
use link_nest.Models.{ClickEvent}
use link_nest.Store.Reads.{
  page_limit, is_after, select, insert_by, sort_by, le_event, is_history, history,
}
use link_nest.Store.Reach.Logged.{Ascends, Ascends-select}
use link_nest.Store.Reads.Bounds.{All-select}
use link_nest.Http.{next_after}

-- All events of the user after `after`, in the order of the log.
abbrev pub later : ℕ → ℤ → List ClickEvent → List ClickEvent
later u after es = select (is_history u after) es

sort_by-Ascends : (es : List ClickEvent) → Ascends es → sort_by le_event es ≡ es
unfolding sort_by
sort_by-Ascends [] a = refl
sort_by-Ascends (e ∷ es) (b, a) = ap (insert_by le_event e) (sort_by-Ascends es a) ∙ first es b
  where
    first : (es : List ClickEvent) → All (λ f. e.id < f.id) es → insert_by le_event e es ≡ e ∷ es
    first [] b = unfold insert_by in refl
    first (f ∷ es) (lt, b) =
        let before : leb e.id f.id ≡ true = ground arith in unfold insert_by in rw before refl

-- On a log in the order of its ids a page is a prefix of what is left.
pub history-later :
    (u : ℕ) (limit after : ℤ) (es : List ClickEvent)
    → Ascends es
    → history u limit after es ≡ take (page_limit limit) (later u after es)
unfolding history
history-later u limit after es a =
    ap (take (page_limit limit))
      (sort_by-Ascends (later u after es) (Ascends-select (is_history u after) es a))

select-again :
    {A : Type 0} (f g : A → Bool) (xs : List A)
    → ((x : A) → g x ≡ true → f x ≡ true)
    → select g (select f xs) ≡ select g xs
unfolding select
select-again f g [] h = refl
select-again f g (x ∷ xs) h = elim (Bool-cases (f x)) [
  | inl e ↦ rw e (ap (λ r. if g x then x ∷ r else r) (select-again f g xs h))
  | inr e ↦ elim (Bool-cases (g x)) [
    | inl k ↦ let clash : f x ≡ true = h x k in cc
    | inr k ↦ rw (e, k) (select-again f g xs h)
  ]
]

-- The last id of a page that is not empty.
pub next_after-All :
    (P : ℕ → Type 0) (m : ℕ) (e : ClickEvent) (es : List ClickEvent)
    → All (λ (f : ClickEvent). P f.id) (e ∷ es)
    → P (next_after (take (suc m) (e ∷ es)))
unfolding next_after
next_after-All P zero e es (p, h) = p
next_after-All P (suc m) e [] (p, h) = p
next_after-All P (suc m) e (f ∷ es) (p, h) = next_after-All P m f es h

select-All : {A : Type 0} (f : A → Bool) (xs : List A) → All (λ x. f x ≡ true) xs → select f xs ≡ xs
unfolding select
select-All f [] h = refl
select-All f (x ∷ xs) (e, h) = rw e (ap (λ ys. x ∷ ys) (select-All f xs h))

module _ (u : ℕ) where
  abbrev is_past : ℕ → ClickEvent → Bool
  is_past n e = is_history u (pos n) e

  rest_of_page :
      (m : ℕ) (e : ClickEvent) (es : List ClickEvent)
      → Ascends (e ∷ es)
      → All (λ (f : ClickEvent). (f.user_id == u) ≡ true) (e ∷ es)
      → select (is_past (next_after (take (suc m) (e ∷ es)))) (e ∷ es) ≡ drop (suc m) (e ∷ es)
  unfolding select next_after
  rest_of_page zero e es (b, a) (o, own) =
      let gone : is_past (e.id) e ≡ false = ground arith in
      rw gone (select-All (is_past (e.id)) es (both es b own))
    where
      both :
          (es : List ClickEvent)
          → All (λ f. e.id < f.id) es
          → All (λ (f : ClickEvent). (f.user_id == u) ≡ true) es
          → All (λ f. is_past (e.id) f ≡ true) es
      both [] b own = tt
      both (f ∷ es) (lt, b) (o, own) = (ground arith, both es b own)
  rest_of_page (suc m) e [] a (o, own) =
      let gone : is_past (e.id) e ≡ false = ground arith in rw gone refl
  rest_of_page (suc m) e (f ∷ es) (b, a) (o, own) =
      let past : e.id < next_after (take (suc m) (f ∷ es)) =
        next_after-All (λ i. e.id < i) m f es b in
      let gone : is_past (next_after (take (suc m) (f ∷ es))) e ≡ false = ground arith in
      rw gone (rest_of_page m f es a own)

  is_past-is_history :
      (after : ℤ) (n : ℕ) (e : ClickEvent)
      → is_after after n ≡ true
      → is_past n e ≡ true
      → is_history u after e ≡ true
  is_past-is_history (pos m) n e h past = ground arith
  is_past-is_history (negsuc m) n e h past = ground arith

  -- What comes after a page is the rest of what came before it.
  pub later-drop :
      (m : ℕ) (after : ℤ) (es : List ClickEvent) (x : ClickEvent) (xs : List ClickEvent)
      → Ascends es
      → later u after es ≡ x ∷ xs
      → later u (pos (next_after (take (suc m) (x ∷ xs)))) es ≡ drop (suc m) (x ∷ xs)
  later-drop m after es x xs a e =
      let n = next_after (take (suc m) (x ∷ xs)) in
      let found : All (λ f. is_history u after f ≡ true) (x ∷ xs) =
        subst (λ ys. All (λ f. is_history u after f ≡ true) ys) e
          (All-select (λ f. is_history u after f ≡ true) (is_history u after) es (λ f h. h)) in
      let reached : is_after after n ≡ true =
        next_after-All (λ i. is_after after i ≡ true) m x xs
          (All-mp _ _ (x ∷ xs) (λ f h. ground arith) found) in
      sym (
        select-again (is_history u after) (is_past n) es
          (λ f. is_past-is_history after n f reached))
      ∙ ap (select (is_past n)) e
      ∙ rest_of_page m x xs (subst Ascends e (Ascends-select (is_history u after) es a))
          (All-mp _ _ (x ∷ xs) (λ f h. ground arith) found)
