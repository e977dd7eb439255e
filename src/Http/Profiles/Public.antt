-- ===== src/Http/Profiles/Public.antt =====
-- What a public profile can show: nothing of private links.
use link_nest.Base.{
  ℤ, pos, ◌≡◌, refl, sym, ap, ◌∙◌, inl, inr, Bool, true, false, ◌||◌, Option, none, some, List, [],
  ◌∷◌, arith, Bool-cases, take, ℕ,
}
use link_nest.Text.{Text, lit, contains}
use link_nest.Models.{User, Link, Result, ok, err}
use link_nest.Web.{find_cookie}
use link_nest.Auth.Session.{cookie_name, verify}
use link_nest.Store.World.{LinkRow, World, Db, call, gets, pure, scan_rows, query, ◌>>=◌}
use link_nest.Store.World.Atomic.{run-cases, bind-ok, bind-err, Ended}
use link_nest.Store.Users.{find_session, user_by_session, find_slug, user_by_slug}
use link_nest.Store.Reads.{
  page_limit, select, sort_by, le_place, links_of, is_listed, listing, links_for_user,
}
use link_nest.Http.{Request, reserved_slug}
use link_nest.Http.Pages.{
  Content, Server, looked_up, by_verified, by_cookie, current_user, render_status, render_page,
  render_error, not_found, profile,
}
use link_nest.Http.Profiles.{with_links, with_owner, public_profile}

-- The tables without the private links.
abbrev pub only_public : World → World
only_public w = record w {
  tables = record (w.tables) { links = select (λ (r : LinkRow). r.link.public) w.tables.links };
}

abbrev pub revealed : {A : Type 0} → A × World → A × World
revealed (a, w) = (a, only_public w)

-- A method that does the same without the private links.
record Blind {A : Type 0} (m : World → A × World) : Type 0 where
  blind : (w : World) → m (only_public w) ≡ revealed (m w)

module _ {A B : Type 0} (m : Db A) (f : A → Db B) where
  Blind-bind : Blind m → ((a : A) → Blind (f a)) → Blind (m >>= f)
  Blind-bind first later = record { blind = λ w. go w (run-cases (m w)) }
    where
      go : (w : World) → Ended (m w) → (m >>= f) (only_public w) ≡ revealed ((m >>= f) w)
      go w (inl (a, u, e)) =
          bind-ok m f (only_public w) (first.blind w ∙ ap revealed e)
          ∙ (later a).blind u
          ∙ ap revealed (sym (bind-ok m f w e))
      go w (inr (d, u, e)) =
          bind-err m f (only_public w) (first.blind w ∙ ap revealed e)
          ∙ ap revealed (sym (bind-err m f w e))

Blind-call : Blind call
unfolding call
Blind-call = record { blind = λ w. refl }

Blind-gets :
    {A : Type 0} (f : World → Result A)
    → ((w : World) → f (only_public w) ≡ f w)
    → Blind (λ w. (f w, w))
Blind-gets f h = record { blind = λ w. ap (λ a. (a, only_public w)) (h w) }

Blind-scan_rows : {A : Type 0} (rows : List A) → Blind (scan_rows rows)
unfolding scan_rows
Blind-scan_rows [] = Blind-bind call (λ _. pure []) Blind-call (λ _. Blind-gets _ (λ w. refl))
Blind-scan_rows (a ∷ rows) =
    Blind-bind call (λ _. scan_rows rows >>= λ rest. pure (a ∷ rest)) Blind-call
      (λ _.
        Blind-bind (scan_rows rows) (λ rest. pure (a ∷ rest)) (Blind-scan_rows rows)
          (λ rest. Blind-gets _ (λ w. refl)))

select-select :
    (u : ℕ) (after : ℤ) (rows : List LinkRow)
    → select (is_listed u true after) (links_of (select (λ (r : LinkRow). r.link.public) rows))
      ≡ select (is_listed u true after) (links_of rows)
unfolding select
select-select u after [] = refl
select-select u after (r ∷ rows) = ground (arith, select-select u after rows)

Blind-links_for_user : (u : ℕ) (limit after : ℤ) → Blind (links_for_user u true limit after)
unfolding links_for_user query listing
Blind-links_for_user u limit after =
    let read : World → List Link = λ w. listing u true limit after w.tables.links in
    Blind-bind call (λ _. gets read >>= scan_rows) Blind-call
      (λ _.
        Blind-bind (gets read) scan_rows
          (Blind-gets (λ w. ok (read w))
            (λ w.
              ap (λ ls. ok (take (page_limit limit) (sort_by le_place ls)))
                (select-select u after w.tables.links)))
          Blind-scan_rows)

module _ (s : Server) (r : Request) where
  Blind-user_by_session : (id : Text) → Blind (user_by_session s.platform id)
  unfolding user_by_session
  Blind-user_by_session id =
      Blind-bind call
        (λ _ x. (find_session s.platform id x.now x.tables.users x.tables.sessions, x)) Blind-call
        (λ _. record { blind = λ w. refl })

  Blind-user_by_slug : (name : Text) → Blind (user_by_slug s.platform name)
  unfolding user_by_slug
  Blind-user_by_slug name =
      Blind-bind call (λ _ w. (find_slug s.platform name w.tables.users, w)) Blind-call
        (λ _. record { blind = λ w. refl })

  looked_up-revealed : (x : Result User × World) → looked_up (revealed x) ≡ revealed (looked_up x)
  looked_up-revealed (ok u, w) = refl
  looked_up-revealed (err e, w) = refl

  by_verified-blind :
      (x : Text × Bool) (w : World)
      → by_verified s r x (only_public w) ≡ revealed (by_verified s r x w)
  by_verified-blind (id, true) w =
      ap looked_up ((Blind-user_by_session id).blind w)
      ∙ looked_up-revealed (user_by_session s.platform id w)
  by_verified-blind (id, false) w = refl

  by_cookie-blind :
      (o : Option Text) (w : World) → by_cookie s r o (only_public w) ≡ revealed (by_cookie s r o w)
  by_cookie-blind none w = refl
  by_cookie-blind (some value) w =
      by_verified-blind (verify s.platform value s.cfg.session_secret) w

  Blind-current_user : Blind (current_user s r)
  unfolding current_user
  Blind-current_user = record { blind = by_cookie-blind (find_cookie cookie_name r.cookies) }

  Blind-render_status :
      (status : ℕ) (name : Text) (c : Content) → Blind (render_status s r status name c)
  unfolding render_status
  Blind-render_status status name c = record { blind = λ w. rw (Blind-current_user.blind w) refl }

  Blind-not_found : Blind (not_found s r)
  unfolding not_found render_error
  Blind-not_found = Blind-render_status 404 _ _

  with_links-blind :
      (u : User) (x : Result (List Link) × World)
      → with_links s r u (revealed x) ≡ revealed (with_links s r u x)
  unfolding render_error render_page
  with_links-blind u (ok links, w) = (Blind-render_status 200 _ (profile u links)).blind w
  with_links-blind u (err e, w) = (Blind-render_status 500 _ _).blind w

  with_owner-blind :
      (x : Result User × World) → with_owner s r (revealed x) ≡ revealed (with_owner s r x)
  with_owner-blind (ok u, w) =
      ap (with_links s r u) ((Blind-links_for_user u.id (pos 100) (pos 0)).blind w)
      ∙ with_links-blind u (links_for_user u.id true (pos 100) (pos 0) w)
  with_owner-blind (err e, w) = Blind-not_found.blind w

  -- Whatever the request, and whichever calls of the driver fail: the response of a public profile is
  -- the same, cookies, status and page, as if the private links of all users were not there.
  pub public_profile_blind :
      (slug : Text) (w : World)
      → public_profile s r slug (only_public w) ≡ revealed (public_profile s r slug w)
  unfolding public_profile
  public_profile_blind slug w = elim (Bool-cases (contains slug (lit ".") || reserved_slug slug)) [
    | inl e ↦ rw e (Blind-not_found.blind w)
    | inr e ↦ rw e (
        ap (with_owner s r) ((Blind-user_by_slug slug).blind w)
        ∙ with_owner-blind (user_by_slug s.platform slug w))
  ]
