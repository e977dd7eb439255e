-- ===== src/Http/Routes/Permitted.antt =====
-- What each route of http/server.go may do to the database.
use link_nest.Base.{ℕ, ℤ, ◌≡◌, true, some, List, [], ◌∷◌}
use link_nest.Text.{Text, lit, equals}
use link_nest.Models.{User, Link, Result, ok}
use link_nest.Web.{find_cookie}
use link_nest.Auth.Session.{cookie_name, sign}
use link_nest.Store.World.{World}
use link_nest.Store.Users.{create_user, authenticate}
use link_nest.Store.Clicks.{find_public}
use link_nest.Store.Reach.{
  Op, create, update, delete, move, click, sign_up, edit_profile, open_session, end_session,
}
use link_nest.Http.{Request, safe_url, link_id, client_ip}
use link_nest.Http.Pages.{Server}
use link_nest.Http.Pages.Signed.{SignedIn}
use link_nest.Http.Replies.{click_of}
use link_nest.Http.Routes.{
  Route, create_route, update_route, delete_route, move_route, profile_route, track_route,
  register_route, login_route, logout_route,
}

module _ (s : Server) (r : Request) (now : ℕ) (random : Result Text) (w : World) where
  -- The calls of the store that a request may make in the world `w`, by its route and the calls that it
  -- has made: one call, but for a session after signing up. What is done for a
  -- user is done for one who is signed in, on links of that user.
  pub data Permitted : Route → List Op → Op → Type 0 where
    creates :
        (u : User)
        → SignedIn s r w u
        → r.parses ≡ true
        → Permitted create_route [] (
            create u.id
              (r.form (lit "title"))
              (safe_url s.platform (r.form (lit "url")))
              (equals (r.form (lit "public")) (lit "on")))
    updates :
        (u : User) (path : Text) (id : ℤ)
        → SignedIn s r w u
        → r.parses ≡ true
        → link_id path ≡ some id
        → Permitted (update_route path) [] (
            update u.id id
              (r.form (lit "title"))
              (safe_url s.platform (r.form (lit "url")))
              (equals (r.form (lit "public")) (lit "on")))
    deletes :
        (u : User) (path : Text) (id : ℤ)
        → SignedIn s r w u
        → link_id path ≡ some id
        → Permitted (delete_route path) [] (delete u.id id)
    moves :
        (u : User) (path : Text) (id : ℤ)
        → SignedIn s r w u
        → link_id path ≡ some id
        → Permitted (move_route path) [] (move u.id id (equals (r.form (lit "dir")) (lit "up")))
    saves :
        (u : User)
        → SignedIn s r w u
        → r.parses ≡ true
        → Permitted profile_route [] (
            edit_profile u.id
              (r.form (lit "first_name"))
              (r.form (lit "last_name"))
              (r.form (lit "bio")))
    -- of a public link
    counts :
        (path : Text) (id : ℤ) (link : Link)
        → link_id path ≡ some id
        → find_public id w.tables.links ≡ ok link
        → Permitted (track_route path) [] (click (click_of s.platform r link now))
    registers :
        r.parses ≡ true
        → Permitted register_route [] (
            sign_up s.generate
              (r.form (lit "email"))
              (r.form (lit "password"))
              (r.form (lit "username"))
              (r.form (lit "first_name"))
              (r.form (lit "last_name")))
    -- a session of the new account
    starts :
        (u : User) (v : World)
        → create_user s.platform s.generate
            (r.form (lit "email"))
            (r.form (lit "password"))
            (r.form (lit "username"))
            (r.form (lit "first_name"))
            (r.form (lit "last_name"))
            w
          ≡ (ok u, v)
        → Permitted register_route
            (sign_up s.generate
                (r.form (lit "email"))
                (r.form (lit "password"))
                (r.form (lit "username"))
                (r.form (lit "first_name"))
                (r.form (lit "last_name"))
              ∷ [])
            (open_session random now u.id (client_ip r) (r.header (lit "User-Agent")))
    -- a session of the account with that email and password
    enters :
        (u : User) (v : World)
        → authenticate s.platform (r.form (lit "email")) (r.form (lit "password")) w ≡ (ok u, v)
        → Permitted login_route []
            (open_session random now u.id (client_ip r) (r.header (lit "User-Agent")))
    -- of the session that the cookie names, with the server's signature
    leaves :
        (id : Text)
        → find_cookie cookie_name r.cookies ≡ some (sign s.platform id s.cfg.session_secret)
        → Permitted logout_route [] (end_session id)
