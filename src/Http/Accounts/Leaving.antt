-- ===== src/Http/Accounts/Leaving.antt =====
-- Who gets past `requireAuth`, and what is left of a session after signing out.
use link_nest.Base.{ℕ, ◌≡◌, ◌≢◌, refl, ap, ◌∙◌, Bool, true, false, none, some, List, [], ◌∷◌}
use link_nest.Text.{Text, lit, equals}
use link_nest.Models.{User, Result, ok, err}
use link_nest.Web.{Held, find_cookie, receive, sent}
use link_nest.Web.Jars.{find_cookie-receive_deleted, find_cookie-receive_other}
use link_nest.Text.Cut.{Lacks}
use link_nest.Auth.Session.{cookie_name, sign, cleared_session_cookie}
use link_nest.Auth.Session.Signing.{verify-sign}
use link_nest.Auth.Flash.{flash_cookie}
use link_nest.Store.World.{World}
use link_nest.Store.Users.{delete_session, user_by_session}
use link_nest.Store.Users.Sessions.{delete_session_ends}
use link_nest.Http.{Request}
use link_nest.Http.Pages.{Server, Response, looked_up, current_user}
use link_nest.Http.Pages.Signed.{
  current_user-cookie, SignedIn, current_user-SignedIn, current_user-keep,
}
use link_nest.Http.Accounts.{end_by_cookie, end_session, sign_in_first, gated, require_auth, logout}

-- How a request ends whose handler is behind `requireAuth`.
pub data Guarded (s : Server) (r : Request) (next : User → World → Response × World) (w : World)
    (x : Response × World) : Type 0 where
  refused : x.0 ≡ sign_in_first s r → x.1.tables ≡ w.tables → Guarded s r next w x
  admitted :
      (u : User) (w' : World)
      → SignedIn s r w u
      → w'.tables ≡ w.tables
      → x ≡ next u w'
      → Guarded s r next w x

gated-Guarded :
    (s : Server) (r : Request) (next : User → World → Response × World) (w : World)
    (y : (User × Bool) × World)
    → current_user s r w ≡ y
    → y.1.tables ≡ w.tables
    → Guarded s r next w (gated s r next y)
gated-Guarded s r next w ((u, true), v) e same =
    admitted u v (current_user-SignedIn s r w e) same refl
gated-Guarded s r next w ((u, false), v) e same = refused refl same

-- A handler behind `requireAuth` runs only for the user of a session that the tables hold and that has
-- not expired, and only if the request's cookie is the identifier of that session signed with the secret of the server; any
-- other request is sent to the login page with a message, and changes no table.
pub require_auth-Guarded :
    (s : Server) (r : Request) (next : User → World → Response × World) (w : World)
    → Guarded s r next w (require_auth s r next w)
unfolding require_auth
require_auth-Guarded s r next w =
    gated-Guarded s r next w (current_user s r w) refl
      (current_user-keep s r (λ t. t ≡ w.tables) w refl)

logout-forgets :
    (s : Server) (r : Request) (w : World) (held : List Held) (t t' : ℕ)
    → find_cookie cookie_name (sent t' (receive t held (logout s r w).0.cookies)) ≡ none
unfolding logout
logout-forgets s r w held t t' =
    let notice = flash_cookie (lit "notice") (lit "You're signed out.") in
    unfold receive in
    unfold flash_cookie in
    find_cookie-receive_other t t' (receive t held (cleared_session_cookie ∷ [])) notice cookie_name
      (unfold equals in refl)
    ∙ unfold cleared_session_cookie in
      find_cookie-receive_deleted t t' held cleared_session_cookie refl

looked_up_never :
    (x : Result User × World) → ((a : User) (v : World) → x ≢ (ok a, v)) → (looked_up x).0.1 ≡ false
looked_up_never (ok a, v) h = absurd (h a v refl)
looked_up_never (err e, v) h = refl

-- A request to log out with the cookie of a session, when DeleteSession succeeds: the browser drops
-- the cookie, whatever it holds and whenever it sends cookies again; and as long as the sessions stay as the request left them, no
-- later request that sends the same cookie anyway is signed in, at any time.
pub logout-current_user :
    (s : Server) (r later : Request) (w v after : World) (id : Text) (held : List Held) (t t' : ℕ)
    → Lacks b'.' id
    → find_cookie cookie_name r.cookies ≡ some (sign s.platform id s.cfg.session_secret)
    → find_cookie cookie_name later.cookies ≡ some (sign s.platform id s.cfg.session_secret)
    → delete_session s.platform id w ≡ (ok tt, v)
    → after.tables.sessions ≡ (logout s r w).1.tables.sessions
    → (find_cookie cookie_name (sent t' (receive t held (logout s r w).0.cookies)) ≡ none)
      × ((current_user s later after).0.1 ≡ false)
unfolding logout
logout-current_user s r later w v after id held t t' lacks presented again done kept =
    let ended : (logout s r w).1 ≡ v =
      ap (λ o. end_by_cookie s r o w) presented
      ∙ ap (λ x. end_session s r x w) (verify-sign s.platform s.cfg.session_secret id lacks)
      ∙ ap (λ (x : Result (Unit {0}) × World). x.1) done in
    let same : after.tables.sessions ≡ v.tables.sessions =
      kept ∙ ap (λ (x : World). x.tables.sessions) ended in
    (
      logout-forgets s r w held t t',
      ap (λ (x : (User × Bool) × World). x.0.1) (current_user-cookie s later after id lacks again)
          ∙ looked_up_never (user_by_session s.platform id after)
              (λ a x. delete_session_ends s.platform id w v after x a done same),
    )
