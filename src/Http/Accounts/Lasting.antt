-- ===== src/Http/Accounts/Lasting.antt =====
-- Signing in: what the browser is given, and who it is from then on.
use link_nest.Base.{
  ℕ, ◌+◌, ◌*◌, ◌≡◌, refl, sym, ap, ◌∙◌, Bool, true, false, none, some, List, [], ◌∷◌, ltb,
  if◌then◌else◌, inl, inr, Bool-cases,
}
use link_nest.Text.{Text, lit, IsBytes}
use link_nest.Platform.{Platform}
use link_nest.Models.{User, Result, ok, err, ok-inj}
use link_nest.Web.{Held, find_cookie, receive, sent}
use link_nest.Web.Jars.{find_cookie-receive_until}
use link_nest.Auth.Session.{cookie_name, sign, new_session_id, session_cookie}
use link_nest.Auth.Session.Signing.{Lacks-new_session_id}
use link_nest.Store.World.{World, call, pure, ◌>>◌}
use link_nest.Store.World.Robust.{quiet}
use link_nest.Store.World.Runs.{bind_inv}
use link_nest.Store.Links.{lift}
use link_nest.Store.Users.{authenticate, insert_session, create_session, find_user, user_by_session}
use link_nest.Store.Users.Sessions.{session, sessions_of, create_session_lasts}
use link_nest.Http.{Request, client_ip}
use link_nest.Http.Pages.{
  no_user, redirect, bad_form, Server, Response, looked_up, by_cookie, current_user,
}
use link_nest.Http.Pages.Signed.{current_user-cookie}
use link_nest.Http.Accounts.{with_session, logged_in, login}

create_session-new_session_id :
    (p : Platform) (random : Result Text) (now u : ℕ) (ip ua : Text) (w v : World) (id : Text)
    → create_session p random now u ip ua w ≡ (ok id, v)
    → new_session_id random ≡ ok id
unfolding create_session
create_session-new_session_id p random now u ip ua w v id done =
    let (named, e₁) =
      bind_inv (lift (new_session_id random))
        (λ i. call >> (insert_session p (session p i now u ip ua) >> pure i)) w done in
    let i = named.value in
    let row = session p i now u ip ua in
    let (began, e₂) = bind_inv call (λ _. insert_session p row >> pure i) (named.after) e₁ in
    let (stored, e₃) = bind_inv (insert_session p row) (λ _. pure i) (began.after) e₂ in
    ap (λ (x : Result Text × World). x.0) (named.run) ∙ ap (λ (x : Result Text × World). x.0) e₃

looked_up-ok : (x : Result User × World) (u : User) → x.0 ≡ ok u → (looked_up x).0 ≡ (u, true)
looked_up-ok (ok a, w) u e = ap (λ a. (a, true)) (ok-inj e)
looked_up-ok (err d, w) u e = cc

current_user-missing :
    (s : Server) (r : Request) (w : World)
    → find_cookie cookie_name r.cookies ≡ none
    → (current_user s r w).0 ≡ (no_user, false)
unfolding current_user
current_user-missing s r w e = ap (λ o. (by_cookie s r o w).0) e

-- If the database holds every text equal to itself, and a login with a form that parses finds a user by
-- its email and password and opens a session: it redirects to the dashboard. Then take any later state
-- in which an account has this user's id, and no session of that identifier has been opened or ended
-- since, and a request, no call of the driver failing, with the cookies that a browser sends then that
-- was given this answer, whatever cookies it held before. It is signed in as that account until thirty
-- days have passed since the login, and as nobody from then on.
pub login-current_user :
    (s : Server) (r later : Request) (held : List Held) (now : ℕ) (random : Result Text)
    (body : Text) (u a : User) (id : Text) (w w₁ v after : World)
    → ((x : Text) → s.platform.same x x ≡ true)
    → IsBytes body
    → random ≡ ok body
    → r.parses ≡ true
    → authenticate s.platform (r.form (lit "email")) (r.form (lit "password")) w ≡ (ok u, w₁)
    → create_session s.platform random now u.id (client_ip r) (r.header (lit "User-Agent")) w₁
      ≡ (ok id, v)
    → later.cookies ≡ sent after.now (receive now held (login s r now random w).0.cookies)
    → find_user s.platform u.id after.tables.users ≡ some a
    → sessions_of s.platform id after.tables.sessions
      ≡ sessions_of s.platform id (login s r now random w).1.tables.sessions
    → ((login s r now random w).0.location ≡ some (lit "/dashboard"))
      × ((current_user s later (quiet after)).0
          ≡ (if ltb after.now (now + 30 * 24 * 3600) then (a, true) else (no_user, false)))
unfolding login session_cookie
login-current_user s r later held now random body u a id w w₁ v after refl_same bytes drawn parsed
      known opened given found kept =
    let p = s.platform in
    let secret = s.cfg.session_secret in
    let problem = lit "We couldn't sign you in just now. Please try again." in
    let first = authenticate p (r.form (lit "email")) (r.form (lit "password")) w in
    let cookie = session_cookie p id secret now in
    let ended : login s r now random w ≡ (redirect (lit "/dashboard") (cookie ∷ []), v) =
      ap (λ b. if b then logged_in s r now random first else bad_form s r w) parsed
      ∙ ap (logged_in s r now random) known
      ∙ ap (with_session s r now problem) opened in
    let named : new_session_id (ok body) ≡ ok id =
      ap new_session_id (sym drawn)
      ∙ create_session-new_session_id p random now u.id (client_ip r) (r.header (lit "User-Agent"))
          w₁ v id opened in
    let end = now + 30 * 24 * 3600 in
    let cookie_sent : find_cookie cookie_name later.cookies
        ≡ (if ltb after.now end then some (sign p id secret) else none) =
      ap (find_cookie cookie_name)
        (given ∙ ap (λ (x : Response × World). sent after.now (receive now held x.0.cookies)) ended)
      ∙ find_cookie-receive_until now after.now held cookie end refl refl in
    let lasts =
      create_session_lasts p random now u.id (client_ip r) (r.header (lit "User-Agent")) w₁ v after
        id a refl_same opened found
        (kept ∙ ap (λ (x : Response × World). sessions_of p id x.1.tables.sessions) ended) in
    (
      ap (λ (x : Response × World). x.0.location) ended,
      elim (Bool-cases (ltb after.now end)) [
        | inl live ↦ rw live (
            ap (λ (x : (User × Bool) × World). x.0)
              (current_user-cookie s later (quiet after) id
                (Lacks-new_session_id body id bytes named) (rw live at cookie_sent))
            ∙ looked_up-ok (user_by_session p id (quiet after)) a (rw live at lasts))
        | inr old ↦ rw old (current_user-missing s later (quiet after) (rw old at cookie_sent))
      ],
    )
