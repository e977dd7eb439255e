-- ===== src/Http/Pages/Signed.antt =====
-- Who is signed in, by the cookie of a request.
use link_nest.Base.{
  ℕ, ◌≡◌, refl, ap, ◌∙◌, ◌⊎◌, ◌<◌, arith, inl, inr, Bool, true, false, Option, none, some, List, [],
  ◌∷◌, ltb, Bool-cases, Option-cases,
}
use link_nest.Text.{Text}
use link_nest.Platform.{Platform}
use link_nest.Models.{User, Result, ok, err, ok-inj, err-ok}
use link_nest.Web.{find_cookie}
use link_nest.Auth.Session.{cookie_name, sign, verify}
use link_nest.Text.Cut.{Lacks}
use link_nest.Auth.Session.Signing.{verify_iff, verify-sign}
use link_nest.Store.World.{UserRow, SessionRow, Tables, World, call}
use link_nest.Store.World.Runs.{
  bind_inv, Passed-call-tables, Passed-call-now, Keeps-bind, Keeps-call,
}
use link_nest.Store.Users.{find_user, find_session, user_by_session}
use link_nest.Http.{Request}
use link_nest.Http.Pages.{Server, looked_up, by_verified, by_cookie, current_user}

-- A row of the list.
abbrev pub Any : {A : Type 0} → (A → Type 0) → List A → Type 0
Any P [] = ⊥
Any P (x ∷ xs) = P x ⊎ Any P xs

-- A session row of that identifier that has not expired, and the user that it is for.
abbrev pub IsFor : Platform → Text → ℕ → List UserRow → User → SessionRow → Type 0
IsFor p id now users u row =
    (p.same row.id id ≡ true) × (now < row.expires_at) × (find_user p row.user_id users ≡ some u)

find_session-Any :
    (p : Platform) (id : Text) (now : ℕ) (users : List UserRow) (rows : List SessionRow) (u : User)
    → find_session p id now users rows ≡ ok u
    → Any (IsFor p id now users u) rows
unfolding find_session
find_session-Any p id now users [] u e = absurd (err-ok e)
find_session-Any p id now users (row ∷ rows) u e = elim (Bool-cases (p.same row.id id)) [
  | inl same ↦ elim (Bool-cases (ltb now row.expires_at)) [
    | inl live ↦ elim (Option-cases (find_user p row.user_id users)) [
      | inl missing ↦ inr (find_session-Any p id now users rows u (rw (same, live, missing) at e))
      | inr (v, found) ↦
          let is_u : v ≡ u = ok-inj (rw (same, live, found) at e) in
          inl (same, ground arith, found ∙ ap (λ x. some x) is_u)
    ]
    | inr old ↦ inr (find_session-Any p id now users rows u (rw (same, old) at e))
  ]
  | inr other ↦ inr (find_session-Any p id now users rows u (rw other at e))
]

module _ (s : Server) (r : Request) where
  -- The cookie of the request is a session identifier signed with the secret of the server, and the
  -- tables hold a session of that identifier for the user that has not expired.
  pub record SignedIn (w : World) (u : User) : Type 0 where
    pub id : Text
    pub cookie : find_cookie cookie_name r.cookies ≡ some (sign s.platform id s.cfg.session_secret)
    pub session : Any (IsFor s.platform id w.now w.tables.users u) w.tables.sessions

  looked_up-true :
      (x : Result User × World) {u : User} {v : World}
      → looked_up x ≡ ((u, true), v)
      → x ≡ (ok u, v)
  looked_up-true (ok a, w) {u} {v} e =
      let same : a ≡ u = ap (λ (y : (User × Bool) × World). y.0.0) e in
      let after : w ≡ v = ap (λ (y : (User × Bool) × World). y.1) e in rw (same, after) refl
  looked_up-true (err b, w) {u} {v} e =
      let clash : false ≡ true = ap (λ (y : (User × Bool) × World). y.0.1) e in cc

  user_by_session-Any :
      (id : Text) (w v : World) (u : User)
      → user_by_session s.platform id w ≡ (ok u, v)
      → Any (IsFor s.platform id w.now w.tables.users u) w.tables.sessions
  unfolding user_by_session
  user_by_session-Any id w v u done =
      let (began, e) =
        bind_inv call
          (λ _ x. (find_session s.platform id x.now x.tables.users x.tables.sessions, x)) w done in
      rw (← Passed-call-tables began, ← Passed-call-now began)
        (find_session-Any s.platform id began.after.now began.after.tables.users
          began.after.tables.sessions u (ap (λ (x : Result User × World). x.0) e))

  by_verified-true :
      (x : Text × Bool) (w : World) {v : World} {u : User}
      → by_verified s r x w ≡ ((u, true), v)
      → (x.1 ≡ true) × (user_by_session s.platform x.0 w ≡ (ok u, v))
  by_verified-true (id, true) w e = (refl, looked_up-true (user_by_session s.platform id w) e)
  by_verified-true (id, false) w e =
      let clash : false ≡ true = ap (λ (y : (User × Bool) × World). y.0.1) e in cc

  by_cookie-true :
      (o : Option Text) (w : World) {v : World} {u : User}
      → find_cookie cookie_name r.cookies ≡ o
      → by_cookie s r o w ≡ ((u, true), v)
      → SignedIn w u
  by_cookie-true none w c e =
      let clash : false ≡ true = ap (λ (y : (User × Bool) × World). y.0.1) e in cc
  by_cookie-true (some value) w {v} {u} c e =
      let secret = s.cfg.session_secret in
      let x = verify s.platform value secret in
      let (valid, found) = by_verified-true x w e in
      let pair : x ≡ (x.0, true) = ap (λ b. (x.0, b)) valid in
      let (_, signed) = (verify_iff s.platform value secret x.0).0 pair in
      record {
        id = x.0;
        cookie = c ∙ ap (λ y. some y) signed;
        session = user_by_session-Any x.0 w v u found;
      }

  pub current_user-SignedIn :
      (w : World) {v : World} {u : User} → current_user s r w ≡ ((u, true), v) → SignedIn w u
  unfolding current_user
  current_user-SignedIn w e = by_cookie-true (find_cookie cookie_name r.cookies) w refl e

  module _ (P : Tables → Type 0) where
    by_verified-keep : (x : Text × Bool) (w : World) → P w.tables → P (by_verified s r x w).1.tables
    unfolding user_by_session
    by_verified-keep (id, false) w h = h
    by_verified-keep (id, true) w h = kept (user_by_session s.platform id w) (
        (Keeps-bind P call
            (λ _ x. (find_session s.platform id x.now x.tables.users x.tables.sessions, x))
            (Keeps-call P) (λ _. record { keep = λ w h. h })).keep
          w h)
      where
        kept : (x : Result User × World) → P x.1.tables → P (looked_up x).1.tables
        kept (ok u, w) h = h
        kept (err e, w) h = h

    by_cookie-keep : (o : Option Text) (w : World) → P w.tables → P (by_cookie s r o w).1.tables
    by_cookie-keep none w h = h
    by_cookie-keep (some value) w h =
        by_verified-keep (verify s.platform value s.cfg.session_secret) w h

    pub current_user-keep : (w : World) → P w.tables → P (current_user s r w).1.tables
    unfolding current_user
    current_user-keep w h = by_cookie-keep (find_cookie cookie_name r.cookies) w h

-- With a cookie that was signed, the session decides.
pub current_user-cookie :
    (s : Server) (r : Request) (w : World) (id : Text)
    → Lacks b'.' id
    → find_cookie cookie_name r.cookies ≡ some (sign s.platform id s.cfg.session_secret)
    → current_user s r w ≡ looked_up (user_by_session s.platform id w)
unfolding current_user
current_user-cookie s r w id lacks cookie =
    ap (λ o. by_cookie s r o w) cookie
    ∙ ap (λ x. by_verified s r x w) (verify-sign s.platform s.cfg.session_secret id lacks)
