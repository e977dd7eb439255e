-- ===== src/Store/Users/Sessions.antt =====
-- A session lasts thirty days, or until it is deleted.
use link_nest.Base.{
  ℕ, ◌+◌, ◌*◌, ◌≡◌, ◌≢◌, refl, sym, ap, ◌∙◌, inl, inr, true, false, some, List, [], ◌∷◌, ◌++◌,
  arith, ltb, if◌then◌else◌, Bool-cases, Option-cases,
}
use mathlib.Core.Path.{subst₂}
use link_nest.Text.{Text}
use link_nest.Platform.{Platform}
use link_nest.Models.{User, driver, no_rows, Result, ok, err, ok-inj, err-ok}
use link_nest.Auth.Session.{new_session_id}
use link_nest.Store.World.{UserRow, SessionRow, Tables, World, call, pure, modify, ◌>>◌}
use link_nest.Store.World.Robust.{quiet}
use link_nest.Store.World.Runs.{bind_inv, Passed-call-tables}
use link_nest.Store.Links.{lift}
use link_nest.Store.Users.{
  session_taken, insert_session, create_session, find_user, find_session, user_by_session,
  without_session, delete_session,
}

module _ (p : Platform) where
  -- A new session is the only one of its identifier.
  find_session-append :
      (id : Text) (now : ℕ) (users : List UserRow) (rows : List SessionRow) (s : SessionRow)
      → session_taken p id rows ≡ false
      → find_session p id now users (rows ++ s ∷ []) ≡ find_session p id now users (s ∷ [])
  unfolding find_session session_taken
  find_session-append id now users [] s h = refl
  find_session-append id now users (r ∷ rows) s h =
      let missed : p.same r.id id ≡ false = ground arith in
      rw missed (find_session-append id now users rows s (ground arith))

  find_session-single :
      (id : Text) (now : ℕ) (users : List UserRow) (s : SessionRow) (a : User)
      → p.same s.id id ≡ true
      → find_user p s.user_id users ≡ some a
      → find_session p id now users (s ∷ [])
        ≡ (if ltb now s.expires_at then ok a else err (driver no_rows))
  unfolding find_session
  find_session-single id now users s a h found = rw (h, found) refl

  insert_session-inv :
      (s : SessionRow) (w v : World)
      → insert_session p s w ≡ (ok tt, v)
      → (session_taken p s.id w.tables.sessions ≡ false)
        × (v.tables ≡ record (w.tables) { sessions = w.tables.sessions ++ s ∷ [] })
  unfolding insert_session
  insert_session-inv s w v done = elim (Bool-cases (session_taken p s.id w.tables.sessions)) [
    | inl known ↦ absurd (err-ok (ap (λ (x : Result (Unit {0}) × World). x.0) (rw known at done)))
    | inr new ↦ (new, sym (ap (λ (x : Result (Unit {0}) × World). x.1.tables) (rw new at done)))
  ]

  find_session-without :
      (id : Text) (now : ℕ) (users : List UserRow) (rows : List SessionRow)
      → find_session p id now users (without_session p id rows) ≡ err (driver no_rows)
  unfolding find_session without_session
  find_session-without id now users [] = refl
  find_session-without id now users (s ∷ rows) = elim (Bool-cases (p.same s.id id)) [
    | inl e ↦ rw e (find_session-without id now users rows)
    | inr e ↦ rw e (rw e (find_session-without id now users rows))
  ]

  abbrev pub session : Text → ℕ → ℕ → Text → Text → SessionRow
  session id now u ip ua = record {
    id = id;
    user_id = u;
    ip_address = ip;
    user_agent = ua;
    expires_at = now + 30 * 24 * 3600;
  }

  -- What a successful `CreateSession` has done.
  create_session-inv :
      (random : Result Text) (now u : ℕ) (ip ua : Text) (w v : World) (id : Text)
      → create_session p random now u ip ua w ≡ (ok id, v)
      → (session_taken p id w.tables.sessions ≡ false)
        × (v.tables
            ≡ record (w.tables) { sessions = w.tables.sessions ++ session id now u ip ua ∷ [] })
  unfolding create_session
  create_session-inv random now u ip ua w v id done =
      let (named, e₁) =
        bind_inv (lift (new_session_id random))
          (λ i. call >> (insert_session p (session i now u ip ua) >> pure i)) w done in
      let i = named.value in
      let row = session i now u ip ua in
      let (began, e₂) = bind_inv call (λ _. insert_session p row >> pure i) (named.after) e₁ in
      let (stored, e₃) = bind_inv (insert_session p row) (λ _. pure i) (began.after) e₂ in
      let (new, tables) = insert_session-inv row (began.after) (stored.after) (stored.run) in
      let same_id : i ≡ id = ok-inj (ap (λ (x : Result Text × World). x.0) e₃) in
      let same_tables : began.after.tables ≡ w.tables =
        Passed-call-tables began ∙ ap (λ (x : Result Text × World). x.1.tables) (sym (named.run)) in
      let ended : v.tables ≡ stored.after.tables =
        ap (λ (x : Result Text × World). x.1.tables) (sym e₃) in
      subst₂
        (λ k (x : Tables).
          (session_taken p k x.sessions ≡ false)
          × (v.tables ≡ record x { sessions = x.sessions ++ session k now u ip ua ∷ [] }))
        same_id same_tables (new, ended ∙ tables)

-- The sessions of that identifier.
abbrev pub sessions_of : Platform → Text → List SessionRow → List SessionRow
sessions_of p id [] = []
sessions_of p id (s ∷ rows) =
    let rest = sessions_of p id rows in if p.same s.id id then s ∷ rest else rest

find_session-sessions_of :
    (p : Platform) (id : Text) (now : ℕ) (users : List UserRow) (rows : List SessionRow)
    → find_session p id now users (sessions_of p id rows) ≡ find_session p id now users rows
unfolding find_session
find_session-sessions_of p id now users [] = refl
find_session-sessions_of p id now users (s ∷ rows) = elim (Bool-cases (p.same s.id id)) [
  | inl e ↦ elim (Bool-cases (ltb now s.expires_at)) [
    | inl live ↦ elim (Option-cases (find_user p s.user_id users)) [
      | inl missing ↦ rw (e, e, live, missing) (find_session-sessions_of p id now users rows)
      | inr (u, found) ↦ rw (e, e, live, found) refl
    ]
    | inr old ↦ rw (e, e, old) (find_session-sessions_of p id now users rows)
  ]
  | inr e ↦ rw e (find_session-sessions_of p id now users rows)
]

-- If the database holds every text equal to itself: a session that `CreateSession` opened at the time
-- `now` is read back, as the account that then has the user's id, at every time before thirty days
-- have passed, and as no session from then on, as long as no session of its identifier is opened or
-- ended.
pub create_session_lasts :
    (p : Platform) (random : Result Text) (now u : ℕ) (ip ua : Text) (w v after : World) (id : Text)
    (a : User)
    → ((s : Text) → p.same s s ≡ true)
    → create_session p random now u ip ua w ≡ (ok id, v)
    → find_user p u after.tables.users ≡ some a
    → sessions_of p id after.tables.sessions ≡ sessions_of p id v.tables.sessions
    → (user_by_session p id (quiet after)).0
      ≡ (if ltb after.now (now + 30 * 24 * 3600) then ok a else err (driver no_rows))
unfolding user_by_session call
create_session_lasts p random now u ip ua w v after id a same_refl done found kept =
    let (new, tables) = create_session-inv p random now u ip ua w v id done in
    let s = session p id now u ip ua in
    let users = after.tables.users in
    let read : List SessionRow → Result User = find_session p id after.now users in
    sym (find_session-sessions_of p id after.now users after.tables.sessions)
    ∙ ap read kept
    ∙ find_session-sessions_of p id after.now users v.tables.sessions
    ∙ ap (λ (x : Tables). read x.sessions) tables
    ∙ find_session-append p id after.now users w.tables.sessions s new
    ∙ find_session-single p id after.now users s a (same_refl id) found

delete_session-sessions :
    (p : Platform) (id : Text) (w v : World)
    → delete_session p id w ≡ (ok tt, v)
    → v.tables.sessions ≡ without_session p id w.tables.sessions
unfolding delete_session
delete_session-sessions p id w v done =
    let (began, e) =
      bind_inv call
        (λ _. modify (λ x. record (x.tables) { sessions = without_session p id x.tables.sessions }))
        w done in
    ap (λ (x : Result (Unit {0}) × World). x.1.tables.sessions) (sym e)
    ∙ ap (λ (x : Tables). without_session p id x.sessions) (Passed-call-tables began)

-- After `DeleteSession` succeeds, the identifier is that of no user at any time, as long as the
-- sessions stay as it left them, whatever happens to the other tables and whichever call fails.
pub delete_session_ends :
    (p : Platform) (id : Text) (w v later after : World) (a : User)
    → delete_session p id w ≡ (ok tt, v)
    → later.tables.sessions ≡ v.tables.sessions
    → user_by_session p id later ≢ (ok a, after)
unfolding user_by_session
delete_session_ends p id w v later after a done kept found =
    let (began, e) =
      bind_inv call (λ _ x. (find_session p id x.now x.tables.users x.tables.sessions, x)) later
        found in
    let x = began.after in
    let sessions : x.tables.sessions ≡ without_session p id w.tables.sessions =
      ap (λ (y : Tables). y.sessions) (Passed-call-tables began)
      ∙ kept
      ∙ delete_session-sessions p id w v done in
    err-ok (
      sym (find_session-without p id x.now x.tables.users w.tables.sessions)
      ∙ ap (find_session p id x.now x.tables.users) (sym sessions)
      ∙ ap (λ (y : Result User × World). y.0) e)
