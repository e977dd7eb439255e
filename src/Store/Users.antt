-- ===== src/Store/Users.antt =====
-- Accounts and sessions of store/store.go. They use no transaction: each statement takes effect alone.
pub mod Unique
pub mod Accounts
pub mod Sessions
mod Tests
use link_nest.Base.{
  ℕ, suc, ◌+◌, ◌*◌, Bool, true, false, ◌&&◌, ◌||◌, Option, none, some, List, [], ◌∷◌, ◌++◌, map,
  ltb, ◌==◌, if◌then◌else◌,
}
use link_nest.Text.{Text, lit}
use link_nest.Text.Utf8.{trim_space}
use link_nest.Platform.{Platform}
use link_nest.Models.{User, DriverError, Error, user, driver, no_rows, mysql, Result, ok, err}
use link_nest.Auth.Slug.{slug}
use link_nest.Auth.Session.{hash_password, check_password, new_session_id}
use link_nest.Store.World.{
  UserRow, SessionRow, Tables, World, Db, pure, fail, ◌>>=◌, ◌>>◌, call, gets, modify, check,
}
use link_nest.Store.Links.{lift}
use link_nest.Store.Validate.{
  validate_signup, validate_names, validate_bio, signup_conflict, mysql_duplicate_entry,
}

module _ (p : Platform) where
  -- Whether a row has the value in the column of a unique key.
  unfoldable pub taken : (UserRow → Text) → Text → List UserRow → Bool
  taken column value [] = false
  taken column value (r ∷ rows) = p.same (column r) value || taken column value rows

  abbrev pub email_of : UserRow → Text
  email_of r = r.user.email

  abbrev pub username_of : UserRow → Text
  username_of r = r.user.username

  abbrev pub slug_of : UserRow → Text
  slug_of r = r.user.slug

  abbrev duplicate : Text → Text → DriverError
  duplicate value key = mysql mysql_duplicate_entry (p.duplicate_message value key)

  -- The unique keys of `users`, in the order of the schema: the first that the row violates.
  unfoldable pub violation : UserRow → List UserRow → Option DriverError
  unfolding taken
  violation r rows =
      if taken email_of r.user.email rows
      then some (duplicate r.user.email (lit "idx_users_email"))
      else if taken username_of r.user.username rows
      then some (duplicate r.user.username (lit "idx_users_username"))
      else if taken slug_of r.user.slug rows
      then some (duplicate r.user.slug (lit "idx_users_slug"))
      else none

  -- `INSERT INTO users`, with the id that it gives. A value of the counter is used up anyway.
  unfoldable pub insert_user : UserRow → Db ℕ
  unfolding violation
  insert_user r w =
      let id = w.serials.user in
      let used = record w { serials = record (w.serials) { user = suc id } } in
      elim (violation r w.tables.users) [
        | some e ↦ (err (driver e), used)
        | none ↦ (
          ok id,
          record used {
            tables = record (w.tables) {
              users = w.tables.users ++ record r { user = record (r.user) { id = id } } ∷ [];
            };
          },
        )
      ]

  -- `if err != nil { return models.User{}, signupConflict(err) }`, on the error of the INSERT.
  unfoldable pub conflicting : {A : Type 0} → Result A × World → Result A × World
  conflicting (ok a, w) = (ok a, w)
  conflicting (err (user e), w) = (err (user e), w)
  conflicting (err (driver e), w) = (err (signup_conflict e), w)

  -- The account that a form asks for; its id is given by the database.
  unfoldable pub new_user : Text → Text → Text → Text → User
  new_user email username first last = record {
    id = 0;
    email = email;
    username = username;
    slug = slug p username;
    first_name = first;
    last_name = last;
    bio = [];
    profile_color = lit "#56738c";
  }

  -- `generate` is bcrypt's salted hash.
  unfoldable pub create_user : (Text → Result Text) → Text → Text → Text → Text → Text → Db User
  unfolding conflicting new_user insert_user
  create_user generate email password username first last = do
    let email' = trim_space email
    let username' = trim_space username
    let first' = trim_space first
    let last' = trim_space last
    check (validate_signup p email' username' first' last')
    hash ← lift (hash_password generate password)
    let account = new_user email' username' first' last'
    id ← (λ w.
        conflicting ((call >> insert_user (record { user = account; password_hash = hash })) w))
    call
    pure (record account { id = id })

  -- `WHERE lower(email) = lower(?)`: the first row.
  unfoldable pub find_email : Text → List UserRow → Result UserRow
  find_email email [] = err (driver no_rows)
  find_email email (r ∷ rows) =
      if p.same_lower r.user.email email then ok r else find_email email rows

  unfoldable pub authenticate : Text → Text → Db User
  unfolding find_email
  authenticate email password = do
    call
    r ← (λ w. (find_email email w.tables.users, w))
    if check_password p r.password_hash password then pure (r.user) else fail (driver no_rows)

  -- `WHERE slug = ?`: the first row.
  unfoldable pub find_slug : Text → List UserRow → Result User
  find_slug name [] = err (driver no_rows)
  find_slug name (r ∷ rows) = if p.same r.user.slug name then ok (r.user) else find_slug name rows

  unfoldable pub user_by_slug : Text → Db User
  unfolding find_slug
  user_by_slug name = call >>= λ _ w. (find_slug name w.tables.users, w)

  -- The column `updated_at` of users, which nothing reads, is left out.
  unfoldable pub update_profile : ℕ → Text → Text → Text → Db (Unit {0})
  update_profile u first last bio = do
    let first' = trim_space first
    let last' = trim_space last
    let bio' = trim_space bio
    check (validate_names first' last')
    check (validate_bio bio')
    call
    modify (λ w. record (w.tables) {
      users =
          map
            (λ r.
              if r.user.id == u
              then record r {
                user = record (r.user) { first_name = first'; last_name = last'; bio = bio' };
              }
              else r)
            w.tables.users;
    })

  -- `INSERT INTO sessions`; the id is the primary key.
  unfoldable pub session_taken : Text → List SessionRow → Bool
  session_taken id [] = false
  session_taken id (s ∷ rows) = p.same s.id id || session_taken id rows

  unfoldable pub insert_session : SessionRow → Db (Unit {0})
  unfolding session_taken
  insert_session s w =
      if session_taken s.id w.tables.sessions
      then (err (driver (duplicate s.id (lit "PRIMARY"))), w)
      else (
        ok tt,
        record w { tables = record (w.tables) { sessions = w.tables.sessions ++ s ∷ [] } },
      )

  -- `random` is the outcome of the random source, `now` the time of the program.
  unfoldable pub create_session : Result Text → ℕ → ℕ → Text → Text → Db Text
  unfolding insert_session
  create_session random now u ip ua = do
    id ← lift (new_session_id random)
    call
    insert_session (record {
      id = id;
      user_id = u;
      ip_address = ip;
      user_agent = ua;
      expires_at = now + 30 * 24 * 3600;
    })
    pure id

  unfoldable pub find_user : ℕ → List UserRow → Option User
  find_user u [] = none
  find_user u (r ∷ rows) = if r.user.id == u then some (r.user) else find_user u rows

  -- The first row of the join.
  unfoldable pub find_session : Text → ℕ → List UserRow → List SessionRow → Result User
  unfolding find_user
  find_session id now users [] = err (driver no_rows)
  find_session id now users (s ∷ rows) =
      let rest = find_session id now users rows in
      if p.same s.id id && ltb now s.expires_at
      then elim (find_user s.user_id users) [ none ↦ rest | some u ↦ ok u ]
      else rest

  unfoldable pub user_by_session : Text → Db User
  unfolding find_session
  user_by_session id = call >>= λ _ w. (find_session id w.now w.tables.users w.tables.sessions, w)

  unfoldable pub without_session : Text → List SessionRow → List SessionRow
  without_session id [] = []
  without_session id (s ∷ rows) =
      let rest = without_session id rows in if p.same s.id id then rest else s ∷ rest

  unfoldable pub delete_session : Text → Db (Unit {0})
  unfolding without_session
  delete_session id = do
    call
    modify (λ w. record (w.tables) { sessions = without_session id w.tables.sessions })
