-- ===== src/Store/Reads/Quiet.antt =====
-- The reads of store/store.go change nothing.
use link_nest.Base.{ℕ, ℤ, pos, Bool, false, if◌then◌else◌, length}
use link_nest.Text.{Text}
use link_nest.Platform.{Platform}
use link_nest.Models.{User, driver, no_rows, ok, err}
use link_nest.Auth.Session.{check_password}
use link_nest.Store.World.{UserRow, World, Db, ◌>>=◌, pure, fail, call, gets}
use link_nest.Store.World.ReadOnly.{
  ReadOnly, ReadOnly-bind, ReadOnly-lift, ReadOnly-pure, ReadOnly-gets, ReadOnly-choice,
  ReadOnly-call, ReadOnly-query, ReadOnly-read,
}
use link_nest.Store.Users.{
  find_email, authenticate, find_slug, user_by_slug, find_session, user_by_session,
}
use link_nest.Store.Clicks.{find_public, link_for_tracking}
use link_nest.Store.Reads.{select, links_for_user, top_links, api_history}
use link_nest.Store.Rollup.{visitors}
use link_nest.Store.Rollup.Day.{of_user}
use link_nest.Store.Board.{daily, totals, dashboard, explain_indexes}

pub user_by_session-ReadOnly : (p : Platform) (id : Text) → ReadOnly (user_by_session p id)
unfolding user_by_session
user_by_session-ReadOnly p id =
    ReadOnly-read (λ w. find_session p id w.now w.tables.users w.tables.sessions)

pub user_by_slug-ReadOnly : (p : Platform) (name : Text) → ReadOnly (user_by_slug p name)
unfolding user_by_slug
user_by_slug-ReadOnly p name = ReadOnly-read (λ w. find_slug p name w.tables.users)

pub link_for_tracking-ReadOnly : (id : ℤ) → ReadOnly (link_for_tracking id)
unfolding link_for_tracking
link_for_tracking-ReadOnly id = ReadOnly-read (λ w. find_public id w.tables.links)

pub authenticate-ReadOnly :
    (p : Platform) (email password : Text) → ReadOnly (authenticate p email password)
unfolding authenticate
authenticate-ReadOnly p email password =
    let answer : UserRow → Db User = λ r.
      if check_password p r.password_hash password then pure (r.user) else fail (driver no_rows) in
    let found : Db UserRow = λ w. (find_email p email w.tables.users, w) in
    ReadOnly-bind call (λ _. found >>= answer) ReadOnly-call
      (λ _.
        ReadOnly-bind found answer (ReadOnly-lift (λ w. find_email p email w.tables.users)) (λ r.
          ReadOnly-choice (check_password p r.password_hash password) (pure (r.user))
            (fail (driver no_rows)) (ReadOnly-lift (λ _. ok (r.user)))
            (ReadOnly-lift (λ _. err (driver no_rows)))))

pub links_for_user-ReadOnly :
    (u : ℕ) (only_public : Bool) (limit after : ℤ)
    → ReadOnly (links_for_user u only_public limit after)
unfolding links_for_user
links_for_user-ReadOnly u only_public limit after = ReadOnly-query _

pub api_history-ReadOnly : (u : ℕ) (limit after : ℤ) → ReadOnly (api_history u limit after)
unfolding api_history
api_history-ReadOnly u limit after = ReadOnly-query _

pub explain_indexes-ReadOnly : (indexes : ℕ) → ReadOnly (explain_indexes indexes)
unfolding explain_indexes
explain_indexes-ReadOnly indexes =
    ReadOnly-bind call (λ _. pure _) ReadOnly-call (λ _. ReadOnly-pure _)

totals-ReadOnly : (p : Platform) (u : ℕ) → ReadOnly (totals p u)
unfolding totals
totals-ReadOnly p u =
    let counts : World → ℕ × ℕ =
      λ w. let mine = select (of_user u) w.tables.click_events in (length mine, visitors p mine) in
    ReadOnly-bind call (λ _. gets counts) ReadOnly-call (λ _. ReadOnly-gets counts)

pub dashboard-ReadOnly : (p : Platform) (u : User) → ReadOnly (dashboard p u)
unfolding dashboard top_links daily
dashboard-ReadOnly p u =
    ReadOnly-bind (links_for_user u.id false (pos 100) (pos 0)) _
      (links_for_user-ReadOnly u.id false (pos 100) (pos 0))
      (λ links. ReadOnly-bind (totals p u.id) _ (totals-ReadOnly p u.id) (λ counts.
        ReadOnly-bind (top_links u.id) _ (ReadOnly-query _)
          (λ top. ReadOnly-bind (daily u.id) _ (ReadOnly-query _) (λ days. ReadOnly-pure _))))
