-- ===== src/Store/Users/Accounts.antt =====
-- A new account can be signed in to, and its public page is found.
use link_nest.Base.{
  ℕ, ◌≡◌, refl, sym, ap, ◌∙◌, inl, inr, Bool, true, false, Option, none, some, List, [], ◌∷◌, ◌++◌,
  All, if◌then◌else◌, Option-cases, Bool-cases, All-mp, ltb, length,
}
use mathlib.Core.Path.{subst}
use link_nest.Text.{Text}
use link_nest.Text.Utf8.{trim_space}
use link_nest.Platform.{Platform}
use link_nest.Models.{User, UserError, user, driver, no_rows, Result, ok, err, ok-inj, err-ok}
use link_nest.Auth.Session.{hash_password, check_password}
use link_nest.Store.World.{UserRow, Tables, World, Db, call, check, pure, fail, ◌>>=◌, ◌>>◌}
use link_nest.Store.World.Atomic.{bind-ok}
use link_nest.Store.World.Robust.{quiet}
use link_nest.Store.World.Runs.{Passed, bind_inv, Passed-call-tables}
use link_nest.Store.Links.{lift}
use link_nest.Store.Validate.{validate_signup}
use link_nest.Store.Users.{
  violation, insert_user, conflicting, new_user, create_user, find_email, authenticate, find_slug,
  user_by_slug,
}
use link_nest.Store.Users.Unique.{Apart, violation-Apart}

abbrev result_of : {A : Type 0} → Result A × World → Result A
result_of x = x.0

abbrev tables_of : {A : Type 0} → Result A × World → Tables
tables_of x = x.1.tables

abbrev pub with_id : UserRow → ℕ → UserRow
with_id r id = record r { user = record (r.user) { id = id } }

-- What a successful `CreateUser` has done: it has appended this row.
pub record Opened (p : Platform) (generate : Text → Result Text) (password : Text) (w v : World)
    (u : User) : Type 0 where
  pub row : UserRow
  pub account : row.user ≡ u
  pub hashed : hash_password generate password ≡ ok (row.password_hash)
  pub apart : All (λ r. Apart p r row) w.tables.users
  pub stored : v.tables ≡ record (w.tables) { users = w.tables.users ++ row ∷ [] }

Passed-check-tables :
    (o : Option UserError) {w : World} (s : Passed (check o) w) → s.after.tables ≡ w.tables
Passed-check-tables none s = ap tables_of (sym (s.run))
Passed-check-tables (some e) s = absurd (err-ok (ap result_of (s.run)))

hash_password-ok :
    (generate : Text → Result Text) (password hash : Text)
    → hash_password generate password ≡ ok hash
    → generate password ≡ ok hash
unfolding hash_password
hash_password-ok generate password hash h = elim (Bool-cases (ltb (length password) 8)) [
  | inl e ↦ absurd (err-ok (rw e at h))
  | inr e ↦ rw e at h
]

not_same : {a b : Bool} → (a ≡ true → b ≡ true) → b ≡ false → a ≡ false
not_same {a = true} h e = let k = h refl in cc
not_same {a = false} h e = refl

module _ (p : Platform) where
  conflicting-inv :
      {A : Type 0} (x : Result A × World) (a : A) (v : World)
      → conflicting p x ≡ (ok a, v)
      → x ≡ (ok a, v)
  unfolding conflicting
  conflicting-inv (ok b, w) a v e = e
  conflicting-inv (err (user d), w) a v e = absurd (err-ok (ap result_of e))
  conflicting-inv (err (driver d), w) a v e = absurd (err-ok (ap result_of e))

  insert_user-inv :
      (r : UserRow) (w v : World) (id : ℕ)
      → insert_user p r w ≡ (ok id, v)
      → All (λ s. Apart p s r) w.tables.users
        × (v.tables ≡ record (w.tables) { users = w.tables.users ++ with_id r id ∷ [] })
  unfolding insert_user
  insert_user-inv r w v id done = elim (Option-cases (violation p r w.tables.users)) [
    | inl fresh ↦
        let e = rw (fresh, insert_user) at done in
        (
          violation-Apart p r w.tables.users fresh,
          ap tables_of (sym e)
              ∙ ap (λ i. record (w.tables) { users = w.tables.users ++ with_id r i ∷ [] })
                  (ok-inj (ap result_of e)),
        )
    | inr (d, violated) ↦ absurd (err-ok (ap result_of (rw (violated, insert_user) at done)))
  ]

  module _ (generate : Text → Result Text) (email password username first last : Text) (w v : World)
      (u : User) where
    create_user-Opened :
        create_user p generate email password username first last w ≡ (ok u, v)
        → Opened p generate password w v u
    unfolding create_user
    create_user-Opened done =
        let email' = trim_space email in
        let username' = trim_space username in
        let first' = trim_space first in
        let last' = trim_space last in
        let account = new_user p email' username' first' last' in
        let finish : ℕ → Db User = λ id. call >> pure (record account { id = id }) in
        let row : Text → UserRow = λ hash. record { user = account; password_hash = hash } in
        let insert : Text → Db ℕ = λ hash x. conflicting p ((call >> insert_user p (row hash)) x) in
        let (checked, e₁) =
          bind_inv (check (validate_signup p email' username' first' last'))
            (λ _. lift (hash_password generate password) >>= λ hash. insert hash >>= finish) w
            done in
        let (hashed, e₂) =
          bind_inv (lift (hash_password generate password)) (λ hash. insert hash >>= finish)
            (checked.after) e₁ in
        let (inserted, e₃) = bind_inv (insert (hashed.value)) finish (hashed.after) e₂ in
        let (named, e₄) =
          bind_inv call (λ _. pure (record account { id = inserted.value })) (inserted.after) e₃ in
        let (began, e₅) =
          bind_inv call (λ _. insert_user p (row (hashed.value))) (hashed.after)
            (conflicting-inv _ (inserted.value) (inserted.after) (inserted.run)) in
        let (apart, stored) =
          insert_user-inv (row (hashed.value)) (began.after) (inserted.after) (inserted.value) e₅ in
        let before : began.after.tables ≡ w.tables =
          Passed-call-tables began
          ∙ ap tables_of (sym (hashed.run))
          ∙ Passed-check-tables _ checked in
        let new = with_id (row (hashed.value)) (inserted.value) in
        record {
          row = new;
          account = ok-inj (ap result_of e₄);
          hashed = ap result_of (hashed.run);
          apart = subst (λ (x : Tables). All (λ r. Apart p r new) x.users) before apart;
          stored =
              ap tables_of (sym e₄)
              ∙ Passed-call-tables named
              ∙ stored
              ∙ ap (λ (x : Tables). record x { users = x.users ++ new ∷ [] }) before;
        }

  find_slug-append :
      (name : Text) (rows : List UserRow) (s : UserRow)
      → p.same s.user.slug name ≡ true
      → All (λ r. p.same r.user.slug name ≡ false) rows
      → find_slug p name (rows ++ s ∷ []) ≡ ok (s.user)
  unfolding find_slug
  find_slug-append name [] s h a = rw h refl
  find_slug-append name (r ∷ rows) s h (e, a) = rw e (find_slug-append name rows s h a)

  find_email-append :
      (email : Text) (rows : List UserRow) (s : UserRow)
      → p.same_lower s.user.email email ≡ true
      → All (λ r. p.same_lower r.user.email email ≡ false) rows
      → find_email p email (rows ++ s ∷ []) ≡ ok s
  unfolding find_email
  find_email-append email [] s h a = rw h refl
  find_email-append email (r ∷ rows) s h (e, a) = rw e (find_email-append email rows s h a)

  find_slug-Opened :
      {generate : Text → Result Text} {password : Text} {w v : World} {u : User}
      → ((s : Text) → p.same s s ≡ true)
      → (o : Opened p generate password w v u) → find_slug p u.slug v.tables.users ≡ ok u
  find_slug-Opened {w} {v} {u} same_refl o =
      let slugs : All (λ r. p.same r.user.slug o.row.user.slug ≡ false) w.tables.users =
        All-mp _ _ w.tables.users (λ r (a : Apart p r (o.row)). a.2) (o.apart) in
      ap (λ (x : Tables). find_slug p u.slug x.users) (o.stored)
      ∙ ap (λ (x : User). find_slug p x.slug (w.tables.users ++ o.row ∷ [])) (sym (o.account))
      ∙ find_slug-append o.row.user.slug w.tables.users (o.row) (same_refl o.row.user.slug) slugs
      ∙ ap ok (o.account)

  find_email-Opened :
      {generate : Text → Result Text} {password : Text} {w v : World} {u : User}
      → ((s t : Text) → p.same_lower s t ≡ true → p.same s t ≡ true)
      → ((s : Text) → p.same_lower s s ≡ true)
      → (o : Opened p generate password w v u) → find_email p u.email v.tables.users ≡ ok (o.row)
  find_email-Opened {w} {v} {u} insensitive same_refl o =
      let emails : All (λ r. p.same_lower r.user.email o.row.user.email ≡ false) w.tables.users =
        All-mp _ _ w.tables.users
          (λ r (a : Apart p r (o.row)). not_same (insensitive r.user.email o.row.user.email) (a.0))
          (o.apart) in
      ap (λ (x : Tables). find_email p u.email x.users) (o.stored)
      ∙ ap (λ (x : User). find_email p x.email (w.tables.users ++ o.row ∷ [])) (sym (o.account))
      ∙ find_email-append o.row.user.email w.tables.users (o.row) (same_refl o.row.user.email)
          emails

-- If the database holds every text equal to itself: once `CreateUser` has returned an account,
-- `UserBySlug` finds this account under its public name, if no call of the driver fails.
pub create_user-user_by_slug :
    (p : Platform) (generate : Text → Result Text) (email password username first last : Text)
    (w v : World) (u : User)
    → ((s : Text) → p.same s s ≡ true)
    → create_user p generate email password username first last w ≡ (ok u, v)
    → (user_by_slug p u.slug (quiet v)).0 ≡ ok u
unfolding user_by_slug call
create_user-user_by_slug p generate email password username first last w v u same_refl done =
    find_slug-Opened p same_refl
      (create_user-Opened p generate email password username first last w v u done)

-- If bcrypt accepts the passwords of its own hashes, and the database ignores case where it compares
-- emails for its unique key: once `CreateUser` has returned an account, `Authenticate` with its email
-- and the password returns this account, if no call of the driver fails.
pub create_user-authenticate :
    (p : Platform) (generate : Text → Result Text) (email password username first last : Text)
    (w v : World) (u : User)
    → ((hash : Text) → generate password ≡ ok hash → p.password_matches hash password ≡ true)
    → ((s t : Text) → p.same_lower s t ≡ true → p.same s t ≡ true)
    → ((s : Text) → p.same_lower s s ≡ true)
    → create_user p generate email password username first last w ≡ (ok u, v)
    → (authenticate p u.email password (quiet v)).0 ≡ ok u
unfolding authenticate call
create_user-authenticate p generate email password username first last w v u law insensitive
      same_refl done =
    let o = create_user-Opened p generate email password username first last w v u done in
    let matches : check_password p (o.row.password_hash) password ≡ true =
      unfold check_password in
      law (o.row.password_hash) (hash_password-ok generate password _ (o.hashed)) in
    let found = find_email-Opened p insensitive same_refl o in
    ap result_of (
      bind-ok (λ x. (find_email p u.email x.tables.users, x))
        (λ r.
          if check_password p r.password_hash password
          then pure (r.user)
          else fail (driver no_rows))
        (quiet v) (ap (λ r. (r, quiet v)) found))
    ∙ rw matches (ap ok (o.account))
