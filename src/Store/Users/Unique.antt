-- ===== src/Store/Users/Unique.antt =====
-- No two accounts share an email, a username or a public name.
use link_nest.Base.{
  ◌≡◌, refl, sym, inl, inr, false, none, List, [], ◌∷◌, ◌++◌, arith, All, Option-cases,
}
use mathlib.Core.Path.{subst}
use link_nest.Text.{Text}
use link_nest.Platform.{Platform}
use link_nest.Models.{user, driver, Result, ok, err}
use link_nest.Store.World.{UserRow, Tables, World, Db, call, check, ◌>>◌}
use link_nest.Text.Utf8.{trim_space}
use link_nest.Auth.Session.{hash_password}
use link_nest.Store.Links.{lift}
use link_nest.Store.Validate.{validate_signup}
use link_nest.Store.World.Runs.{Keeps, Keeps-bind, Keeps-call, Keeps-check, Keeps-lift}
use link_nest.Store.Users.{taken, violation, insert_user, conflicting, create_user, new_user}

module _ (p : Platform) where
  -- Two rows violate no unique key.
  abbrev pub Apart : UserRow → UserRow → Type 0
  Apart r s =
      (p.same r.user.email s.user.email ≡ false)
      × (p.same r.user.username s.user.username ≡ false)
      × (p.same r.user.slug s.user.slug ≡ false)

  abbrev pub Unique : List UserRow → Type 0
  Unique [] = Unit
  Unique (r ∷ rows) = All (Apart r) rows × Unique rows

  pub violation-Apart :
      (r : UserRow) (rows : List UserRow) → violation p r rows ≡ none → All (λ s. Apart s r) rows
  unfolding violation taken
  violation-Apart r [] h = tt
  violation-Apart r (s ∷ rows) h = (ground arith, violation-Apart r rows (ground arith))

  All-Apart-append :
      (r s : UserRow) (rows : List UserRow)
      → All (Apart r) rows
      → Apart r s
      → All (Apart r) (rows ++ s ∷ [])
  All-Apart-append r s [] h a = (a, tt)
  All-Apart-append r s (t ∷ rows) (b, h) a = (b, All-Apart-append r s rows h a)

  pub Unique-append :
      (s : UserRow) (rows : List UserRow)
      → Unique rows
      → All (λ r. Apart r s) rows
      → Unique (rows ++ s ∷ [])
  Unique-append s [] h a = (tt, tt)
  Unique-append s (r ∷ rows) (b, h) (c, a) =
      (All-Apart-append r s rows b c, Unique-append s rows h a)

  abbrev UniqueUsers : Tables → Type 0
  UniqueUsers t = Unique t.users

  insert_user-Unique : (r : UserRow) → Keeps UniqueUsers (insert_user p r)
  unfolding insert_user
  insert_user-Unique r = record {
    keep = λ w h. elim (Option-cases (violation p r w.tables.users)) [
      | inl fresh ↦
          rw (fresh, insert_user)
            (Unique-append (record r { user = record (r.user) { id = w.serials.user } })
              w.tables.users h (violation-Apart r w.tables.users fresh))
      | inr (e, violated) ↦ rw (violated, insert_user) h
    ];
  }

  conflicting-tables : {A : Type 0} (x : Result A × World) → (conflicting p x).1.tables ≡ x.1.tables
  unfolding conflicting
  conflicting-tables (ok a, w) = refl
  conflicting-tables (err (user e), w) = refl
  conflicting-tables (err (driver e), w) = refl

  Keeps-conflicting :
      {A : Type 0} (m : Db A) → Keeps UniqueUsers m → Keeps UniqueUsers (λ w. conflicting p (m w))
  Keeps-conflicting m kept = record {
    keep = λ w h. subst UniqueUsers (sym (conflicting-tables (m w))) (kept.keep w h);
  }

create_user-Keeps :
    (p : Platform) (generate : Text → Result Text) (email password username first last : Text)
    → Keeps (UniqueUsers p) (create_user p generate email password username first last)
unfolding create_user
create_user-Keeps p generate email password username first last =
    let P : Tables → Type 0 = UniqueUsers p in
    let email' = trim_space email in
    let username' = trim_space username in
    let first' = trim_space first in
    let last' = trim_space last in
    let account = new_user p email' username' first' last' in
    Keeps-bind P (check (validate_signup p email' username' first' last')) _ (Keeps-check P _) (λ _.
      Keeps-bind P (lift (hash_password generate password)) _ (Keeps-lift P _) (λ hash.
        let row : UserRow = record { user = account; password_hash = hash } in
        let insert = call >> insert_user p row in
        Keeps-bind P (λ w. conflicting p (insert w)) _
          (Keeps-conflicting p insert
            (Keeps-bind P call _ (Keeps-call P) (λ _. insert_user-Unique p row)))
          (λ id. Keeps-bind P call _ (Keeps-call P) (λ _. Keeps-lift P _))))

-- If no two accounts share an email, a username or a public name, under the equality of the
-- database, none do after a run of `CreateUser`, whether it succeeds or not.
pub create_user-Unique :
    (p : Platform) (generate : Text → Result Text) (email password username first last : Text)
    (w : World)
    → Unique p w.tables.users
    → Unique p (create_user p generate email password username first last w).1.tables.users
create_user-Unique p generate email password username first last w h =
    (create_user-Keeps p generate email password username first last).keep w h
