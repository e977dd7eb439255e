-- ===== src/Store/Reach/OtherCalls.antt =====
-- The calls on accounts and sessions keep an invariant of the links and the click log; so does the
-- intake of a click if its statements do.
use mathlib.Core.Path.{subst, sym}
use link_nest.Base.{
  Option-cases, ℕ, ◌≡◌, refl, inl, inr, Bool, true, false, ◌==◌, map, arith, if◌then◌else◌,
  Bool-cases,
}
use link_nest.Text.{Text}
use link_nest.Text.Utf8.{trim_space}
use link_nest.Platform.{Platform}
use link_nest.Models.{User, ClickEvent, user, driver, Result, ok, err}
use link_nest.Auth.Session.{hash_password, new_session_id}
use link_nest.Store.World.{
  UserRow, SessionRow, Tables, World, Db, ◌>>=◌, ◌>>◌, pure, call, check, modify,
}
use link_nest.Store.Validate.{validate_signup, validate_names, validate_bio}
use link_nest.Store.Links.{lift, with_links}
use link_nest.Store.Clicks.{seen, insert_click, bumped, count_click, ingest_click}
use link_nest.Store.Users.{
  violation, insert_user, conflicting, create_user, update_profile, insert_session, session_taken,
  create_session, without_session, delete_session, new_user,
}
use link_nest.Store.Users.Sessions.{session}
use link_nest.Store.Reach.Steady.{
  Grown, Alike, Rule, Steady, Steady-bind, Steady-other, Steady-call, Steady-lift, Steady-check,
  Steady-modify, Steady-in_tx,
}
use link_nest.Store.Reach.Rules.{ClickRule, renamed, AccountRule}

module _ {I : World → Type 0} ⦃rule : Rule I⦄ (clicks : ClickRule I) where
  -- A click takes a new id, whether it is kept or not.
  Steady-insert_click : (p : Platform) (e : ClickEvent) → Steady I (insert_click p e)
  Steady-insert_click p e = record { steady = λ w h. (grown w, clicks.log p e w h) }
    where
      grown : (w : World) → Grown w (insert_click p e w).1
      grown w =
          unfold insert_click in
          elim (Bool-cases (seen p e.idempotency_key w.tables.click_events)) [
            | inl k ↦ rw k (record { user = omega arith; link = omega arith; event = omega arith })
            | inr k ↦ rw k (record { user = omega arith; link = omega arith; event = omega arith })
          ]

  Steady-count_click : (affected link_id : ℕ) → Steady I (count_click affected link_id)
  unfolding count_click
  Steady-count_click affected l =
      elim (affected == 1)
        as (λ b.
          Steady I (if b then call >> modify (λ w. with_links (map (bumped l)) w) else pure tt)) [
            | true ↦
                Steady-bind call (λ _. modify (λ w. with_links (map (bumped l)) w)) Steady-call
                  (λ _. Steady-modify (λ w. with_links (map (bumped l)) w) (clicks.bump l))
            | false ↦ Steady-lift (λ _. ok tt)
          ]

  pub Steady-ingest_click : (p : Platform) (e : ClickEvent) → Steady I (ingest_click p e)
  unfolding ingest_click
  Steady-ingest_click p e =
      let finish : ℕ → Db Bool = λ n. call >> pure (n == 1) in
      let count : ℕ → Db Bool = λ n. call >> (count_click n e.link_id >>= λ _. finish n) in
      Steady-in_tx _ (
        Steady-bind call (λ _. insert_click p e >>= count) Steady-call
          (λ _. Steady-bind (insert_click p e) count (Steady-insert_click p e) (λ n.
            Steady-bind call (λ _. count_click n e.link_id >>= λ _. finish n) Steady-call
              (λ _.
                Steady-bind (count_click n e.link_id) (λ _. finish n)
                  (Steady-count_click n e.link_id)
                  (λ _.
                    Steady-bind call (λ _. pure (n == 1)) Steady-call
                      (λ _. Steady-lift (λ _. ok (n == 1))))))))

conflicting-world : (p : Platform) {A : Type 0} (x : Result A × World) → (conflicting p x).1 ≡ x.1
unfolding conflicting
conflicting-world p (ok a, w) = refl
conflicting-world p (err (user e), w) = refl
conflicting-world p (err (driver e), w) = refl

module _ {I : World → Type 0} ⦃rule : Rule I⦄ (p : Platform) where
  module _ (accounts : AccountRule p I) where
    -- An account takes a new id, whether it is kept or not.
    Steady-insert_user : (r : UserRow) → Steady I (insert_user p r)
    Steady-insert_user r = record { steady = λ w h. (grown w, accounts.enrol r w h) }
      where
        grown : (w : World) → Grown w (insert_user p r w).1
        grown w =
            unfold insert_user in
            elim (Option-cases (violation p r w.tables.users)) [
              | inl k ↦
                  rw (k, insert_user)
                    (record { user = omega arith; link = omega arith; event = omega arith })
              | inr (e, k) ↦
                  rw (k, insert_user)
                    (record { user = omega arith; link = omega arith; event = omega arith })
            ]

    Steady-conflicting : {A : Type 0} (m : Db A) → Steady I m → Steady I (λ w. conflicting p (m w))
    Steady-conflicting m h = record {
      steady = λ w k. subst (λ v. Grown w v × I v) (sym (conflicting-world p (m w))) (h.steady w k);
    }

    pub Steady-create_user :
        (generate : Text → Result Text) (email password username first last : Text)
        → Steady I (create_user p generate email password username first last)
    unfolding create_user
    Steady-create_user generate email password username first last =
        let e = trim_space email in
        let n = trim_space username in
        let f = trim_space first in
        let l = trim_space last in
        let account = new_user p e n f l in
        let made : ℕ → Db User = λ id. pure (record account { id = id }) in
        let insertion : Text → Db ℕ = λ hash w.
          conflicting p
            ((call >> insert_user p (record { user = account; password_hash = hash })) w) in
        let opening : Text → Db User = λ hash. insertion hash >>= λ id. call >> made id in
        let hashed = hash_password generate password in
        Steady-bind (check (validate_signup p e n f l)) (λ _. lift hashed >>= opening)
          (Steady-check (validate_signup p e n f l))
          (λ _. Steady-bind (lift hashed) opening (Steady-lift (λ _. hashed)) (λ hash.
            let row : UserRow = record { user = account; password_hash = hash } in
            Steady-bind (insertion hash) (λ id. call >> made id)
              (Steady-conflicting (call >> insert_user p row) (
                Steady-bind call (λ _. insert_user p row) Steady-call
                  (λ _. Steady-insert_user row)))
              (λ id.
                Steady-bind call (λ _. made id) Steady-call
                  (λ _. Steady-lift (λ _. ok (record account { id = id }))))))

    pub Steady-update_profile :
        (u : ℕ) (first last bio : Text) → Steady I (update_profile p u first last bio)
    unfolding update_profile
    Steady-update_profile u first last bio =
        let f = trim_space first in
        let l = trim_space last in
        let b = trim_space bio in
        let change : World → Tables =
          λ w. record (w.tables) { users = map (renamed u f l b) w.tables.users } in
        Steady-bind (check (validate_names f l)) _ (Steady-check (validate_names f l)) (λ _.
          Steady-bind (check (validate_bio b)) _ (Steady-check (validate_bio b)) (λ _.
            Steady-bind call (λ _. modify change) Steady-call
              (λ _. Steady-modify change (accounts.rename u f l b))))

  Steady-insert_session : (s : SessionRow) → Steady I (insert_session p s)
  unfolding insert_session
  Steady-insert_session s = Steady-other (insert_session p s) same
    where
      same : (w : World) → Alike w (insert_session p s w).1
      same w = elim (Bool-cases (session_taken p s.id w.tables.sessions)) [
        | inl k ↦ rw (k) (record {
          user = refl;
          users = refl;
          link = refl;
          event = refl;
          links = refl;
          click_events = refl;
        })
        | inr k ↦ rw (k) (record {
          user = refl;
          users = refl;
          link = refl;
          event = refl;
          links = refl;
          click_events = refl;
        })
      ]

  pub Steady-create_session :
      (random : Result Text) (now u : ℕ) (ip ua : Text)
      → Steady I (create_session p random now u ip ua)
  unfolding create_session
  Steady-create_session random now u ip ua =
      let store : Text → Db Text = λ i. insert_session p (session p i now u ip ua) >> pure i in
      Steady-bind (lift (new_session_id random)) (λ i. call >> store i)
        (Steady-lift (λ _. new_session_id random))
        (λ i.
          Steady-bind call (λ _. store i) Steady-call
            (λ _.
              Steady-bind (insert_session p (session p i now u ip ua)) (λ _. pure i)
                (Steady-insert_session (session p i now u ip ua)) (λ _. Steady-lift (λ _. ok i))))

  pub Steady-delete_session : (id : Text) → Steady I (delete_session p id)
  unfolding delete_session
  Steady-delete_session id =
      let change : World → Tables =
        λ w. record (w.tables) { sessions = without_session p id w.tables.sessions } in
      Steady-bind call (λ _. modify change) Steady-call
        (λ _. Steady-other (modify change) (λ w. record {
          user = refl;
          users = refl;
          link = refl;
          event = refl;
          links = refl;
          click_events = refl;
        }))
