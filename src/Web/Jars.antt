-- ===== src/Web/Jars.antt =====
-- A browser sends back the cookie that it was last given, until it expires, and not one that was
-- deleted.
use link_nest.Base.{
  ℕ, ◌+◌, ◌≡◌, refl, inl, inr, false, none, some, List, [], ◌∷◌, ltb, Bool-cases, if◌then◌else◌,
}
use link_nest.Text.{Text, equals, equals_refl, equals_sound}
use link_nest.Web.{
  MaxAge, unset, delete_now, seconds, Cookie, Held, find_cookie, forget, expiry, keep, receive,
  lasts, sent,
}

find_cookie-forget :
    (t : ℕ) (name : Text) (held : List Held) → find_cookie name (sent t (forget name held)) ≡ none
unfolding find_cookie forget sent
find_cookie-forget t name [] = refl
find_cookie-forget t name (h ∷ hs) = elim (Bool-cases (equals h.name name)) [
  | inl e ↦ rw e (find_cookie-forget t name hs)
  | inr e ↦ elim (Bool-cases (lasts t h.until)) [
    | inl live ↦ rw (e, live, e) (find_cookie-forget t name hs)
    | inr old ↦ rw (e, old) (find_cookie-forget t name hs)
  ]
]

-- The cookie that was given last is in front.
find_cookie-front :
    (t : ℕ) (c : Held) (hs : List Held)
    → find_cookie c.name (sent t (c ∷ forget c.name hs))
      ≡ (if lasts t c.until then some c.value else none)
unfolding find_cookie sent
find_cookie-front t c hs = elim (Bool-cases (lasts t c.until)) [
  | inl live ↦ rw (live, equals_refl)
  | inr old ↦ rw old (find_cookie-forget t c.name hs)
]

module _ (now t : ℕ) (held : List Held) (c : Cookie) where
  pub find_cookie-receive :
      (n : ℕ)
      → c.max_age ≡ seconds n
      → find_cookie c.name (sent t (receive now held (c ∷ [])))
        ≡ (if ltb t (now + n) then some c.value else none)
  unfolding receive
  find_cookie-receive n h =
      rw (h, keep, expiry)
        (find_cookie-front t (record { name = c.name; value = c.value; until = some (now + n) })
          held)

  pub find_cookie-receive_deleted :
      c.max_age ≡ delete_now → find_cookie c.name (sent t (receive now held (c ∷ []))) ≡ none
  unfolding receive
  find_cookie-receive_deleted h = rw (h, keep) (find_cookie-forget t c.name held)

  pub find_cookie-receive_until :
      (end : ℕ)
      → c.max_age ≡ unset
      → c.expires ≡ some end
      → find_cookie c.name (sent t (receive now held (c ∷ [])))
        ≡ (if ltb t end then some c.value else none)
  unfolding receive
  find_cookie-receive_until end h e =
      rw (h, keep, expiry, e)
        (find_cookie-front t (record { name = c.name; value = c.value; until = some end }) held)

find_cookie-forget_other :
    (t : ℕ) (name other : Text) (held : List Held)
    → equals other name ≡ false
    → find_cookie name (sent t (forget other held)) ≡ find_cookie name (sent t held)
unfolding find_cookie forget sent
find_cookie-forget_other t name other [] h = refl
find_cookie-forget_other t name other (k ∷ hs) h =
    let ih = find_cookie-forget_other t name other hs h in
    elim (Bool-cases (equals k.name other)) [
      | inl e ↦
          let apart : equals k.name name ≡ false = rw (equals_sound k.name other e) h in
          elim (Bool-cases (lasts t k.until)) [
            | inl live ↦ rw (e, live, apart) ih
            | inr old ↦ rw (e, old) ih
          ]
      | inr e ↦ elim (Bool-cases (lasts t k.until)) [
        | inl live ↦ elim (Bool-cases (equals k.name name)) [
          | inl here ↦ rw (e, live, here) refl
          | inr there ↦ rw (e, live, there) ih
        ]
        | inr old ↦ rw (e, old) ih
      ]
    ]

find_cookie-front_other :
    (t : ℕ) (name : Text) (c : Held) (hs : List Held)
    → equals c.name name ≡ false
    → find_cookie name (sent t (c ∷ forget c.name hs)) ≡ find_cookie name (sent t hs)
unfolding find_cookie sent
find_cookie-front_other t name c hs h =
    let rest = find_cookie-forget_other t name c.name hs h in
    elim (Bool-cases (lasts t c.until)) [ inl live ↦ rw (live, h) rest | inr old ↦ rw old rest ]

-- Cookies of other names stay.
pub find_cookie-receive_other :
    (now t : ℕ) (held : List Held) (c : Cookie) (name : Text)
    → equals c.name name ≡ false
    → find_cookie name (sent t (receive now held (c ∷ []))) ≡ find_cookie name (sent t held)
unfolding receive keep
find_cookie-receive_other now t held c name h = kept c.max_age
  where
    kept :
        (age : MaxAge)
        → find_cookie name (sent t (keep now c held age)) ≡ find_cookie name (sent t held)
    kept delete_now = find_cookie-forget_other t name c.name held h
    kept unset = find_cookie-front_other t name _ held h
    kept (seconds n) = find_cookie-front_other t name _ held h
