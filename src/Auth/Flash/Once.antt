-- ===== src/Auth/Flash/Once.antt =====
-- A flash message is shown once.
use link_nest.Base.{
  ℕ, ◌+◌, ◌≤◌, ◌≡◌, refl, ◌⊎◌, inl, inr, false, none, some, List, [], ◌∷◌, ◌++◌, ◌<◌, arith,
  All-append, ltb, Bool-cases, if◌then◌else◌,
}
use link_nest.Text.{Text, lit, IsBytes, equals}
use link_nest.Text.Base64.{encode, decode-encode}
use link_nest.Text.Cut.{Lacks, cut_at}
use link_nest.Web.{Jar, Held, receive, sent, find_cookie}
use link_nest.Web.Jars.{find_cookie-receive, find_cookie-receive_deleted}
use link_nest.Auth.Flash.{
  flash_cookie_name, flash_cookie, cleared_flash_cookie, read_flash, take_flash,
}

-- The kinds that the layout renders.
abbrev pub IsKind : Text → Type 0
IsKind kind = (kind ≡ lit "notice") ⊎ (kind ≡ lit "alert")

IsKind-IsBytes : {kind : Text} → IsKind kind → IsBytes kind × Lacks b'|' kind
IsKind-IsBytes (inl e) = rw e (omega arith, omega arith)
IsKind-IsBytes (inr e) = rw e (omega arith, omega arith)

read_flash-IsKind :
    {kind : Text} (message : Text)
    → IsKind kind
    → read_flash (some (kind, message)) ≡ some (record { kind = kind; message = message })
unfolding read_flash equals
read_flash-IsKind message (inl e) = rw e
read_flash-IsKind message (inr e) = rw e

take_flash-found :
    (jar : Jar) (kind message : Text)
    → IsKind kind
    → IsBytes message
    → find_cookie flash_cookie_name jar ≡ some (encode (kind ++ b'|' ∷ message))
    → take_flash jar ≡ (some (record { kind = kind; message = message }), cleared_flash_cookie ∷ [])
unfolding take_flash
take_flash-found jar kind message k h e =
    let (bytes, lacks) = IsKind-IsBytes k in
    let whole = All-append (λ b. b < 256) kind (b'|' ∷ message) bytes (omega arith, h) in
    rw (e, take_flash, decode-encode (kind ++ b'|' ∷ message) whole, cut_at b'|' kind message lacks)
      (rw (read_flash-IsKind message k))

take_flash-missing :
    (jar : Jar) → find_cookie flash_cookie_name jar ≡ none → take_flash jar ≡ (none, [])
unfolding take_flash
take_flash-missing jar e = rw (e, take_flash)

-- The page that a browser loads at the time `t` after a response at the time `now` set a message.
pub take_flash_shown :
    (now t : ℕ) (held : List Held) (kind message : Text)
    → IsKind kind
    → IsBytes message
    → take_flash (sent t (receive now held (flash_cookie kind message ∷ []))) ≡ (
        if ltb t (now + 60)
        then (some (record { kind = kind; message = message }), cleared_flash_cookie ∷ [])
        else (none, []))
unfolding flash_cookie
take_flash_shown now t held kind message k h =
    let shown = flash_cookie kind message in
    let jar = sent t (receive now held (shown ∷ [])) in
    let given = find_cookie-receive now t held shown 60 refl in
    elim (Bool-cases (ltb t (now + 60))) [
      | inl live ↦ rw live (take_flash-found jar kind message k h (rw live at given))
      | inr old ↦ rw old (take_flash-missing jar (rw old at given))
    ]

-- Whatever cookies the browser holds: after a response sets a message of one of the two kinds, the
-- next page shows exactly that message and clears the cookie if it is loaded within 60 seconds, and
-- shows none from then on; and the page after it, whenever it is loaded, shows none.
pub take_flash_once :
    (now t t' : ℕ) (held : List Held) (kind message : Text)
    → IsKind kind
    → IsBytes message
    → t ≤ t'
    → let held' = receive now held (flash_cookie kind message ∷ []) in
      let page = take_flash (sent t held') in
      (page ≡ (
        if ltb t (now + 60)
        then (some (record { kind = kind; message = message }), cleared_flash_cookie ∷ [])
        else (none, [])))
      × (take_flash (sent t' (receive t held' page.1)) ≡ (none, []))
unfolding flash_cookie cleared_flash_cookie receive
take_flash_once now t t' held kind message k h later =
    let set = flash_cookie kind message in
    let held' = receive now held (set ∷ []) in
    let first = take_flash_shown now t held kind message k h in
    (
      first,
      elim (Bool-cases (ltb t (now + 60))) [
        | inl live ↦
            let cleared = (rw live at first) in
            rw cleared (
              take_flash-missing _
                (find_cookie-receive_deleted t t' held' cleared_flash_cookie refl))
        | inr old ↦
            let nothing = (rw old at first) in
            let past : ltb t' (now + 60) ≡ false = ground arith in
            rw nothing
              (take_flash-missing _ (rw past at (find_cookie-receive now t' held set 60 refl)))
      ],
    )
