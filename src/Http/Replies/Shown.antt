-- ===== src/Http/Replies/Shown.antt =====
-- What a user reads after a form was handled.
use link_nest.Base.{
  ℕ, ◌+◌, ◌≡◌, refl, ap, inl, inr, none, some, List, [], ◌∷◌, arith, ltb, Bool-cases, if◌then◌else◌,
}
use link_nest.Text.{Text, lit, IsBytes}
use link_nest.Models.{
  UserError, err_email_taken, err_username_taken, err_invalid_email, err_invalid_username,
  err_name_required, err_name_too_long, err_bio_too_long, err_title_required, err_title_too_long,
  err_invalid_link_url, err_link_not_found, err_link_at_edge, err_password_too_short, user, driver,
  Result, ok, err,
}
use link_nest.Web.{Held, receive, sent}
use link_nest.Auth.Flash.{Flash, flash_cookie, take_flash}
use link_nest.Auth.Flash.Once.{IsKind, take_flash_shown}
use link_nest.Http.Replies.{message_of, user_message, flash_result}

message_of-IsBytes : (e : UserError) → IsBytes (message_of e)
unfolding message_of
message_of-IsBytes err_email_taken = omega arith
message_of-IsBytes err_username_taken = omega arith
message_of-IsBytes err_invalid_email = omega arith
message_of-IsBytes err_invalid_username = omega arith
message_of-IsBytes err_name_required = omega arith
message_of-IsBytes err_name_too_long = omega arith
message_of-IsBytes err_bio_too_long = omega arith
message_of-IsBytes err_title_required = omega arith
message_of-IsBytes err_title_too_long = omega arith
message_of-IsBytes err_invalid_link_url = omega arith
message_of-IsBytes err_link_not_found = omega arith
message_of-IsBytes err_link_at_edge = omega arith
message_of-IsBytes err_password_too_short = omega arith

-- What the page should show: of an error, a driver's text nowhere.
abbrev pub expected : Result (Unit {0}) → Text → Text → Flash
expected (ok _) success failure = record { kind = lit "notice"; message = success }
expected (err (user e)) success failure = record { kind = lit "alert"; message = message_of e }
expected (err (driver e)) success failure = record { kind = lit "alert"; message = failure }

-- If the texts of the handler are made of bytes: the page after the redirect, if it is loaded within
-- the 60 seconds that the message lasts, shows the success text as a notice, the text of an error that
-- is written for a person as an alert, and for any error of the driver the handler's own failure text;
-- a page that is loaded later shows none.
pub flash_result_shown :
    (now t : ℕ) (held : List Held) (result : Result (Unit {0})) (success failure : Text)
    → IsBytes success
    → IsBytes failure
    → (take_flash (sent t (receive now held (flash_result result success failure ∷ [])))).0
      ≡ (if ltb t (now + 60) then some (expected result success failure) else none)
unfolding flash_result user_message
flash_result_shown now t held result success failure s f = go result
  where
    of :
        (kind message : Text)
        → IsKind kind
        → IsBytes message
        → (take_flash (sent t (receive now held (flash_cookie kind message ∷ [])))).0
          ≡ (if ltb t (now + 60) then some (record { kind = kind; message = message }) else none)
    of kind message k h =
        let first = take_flash_shown now t held kind message k h in
        elim (Bool-cases (ltb t (now + 60))) [
          | inl live ↦ rw live (ap (λ x. x.0) (rw live at first))
          | inr old ↦ rw old (ap (λ x. x.0) (rw old at first))
        ]

    go :
        (result : Result (Unit {0}))
        → (take_flash (sent t (receive now held (flash_result result success failure ∷ [])))).0
          ≡ (if ltb t (now + 60) then some (expected result success failure) else none)
    go (ok _) = of (lit "notice") success (inl refl) s
    go (err (user e)) = of (lit "alert") (message_of e) (inr refl) (message_of-IsBytes e)
    go (err (driver e)) = of (lit "alert") failure (inr refl) f
