-- ===== src/Auth/Tests.antt =====
-- Runs of the definitions of auth on examples, and its theorems at such inputs.
use link_nest.Base.{
  ◌+◌, ◌≡◌, refl, ◌↔◌, ◌⊎◌, inr, true, none, some, [], ◌∷◌, ◌++◌, arith, ltb, if◌then◌else◌,
}
use link_nest.Text.{lit}
use link_nest.Text.Cut.{Lacks}
use link_nest.Platform.Sample.{sample}
use link_nest.Web.{Held, receive, sent}
use link_nest.Auth.Slug.{slug}
use link_nest.Auth.Slug.Shape.{IsSlug, slug-IsSlug}
use link_nest.Auth.Slug.Fixed.{slug_idempotent}
use link_nest.Auth.Session.{sign, verify}
use link_nest.Auth.Session.Signing.{verify_iff}
use link_nest.Auth.Flash.{flash_cookie, cleared_flash_cookie, take_flash}
use link_nest.Auth.Flash.Once.{take_flash_once}
use link_nest.Auth.Click.{idempotency_key, idempotency_key_ambiguous}

slug-IsSlug_example :
    (slug sample (lit "  Ada.Lovelace!") ≡ []) ⊎ IsSlug (slug sample (lit "  Ada.Lovelace!"))
slug-IsSlug_example = slug-IsSlug sample (lit "  Ada.Lovelace!")

slug_idempotent_example : slug sample (slug sample (lit "_A b_")) ≡ slug sample (lit "_A b_")
slug_idempotent_example = slug_idempotent sample (lit "_A b_")

verify_iff_example :
    (verify sample (lit "id.c2VjaWQ") (lit "sec") ≡ (lit "id", true))
    ↔ (Lacks b'.' (lit "id") × (lit "id.c2VjaWQ" ≡ sign sample (lit "id") (lit "sec")))
verify_iff_example = verify_iff sample (lit "id.c2VjaWQ") (lit "sec") (lit "id")

abbrev old : Held
old = record { name = lit "linknest_flash"; value = lit "old"; until = some 20 }

take_flash_once_example :
    let held = receive 10 (old ∷ []) (flash_cookie (lit "alert") (lit "a|b") ∷ []) in
    let page = take_flash (sent 12 held) in
    (page ≡ (
      if ltb 12 (10 + 60)
      then (some (record { kind = lit "alert"; message = lit "a|b" }), cleared_flash_cookie ∷ [])
      else (none, [])))
    × (take_flash (sent 15 (receive 12 held page.1)) ≡ (none, []))
take_flash_once_example =
    take_flash_once 10 12 15 (old ∷ []) (lit "alert") (lit "a|b") (inr refl) (omega arith)
      (omega arith)

idempotency_key_ambiguous_example :
    idempotency_key sample 7 (lit "ip") (lit "x" ++ (b'|' ∷ lit "y")) (lit "z") 0
    ≡ idempotency_key sample 7 (lit "ip") (lit "x") (lit "y" ++ (b'|' ∷ lit "z")) 0
idempotency_key_ambiguous_example =
    idempotency_key_ambiguous sample 7 (lit "ip") (lit "x") (lit "y") (lit "z") 0
