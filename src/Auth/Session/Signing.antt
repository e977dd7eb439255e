-- ===== src/Auth/Session/Signing.antt =====
-- A signed value is accepted exactly if it was signed with the secret.
use link_nest.Base.{
  ◌≡◌, refl, ap, ◌∙◌, ◌↔◌, ◌≢◌, Bool, true, ◌∷◌, ◌++◌, All-mp, Option-cases, inl, inr,
}
use link_nest.Text.{Text, equals, equals_sound, equals_refl, cut, IsBytes}
use link_nest.Text.Base64.{encode, encode-IsLetter, IsLetter}
use link_nest.Text.Cut.{Lacks, cut_at, cut-eq-some}
use link_nest.Platform.{Platform}
use link_nest.Models.{ok-inj, ok}
use link_nest.Auth.Session.{sign, verify, new_session_id, signature_of}

-- A fresh session identifier holds no dot.
pub Lacks-new_session_id :
    (body id : Text) → IsBytes body → new_session_id (ok body) ≡ ok id → Lacks b'.' id
unfolding new_session_id
Lacks-new_session_id body id h e =
    let same : encode body ≡ id = ok-inj e in
    rw (← same)
      (All-mp IsLetter (λ c. c ≢ b'.') (encode body) (λ c l. l.0) (encode-IsLetter body h))

module _ (p : Platform) where
  signature_of-sign :
      (secret value : Text)
      → Lacks b'.' value
      → signature_of p (sign p value secret) ≡ encode (p.hmac secret value)
  unfolding sign
  signature_of-sign secret value h =
      rw (cut_at b'.' value (encode (p.hmac secret value)) h, signature_of)

  pub verify-sign :
      (secret value : Text)
      → Lacks b'.' value
      → verify p (sign p value secret) secret ≡ (value, true)
  unfolding verify sign
  verify-sign secret value h = rw (
    cut_at b'.' value (encode (p.hmac secret value)) h,
    verify,
    signature_of-sign secret value h,
    equals_refl,
  )

  verify_sound :
      (signed secret value : Text)
      → verify p signed secret ≡ (value, true)
      → Lacks b'.' value × (signed ≡ sign p value secret)
  unfolding verify
  verify_sound signed secret value e = elim (Option-cases (cut b'.' signed)) [
    | inl missed ↦ cc (rw (missed, verify) at e)
    | inr (found, e') ↦
        let (lacks, split) = cut-eq-some b'.' signed found.0 found.1 e' in
        let e'' : ◌≡◌ {A = Text × Bool}
            (found.0, equals found.1 (signature_of p (sign p found.0 secret))) (value, true) =
          rw (e', verify) at e in
        let v : found.0 ≡ value = ap (λ x. x.0) e'' in
        let s : found.1 ≡ encode (p.hmac secret found.0) =
          equals_sound _ _ (ap (λ x. x.1) e'') ∙ signature_of-sign secret found.0 lacks in
        rw (← v) (lacks, split ∙ ap (λ x. found.0 ++ b'.' ∷ x) s ∙ unfold sign in refl)
  ]

  -- The program accepts a cookie's text, and reads the value from it, exactly if the value holds no
  -- dot and the text is that value signed with the secret.
  pub verify_iff :
      (signed secret value : Text)
      → (verify p signed secret ≡ (value, true))
        ↔ (Lacks b'.' value × (signed ≡ sign p value secret))
  unfolding verify
  verify_iff signed secret value =
      (verify_sound signed secret value, λ h. rw (h.1) (verify-sign secret value h.0))

  -- A fresh session identifier is read back from its own cookie, whatever the secret.
  pub verify-new_session_id :
      (secret body id : Text)
      → IsBytes body
      → new_session_id (ok body) ≡ ok id
      → verify p (sign p id secret) secret ≡ (id, true)
  unfolding new_session_id
  verify-new_session_id secret body id h e =
      verify-sign secret id (Lacks-new_session_id body id h e)
