-- ===== src/Auth/Click.antt =====
-- The key that identifies a click when the client sends none (auth/auth.go).
use link_nest.Base.{ℕ, ◌-◌, ◌%◌, ◌/◌, ◌≡◌, ap, ◌++◌, ◌∷◌, arith}
use mathlib.Core.List.{append_assoc}
use link_nest.Text.{Text}
use link_nest.Text.Base64.{encode}
use link_nest.Text.Decimal.{decimal}
use link_nest.Platform.{Platform}

module _ (p : Platform) where
  -- `now.UTC().Truncate(time.Minute).Format(time.RFC3339)`, with `now` in seconds.
  unfoldable pub minute_bucket : ℕ → Text
  minute_bucket now = p.rfc3339 (now - now % 60)

  raw_key : ℕ → Text → Text → Text → ℕ → Text
  raw_key link_id ip user_agent referrer now =
      decimal link_id
      ++ (b'|' ∷ (ip ++ (b'|' ∷ (user_agent ++ (b'|' ∷ (referrer ++ (b'|' ∷ minute_bucket now)))))))

  unfoldable pub idempotency_key : ℕ → Text → Text → Text → ℕ → Text
  unfolding raw_key
  idempotency_key link_id ip user_agent referrer now =
      let raw = raw_key link_id ip user_agent referrer now in encode (p.sha256 raw)

  minute_bucket-eq :
      (now later : ℕ) → now / 60 ≡ later / 60 → minute_bucket now ≡ minute_bucket later
  unfolding minute_bucket
  minute_bucket-eq now later h = ap p.rfc3339 (omega arith)

  -- Two clicks on a link within one minute of the clock, from the same address, browser and page,
  -- get the same key.
  pub idempotency_key_minute :
      (link_id : ℕ) (ip user_agent referrer : Text) (now later : ℕ)
      → now / 60 ≡ later / 60
      → idempotency_key link_id ip user_agent referrer now
        ≡ idempotency_key link_id ip user_agent referrer later
  unfolding idempotency_key
  idempotency_key_minute link_id ip user_agent referrer now later h =
      rw (minute_bucket-eq now later h)

  -- The fields of the key are joined by a bar that they may contain themselves: where a part of the
  -- browser's name is moved over to the referrer, two different clicks get the same key.
  pub idempotency_key_ambiguous :
      (link_id : ℕ) (ip a b c : Text) (now : ℕ)
      → idempotency_key link_id ip (a ++ (b'|' ∷ b)) c now
        ≡ idempotency_key link_id ip a (b ++ (b'|' ∷ c)) now
  unfolding idempotency_key
  idempotency_key_ambiguous link_id ip a b c now = simp append_assoc
