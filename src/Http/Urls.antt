-- ===== src/Http/Urls.antt =====
-- What `safeURL` makes of the text of a form.
use link_nest.Base.{◌≡◌, refl, ◌⊎◌, inl, inr, Bool, true, false, ◌||◌, ◌++◌, arith, if◌then◌else◌}
use link_nest.Text.{Text, lit, has_prefix}
use link_nest.Text.Utf8.{trim_space, to_lower}
use link_nest.Platform.{Platform}
use link_nest.Http.{safe_url}

abbrev pub IsSafe : Platform → Text → Type 0
IsSafe p url =
    ((has_prefix (to_lower p.lower url) (lit "http://")
        || has_prefix (to_lower p.lower url) (lit "https://")
        || has_prefix (to_lower p.lower url) (lit "mailto:")
        || has_prefix (to_lower p.lower url) (lit "tel:"))
      ≡ true)
    ⊎ (has_prefix url (lit "/") ≡ true)
    ⊎ (has_prefix url (lit "https://") ≡ true)

split_last :
    (a b c d e : Bool) → (a || b || c || d || e) ≡ true → ((a || b || c || d) ≡ true) ⊎ (e ≡ true)
split_last a b c d e h = ground arith

https_prefix : (value : Text) → has_prefix (lit "https://" ++ value) (lit "https://") ≡ true
unfolding has_prefix
https_prefix value = refl

-- Whatever a user types: what `safeURL` makes of it begins with "http://", "https://", "mailto:" or
-- "tel:" in some case of letters, or with "/", so that no other scheme reaches a page.
pub safe_url-IsSafe : (p : Platform) (input : Text) → IsSafe p (safe_url p input)
unfolding safe_url
safe_url-IsSafe p input =
    let value = trim_space input in
    let lower = to_lower p.lower value in
    let kept =
      has_prefix lower (lit "http://")
      || has_prefix lower (lit "https://")
      || has_prefix lower (lit "mailto:")
      || has_prefix lower (lit "tel:")
      || has_prefix value (lit "/") in
    chosen kept value (
      split_last (has_prefix lower (lit "http://")) (has_prefix lower (lit "https://"))
        (has_prefix lower (lit "mailto:")) (has_prefix lower (lit "tel:")) _)
  where
    chosen :
        (kept : Bool) (value : Text)
        → (kept ≡ true
            → ((has_prefix (to_lower p.lower value) (lit "http://")
                  || has_prefix (to_lower p.lower value) (lit "https://")
                  || has_prefix (to_lower p.lower value) (lit "mailto:")
                  || has_prefix (to_lower p.lower value) (lit "tel:"))
                ≡ true)
              ⊎ (has_prefix value (lit "/") ≡ true))
        → IsSafe p (if kept then value else lit "https://" ++ value)
    chosen true value h = elim (h refl) [ inl e ↦ inl e | inr e ↦ inr (inl e) ]
    chosen false value h = inr (inr (https_prefix value))
