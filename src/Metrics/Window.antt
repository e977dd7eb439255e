-- ===== src/Metrics/Window.antt =====
-- The durations that are kept are the last 1024 of their name.
use link_nest.Base.{
  ℕ, zero, suc, ◌+◌, ◌-◌, ◌≤◌, ◌≡◌, refl, sym, ap, ◌∙◌, inl, inr, false, some, List, [], ◌∷◌, ◌++◌,
  arith, ltb, if◌then◌else◌, length, length-append, length-drop, drop, Bool-cases,
}
use mathlib.Core.List.{append_assoc, append-nil}
use link_nest.Text.{Text, equals, equals_refl, equals_sound}
use link_nest.Metrics.{get, put, list_or_empty, Registry, new_registry, window, observe}

module _ {V : Type 0} where
  pub get-put : (name : Text) (v : V) (m : List (Text × V)) → get name (put name v m) ≡ some v
  unfolding get put
  get-put name v [] = rw (equals_refl name) refl
  get-put name v ((k, w) ∷ m) = elim (Bool-cases (equals k name)) [
    | inl e ↦ rw e (rw e refl)
    | inr e ↦ rw e (rw e (get-put name v m))
  ]

  pub get-put_other :
      (name other : Text) (v : V) (m : List (Text × V))
      → equals other name ≡ false
      → get name (put other v m) ≡ get name m
  unfolding get put
  get-put_other name other v [] h = rw h refl
  get-put_other name other v ((k, w) ∷ m) h = elim (Bool-cases (equals k other)) [
    | inl e ↦
        let missed : equals k name ≡ false = rw (equals_sound k other e) h in rw e (rw missed refl)
    | inr e ↦ elim (Bool-cases (equals k name)) [
      | inl f ↦ rw e (rw f refl)
      | inr f ↦ rw e (rw f (get-put_other name other v m h))
    ]
  ]

drop-append : (k : ℕ) (xs ys : List ℕ) → k ≤ length xs → drop k (xs ++ ys) ≡ drop k xs ++ ys
drop-append zero xs ys h = refl
drop-append (suc k) [] ys h = absurd (omega arith)
drop-append (suc k) (x ∷ xs) ys h = drop-append k xs ys (omega arith)

drop-nil : (n : ℕ) → drop {A = ℕ} n [] ≡ []
drop-nil zero = refl
drop-nil (suc n) = refl

drop-drop : (a b : ℕ) (xs : List ℕ) → drop a (drop b xs) ≡ drop (b + a) xs
drop-drop a zero xs = ap (λ n. drop n xs) (omega arith)
drop-drop a (suc b) [] = drop-nil a ∙ sym (drop-nil (suc b + a))
drop-drop a (suc b) (x ∷ xs) =
    let e : suc (b + a) ≡ suc b + a = omega arith in drop-drop a b xs ∙ ap (λ n. drop n (x ∷ xs)) e

window-drop : (xs : List ℕ) → window xs ≡ drop (length xs - 1024) xs
unfolding window
window-drop xs = elim (Bool-cases (ltb 1024 (length xs))) [
  | inl e ↦ rw e refl
  | inr e ↦ let short : length xs - 1024 ≡ 0 = ground arith in rw (e, short) refl
]

-- Forgetting early or late is the same.
window-append : (xs : List ℕ) (d : ℕ) → window (window xs ++ d ∷ []) ≡ window (xs ++ d ∷ [])
window-append xs d = elim (Bool-cases (ltb 1024 (length xs))) [
  | inl e ↦
      let k = length xs - 1024 in
      let kept = drop k xs in
      let count : length (kept ++ d ∷ []) - 1024 ≡ 1 =
        ground (arith, length-append kept (d ∷ []), length-drop k xs) in
      let total : k + 1 ≡ length (xs ++ d ∷ []) - 1024 =
        ground (arith, length-append xs (d ∷ [])) in
      ap (λ ys. window (ys ++ d ∷ [])) (window-drop xs)
      ∙ window-drop (kept ++ d ∷ [])
      ∙ ap (λ n. drop n (kept ++ d ∷ [])) count
      ∙ ap (drop 1) (sym (drop-append k xs (d ∷ []) (omega arith)))
      ∙ drop-drop 1 k (xs ++ d ∷ [])
      ∙ ap (λ n. drop n (xs ++ d ∷ [])) total
      ∙ sym (window-drop (xs ++ d ∷ []))
  | inr e ↦ ap (λ ys. window (ys ++ d ∷ [])) (unfold window in rw e refl)
]

-- The durations kept under a name.
abbrev pub kept_of : Text → Registry → List ℕ
kept_of name r = list_or_empty (get name r.timings)

abbrev pub observe_all : List (Text × ℕ) → Registry → Registry
observe_all [] r = r
observe_all ((name, d) ∷ es) r = observe_all es (observe name d r)

-- The durations observed under a name.
abbrev pub durations_of : Text → List (Text × ℕ) → List ℕ
durations_of name [] = []
durations_of name ((k, d) ∷ es) =
    if equals k name then d ∷ durations_of name es else durations_of name es

kept_of-observe :
    (name : Text) (d : ℕ) (r : Registry)
    → kept_of name (observe name d r) ≡ window (kept_of name r ++ d ∷ [])
unfolding observe
kept_of-observe name d r = ap list_or_empty (get-put name _ (r.timings))

kept_of-observe_other :
    (name other : Text) (d : ℕ) (r : Registry)
    → equals other name ≡ false
    → kept_of name (observe other d r) ≡ kept_of name r
unfolding observe
kept_of-observe_other name other d r h = ap list_or_empty (get-put_other name other _ (r.timings) h)

kept_of-observe_all_from :
    (name : Text) (xs : List ℕ) (es : List (Text × ℕ)) (r : Registry)
    → kept_of name r ≡ window xs
    → kept_of name (observe_all es r) ≡ window (xs ++ durations_of name es)
kept_of-observe_all_from name xs [] r h = h ∙ ap window (sym (append-nil xs))
kept_of-observe_all_from name xs ((k, d) ∷ es) r h = elim (Bool-cases (equals k name)) [
  | inl e ↦
      let now : kept_of name (observe k d r) ≡ window (xs ++ d ∷ []) =
        rw (equals_sound k name e)
          (kept_of-observe name d r ∙ ap (λ ys. window (ys ++ d ∷ [])) h ∙ window-append xs d) in
      rw e (
        kept_of-observe_all_from name (xs ++ d ∷ []) es (observe k d r) now
        ∙ ap window (append_assoc xs (d ∷ []) (durations_of name es)))
  | inr e ↦
      rw e (
        kept_of-observe_all_from name xs es (observe k d r)
          (kept_of-observe_other name k d r e ∙ h))
]

-- Whatever is observed in a new registry, under whatever names and in whatever order: the durations
-- kept under a name are those observed under it without all but the last 1024, in order.
pub kept_of-observe_all :
    (name : Text) (es : List (Text × ℕ))
    → let ds = durations_of name es in
      kept_of name (observe_all es new_registry) ≡ drop (length ds - 1024) ds
unfolding new_registry get window
kept_of-observe_all name es =
    kept_of-observe_all_from name [] es new_registry refl ∙ window-drop (durations_of name es)
