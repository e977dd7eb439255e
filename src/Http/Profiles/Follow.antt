-- ===== src/Http/Profiles/Follow.antt =====
-- A client of `apiEvents` in http/server.go that asks for page after page.
use link_nest.Base.{
  ℕ, ℤ, pos, negsuc, zero, suc, ltb, inl, inr, Bool-cases, false, ◌==◌, ◌<◌, ◌≤◌, ◌≡◌, refl, ap,
  sym, ◌∙◌, Option, none, some, List, [], ◌∷◌, ◌++◌, arith, All, All-mp, length, length-drop_le,
  take, drop, take-drop,
}
use Prim.Native.Nat.{◌^◌}
use mathlib.Core.Path.{subst}
use mathlib.Core.Option
use link_nest.Text.{Text, lit}
use link_nest.Text.Decimal.{decimal, parse_int, value_of}
use link_nest.Text.Decimal.Trip.{parse_int-decimal}
use link_nest.Models.{User, ClickEvent}
use link_nest.Store.World.{World, query}
use link_nest.Store.World.Robust.{quiet}
use link_nest.Store.World.Quiet.{query-quiet}
use link_nest.Store.Reads.{page_limit, is_history, history, api_history}
use link_nest.Store.Reach.{Reachable}
use link_nest.Store.Reach.Logged.{Ascends, All-select_kept, Reachable-IsLogged}
use link_nest.Http.{Request, next_after}
use link_nest.Http.Pages.{Server, Response, Json, events_json, status_json}
use link_nest.Http.Profiles.{listed, api_events}
use link_nest.Http.Profiles.Paging.{later, history-later, later-drop, next_after-All}

-- What the client makes of an answer: it asks for the next page until one is empty, and gives up when
-- it cannot read the answer.
unfoldable pub joined : (Text → Option (List ClickEvent)) → Option Json → Option (List ClickEvent)
joined ask none = none
joined ask (some (status_json summary)) = none
joined ask (some (events_json [] next)) = some []
joined ask (some (events_json (e ∷ es) next)) =
    Option.map (λ rest. (e ∷ es) ++ rest) (ask (decimal next))

module _ (s : Server) (decode : Text → Option Json) (r : Text → Request) (u : User) where
  -- All that a client reads with at most so many requests; `r after` is the request for the page after
  -- `after`.
  unfoldable pub follow : ℕ → Text → World → Option (List ClickEvent)
  unfolding joined
  follow zero after w = none
  follow (suc requests) after w =
      let (answer, w') = api_events s (r after) u w in
      joined (λ next. follow requests next w') (decode answer.body)

abbrev pub after_of : Text → ℤ
after_of after = value_of (parse_int after)

-- The client can read what the server writes of the pages of this log.
abbrev pub ReadsBack : Server → (Text → Option Json) → User → List ClickEvent → Type 0
ReadsBack s decode u es =
    (limit after : ℤ)
    → let page =
        events_json (history u.id limit after es) (next_after (history u.id limit after es)) in
      decode (s.encode page) ≡ some page

pub page_limit-suc : (limit : ℤ) → (m : ℕ) × (page_limit limit ≡ suc m)
unfolding page_limit
page_limit-suc (negsuc n) = (49, refl)
page_limit-suc (pos zero) = (49, refl)
page_limit-suc (pos (suc n)) =
    let some_rows : (suc n == 0) ≡ false = ground arith in
    elim (Bool-cases (ltb 100 (suc n))) [
      | inl e ↦ (49, rw (some_rows, e) refl)
      | inr e ↦ (n, rw (some_rows, e) refl)
    ]

module _ (s : Server) (decode : Text → Option Json) (r : Text → Request) (u : User)
    (asks : (after : Text) → (r after).query (lit "after") ≡ after) where
  -- An answer on a database that does not fail.
  follow-joined :
      (requests : ℕ) (after : Text) (w : World)
      → ReadsBack s decode u w.tables.click_events
      → let es =
          history u.id
            (after_of ((r after).query (lit "limit")))
            (after_of after)
            w.tables.click_events in
        follow s decode r u (suc requests) after (quiet w)
        ≡ joined
            (λ next. follow s decode r u requests next (quiet w))
            (some (events_json es (next_after es)))
  unfolding follow api_events api_history
  follow-joined requests after w read_back =
      let es = w.tables.click_events in
      let given = r after in
      let limit = after_of (given.query (lit "limit")) in
      let page = history u.id limit (after_of after) es in
      let next : Text → World → Option (List ClickEvent) =
        λ a v. follow s decode r u requests a v in
      let asked : follow s decode r u (suc requests) after (quiet w)
          ≡ answered next (
              listed s given (
                query (λ v. history u.id limit (after_of after) v.tables.click_events) (quiet w))) =
        rw (asks after) refl in
      asked
      ∙ ap (λ x. answered next (listed s given x))
          (query-quiet (λ v. history u.id limit (after_of after) v.tables.click_events) w)
      ∙ ap (joined (λ a. next a (quiet w))) (read_back limit (after_of after))
    where
      answered :
          (Text → World → Option (List ClickEvent)) → Response × World → Option (List ClickEvent)
      answered next (answer, v) = joined (λ a. next a v) (decode (answer.body))

  follow-later :
      (requests : ℕ) (after : Text) (w : World)
      → ReadsBack s decode u w.tables.click_events
      → Ascends w.tables.click_events
      → All (λ (e : ClickEvent). e.id < 2 ^ 63) w.tables.click_events
      → length (later u.id (after_of after) w.tables.click_events) < requests
      → follow s decode r u requests after (quiet w)
        ≡ some (later u.id (after_of after) w.tables.click_events)
  unfolding value_of
  follow-later zero after w read_back a small enough = absurd (omega arith)
  follow-later (suc requests) after w read_back a small enough =
      let es = w.tables.click_events in
      let limit = after_of ((r after).query (lit "limit")) in
      let (m, full) = page_limit-suc limit in
      let page : history u.id limit (after_of after) es
          ≡ take (suc m) (later u.id (after_of after) es) =
        history-later u.id limit (after_of after) es a
        ∙ ap (λ n. take n (later u.id (after_of after) es)) full in
      follow-joined requests after w read_back
      ∙ ap
          (λ page.
            joined (λ next. follow s decode r u requests next (quiet w))
              (some (events_json page (next_after page))))
          page
      ∙ rest (λ next. follow-later requests next w read_back a small) m
          (later u.id (after_of after) es) refl
    where
      rest :
          ((next : Text)
            → length (later u.id (after_of next) w.tables.click_events) < requests
            → follow s decode r u requests next (quiet w)
              ≡ some (later u.id (after_of next) w.tables.click_events))
          → (m : ℕ) (xs : List ClickEvent) → later u.id (after_of after) w.tables.click_events ≡ xs
          → joined
              (λ next. follow s decode r u requests next (quiet w))
              (some (events_json (take (suc m) xs) (next_after (take (suc m) xs))))
            ≡ some xs
      rest go_on m [] e = unfold joined in refl
      rest go_on m (x ∷ xs) e =
          let es = w.tables.click_events in
          let page = take (suc m) (x ∷ xs) in
          let n = next_after page in
          let fits : n < 2 ^ 63 =
            next_after-All (λ i. i < 2 ^ 63) m x xs
              (subst (All (λ (f : ClickEvent). f.id < 2 ^ 63)) e
                (All-select_kept _ (is_history u.id (after_of after)) es small)) in
          let read : after_of (decimal n) ≡ pos n = ap value_of (parse_int-decimal n fits) in
          let left : later u.id (after_of (decimal n)) es ≡ drop (suc m) (x ∷ xs) =
            ap (λ a. later u.id a es) read ∙ later-drop u.id m (after_of after) es x xs a e in
          let fewer : length (later u.id (after_of (decimal n)) es) < requests =
            subst (λ l. length l < requests) (sym left)
              (omega (arith, ap length e, length-drop_le m xs)) in
          let others = go_on (decimal n) fewer in
          unfold joined in
          ap (Option.map (λ rest. page ++ rest)) (others ∙ ap some left)
          ∙ ap some (take-drop (suc m) (x ∷ xs))

-- In every state that can be reached, with ids below 2^63, while the log stays as it is and no call of
-- the driver fails: a client that can read the server's answers and asks `apiEvents` for the click
-- events after some id, and then for those after the `next_after` of each page, until a page is
-- empty, and that may make more requests than there are such events, ends with exactly the user's
-- events after that id, each once, in the order of their ids, whatever limits it asks for.
pub follow-Reachable :
    (s : Server) (decode : Text → Option Json) (r : Text → Request) (u : User)
    → ((after : Text) → (r after).query (lit "after") ≡ after)
    → (w : World) → ReadsBack s decode u w.tables.click_events
    → Reachable s.platform w
    → w.serials.event ≤ 2 ^ 63
    → (requests : ℕ) (after : Text)
    → length (later u.id (after_of after) w.tables.click_events) < requests
    → follow s decode r u requests after (quiet w)
      ≡ some (later u.id (after_of after) w.tables.click_events)
follow-Reachable s decode r u asks w read_back reached few requests after enough =
    let h = Reachable-IsLogged s.platform reached in
    follow-later s decode r u asks requests after w read_back (h.ascends)
      (All-mp _ _ w.tables.click_events (λ e (p, q). omega arith) (h.given)) enough
