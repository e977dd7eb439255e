-- ===== src/Http/Profiles/Tests.antt =====
-- A client that reads the click log of a small history of calls.
use link_nest.Base.{
  ℕ, ℤ, pos, negsuc, zero, suc, ◌<◌, ◌⊎◌, ap, ◌∙◌, length, take, ◌≡◌, refl, inl, inr, true, Option,
  none, some, List, [], ◌∷◌, arith, ltb, Bool-cases, if◌then◌else◌,
}
use mathlib.Core.Path.{subst, sym}
use mathlib.Core.List.{flatten}
use link_nest.Text.{Text, lit, equals, drop_while_end, drop_while, has_prefix}
use link_nest.Text.Utf8.{trim_space, units_from}
use link_nest.Platform.Sample.{sample}
use link_nest.Models.{User, ClickEvent, ok}
use link_nest.Store.World.{World, in_tx, call}
use link_nest.Store.Links.{create_link}
use link_nest.Store.Validate.{validate_link}
use link_nest.Store.Clicks.{ingest_click, insert_click, count_click}
use link_nest.Store.World.Robust.{quiet}
use link_nest.Store.Reads.{select, history}
use link_nest.Store.Reach.{create, click, run_op, fresh, ran, Reachable, begun, next}
use link_nest.Http.{Request, next_after}
use link_nest.Http.Pages.{Server, Json, events_json, status_json}
use link_nest.Http.Profiles.Follow.{follow, page_limit-suc, after_of, ReadsBack, follow-Reachable}
use link_nest.Http.Profiles.Paging.{later, history-later}

abbrev bob : User
bob = record {
  id = 7;
  email = lit "b";
  username = lit "bob";
  slug = lit "bob";
  first_name = lit "B";
  last_name = lit "C";
  bio = [];
  profile_color = [];
}

abbrev event : ClickEvent
event = record {
  id = 1;
  idempotency_key = lit "k";
  user_id = 7;
  link_id = 1;
  referrer = [];
  user_agent = [];
  ip_address = [];
  country_code = [];
  device_type = [];
  browser_name = [];
  event_time = 50;
}

-- Pages of that event alone.
abbrev encode_page : Json → Text
encode_page (events_json [] after) = lit "[]"
encode_page (events_json (e ∷ es) after) = lit "[1]"
encode_page (status_json summary) = []

abbrev decode_page : Text → Option Json
decode_page s =
    if equals s (lit "[1]")
    then some (events_json (event ∷ []) 1)
    else if equals s (lit "[]")
    then some (events_json [] 0)
    else none

abbrev server : Server
server = record {
  platform = sample;
  cfg = record {
    addr = [];
    database_url = [];
    session_secret = lit "key";
    max_open_conns = pos 1;
    max_idle_conns = pos 1;
    conn_max_lifetime = 0;
  };
  execute = λ name page. some name;
  encode = encode_page;
  status_text = λ _. [];
  generate = λ password. ok password;
  indexes = 0;
}

abbrev request : Text → Request
request after = record {
  path = lit "/api/events";
  cookies = [];
  parses = true;
  form = λ _. [];
  query = λ name. if equals name (lit "after") then after else lit "10";
  header = λ _. [];
  host = lit "x.org";
  is_tls = true;
  remote_addr = lit "1.2.3.4:5";
  remote_host = some (lit "1.2.3.4");
}

abbrev clicked : World
clicked =
    run_op sample (click event)
      (run_op sample (create 7 (lit "Home") (lit "/home") true) (fresh 100 []))

clicked-Reachable : Reachable sample clicked
clicked-Reachable =
    next (next (begun 100 []) (ran (create 7 (lit "Home") (lit "/home") true))) (ran (click event))

clicked_log : clicked.tables.click_events ≡ event ∷ []
unfolding run_op ingest_click in_tx call create_link validate_link trim_space flatten drop_while_end
    drop_while units_from has_prefix insert_click count_click
clicked_log = refl

clicked_serial : clicked.serials.event ≡ 2
unfolding run_op ingest_click in_tx call create_link validate_link trim_space flatten drop_while_end
    drop_while units_from has_prefix insert_click count_click
clicked_serial = refl

abbrev IsRead : List ClickEvent → Type 0
IsRead page =
    decode_page (encode_page (events_json page (next_after page)))
    ≡ some (events_json page (next_after page))

-- What is asked of the log is the event or nothing.
later-cases :
    (after : ℤ) → (later 7 after (event ∷ []) ≡ event ∷ []) ⊎ (later 7 after (event ∷ []) ≡ [])
unfolding select
later-cases (negsuc n) = inl refl
later-cases (pos n) = elim (Bool-cases (ltb n 1)) [
  | inl e ↦ inl (rw e refl)
  | inr e ↦ inr (rw e refl)
]

event-ReadsBack : ReadsBack server decode_page bob (event ∷ [])
unfolding next_after equals
event-ReadsBack limit after =
    let (m, full) = page_limit-suc limit in
    let page : history 7 limit after (event ∷ []) ≡ take (suc m) (later 7 after (event ∷ [])) =
      history-later 7 limit after (event ∷ []) (tt, tt)
      ∙ ap (λ n. take n (later 7 after (event ∷ []))) full in
    subst IsRead (sym page) (elim (later-cases after) [
      | inl e ↦ subst (λ es. IsRead (take (suc m) es)) (sym e) (one m)
      | inr e ↦ subst (λ es. IsRead (take (suc m) es)) (sym e) refl
    ])
  where
    one : (m : ℕ) → IsRead (take (suc m) (event ∷ []))
    one zero = unfold next_after equals in refl
    one (suc m) = unfold next_after equals in refl

later-short : (after : ℤ) → length (later 7 after (event ∷ [])) < 2
later-short after = elim (later-cases after) [
  | inl e ↦ omega (arith, ap length e)
  | inr e ↦ omega (arith, ap length e)
]

follow-Reachable_example :
    follow server decode_page request bob 2 (lit "0") (quiet clicked)
    ≡ some (later 7 (after_of (lit "0")) clicked.tables.click_events)
unfolding equals
follow-Reachable_example =
    follow-Reachable server decode_page request bob (λ after. refl) clicked
      (subst (ReadsBack server decode_page bob) (sym clicked_log) event-ReadsBack) clicked-Reachable
      (omega (arith, clicked_serial)) 2 (lit "0")
      (subst (λ es. length (later 7 (after_of (lit "0")) es) < 2) (sym clicked_log)
        (later-short (after_of (lit "0"))))
