-- ===== src/Store/Clicks/Once.antt =====
-- How recording a click can end, and that a key is counted once.
use link_nest.Base.{
  ℕ, suc, ◌≡◌, ◌≢◌, refl, ap, sym, ◌∙◌, inl, inr, Bool, true, false, List, [], ◌∷◌, ◌++◌, map,
  arith, ◌==◌, Bool-cases,
}
use mathlib.Core.List.{Memᴰ}
use link_nest.Text.{Text}
use link_nest.Platform.{Platform}
use link_nest.Models.{ClickEvent, Result, ok}
use link_nest.Store.World.{Tables, World, Db, pure, ◌>>◌, call}
use link_nest.Store.World.Atomic.{bind-ok, Unchanged, in_tx-Unchanged}
use link_nest.Store.World.Robust.{
  quiet, Robust, Robust-pure, Robust-modify, Robust-call, Robust-bind, Robust-in_tx, Faulted,
  Transacts, Transacts-of_Robust,
}
use link_nest.Store.World.Quiet.{in_tx-quiet_ok}
use link_nest.Store.Links.{with_links}
use link_nest.Store.Clicks.{seen, insert_click, bumped, count_click, ingest_click}

Robust-insert_click : (p : Platform) (event : ClickEvent) → Robust (insert_click p event)
unfolding insert_click
Robust-insert_click p event w =
    elim (Bool-cases (seen p event.idempotency_key w.tables.click_events)) [
      | inl e ↦ rw e (record { fewer = λ d h. h; outcome = inr refl })
      | inr e ↦ rw e (record { fewer = λ d h. h; outcome = inr refl })
    ]

Robust-count_click : (n id : ℕ) → Robust (count_click n id)
unfolding count_click
Robust-count_click n id = elim (Bool-cases (n == 1)) [
  | inl e ↦ rw e (
      Robust-bind call _ Robust-call
        (λ _. Robust-modify (λ w. with_links (map (bumped id)) w) (λ w. refl)))
  | inr e ↦ rw e (Robust-pure tt)
]

Robust-ingest_click : (p : Platform) (event : ClickEvent) → Robust (ingest_click p event)
unfolding ingest_click
Robust-ingest_click p event = Robust-in_tx _ (
    Robust-bind call _ Robust-call (λ _.
      Robust-bind (insert_click p event) _ (Robust-insert_click p event) (λ n.
        Robust-bind call _ Robust-call (λ _.
          Robust-bind (count_click n event.link_id) _ (Robust-count_click n event.link_id)
            (λ _. Robust-bind call _ Robust-call (λ _. Robust-pure (n == 1)))))))

ingest_click-Unchanged :
    (p : Platform) (event : ClickEvent) (w : World) → Unchanged w (ingest_click p event w)
unfolding ingest_click
ingest_click-Unchanged p event w = in_tx-Unchanged _ w

-- The tables with the event and its count.
abbrev pub recorded : ClickEvent → World → Tables
recorded event w = record (w.tables) {
  click_events = w.tables.click_events ++ record event { id = w.serials.event } ∷ [];
  links = map (bumped event.link_id) w.tables.links;
}

module _ (p : Platform) (event : ClickEvent) (w : World) where
  -- The counter has moved on.
  used : World
  used = record w { serials = record (w.serials) { event = suc w.serials.event } }

  appended : World
  appended = record used {
    tables = record (w.tables) {
      click_events = w.tables.click_events ++ record event { id = w.serials.event } ∷ [];
    };
  }

  after_insert : ℕ → Db Bool
  after_insert n = call >> (count_click n event.link_id >> (call >> pure (n == 1)))

  insert_click-seen :
      seen p event.idempotency_key w.tables.click_events ≡ true
      → insert_click p event (quiet w) ≡ (ok 0, quiet used)
  unfolding insert_click used
  insert_click-seen e = rw e

  insert_click-new :
      seen p event.idempotency_key w.tables.click_events ≡ false
      → insert_click p event (quiet w) ≡ (ok 1, quiet appended)
  unfolding insert_click used appended
  insert_click-new e = rw e

  ingest_click-quiet-seen :
      seen p event.idempotency_key w.tables.click_events ≡ true
      → ingest_click p event (quiet w) ≡ (ok false, quiet used)
  unfolding ingest_click count_click call after_insert
  ingest_click-quiet-seen e =
      in_tx-quiet_ok _ w used
        (bind-ok (insert_click p event) after_insert (quiet w) (insert_click-seen e))

  ingest_click-quiet_new :
      seen p event.idempotency_key w.tables.click_events ≡ false
      → ingest_click p event (quiet w)
        ≡ (ok true, quiet (record used { tables = recorded event w }))
  unfolding ingest_click count_click call after_insert appended used
  ingest_click-quiet_new e =
      in_tx-quiet_ok _ w (record used { tables = recorded event w })
        (bind-ok (insert_click p event) after_insert (quiet w) (insert_click-new e))

-- How `IngestClick` can end.
pub data Ingestion (p : Platform) (event : ClickEvent) (w : World) (x : Result Bool × World)
    : Type 0 where
  -- a driver error that was bound to come, and no change
  failed : Faulted w x → x.1.tables ≡ w.tables → Ingestion p event w x
  -- the key is known: nothing changes
  duplicate :
      seen p event.idempotency_key w.tables.click_events ≡ true
      → x.0 ≡ ok false
      → x.1.tables ≡ w.tables
      → Ingestion p event w x
  -- the event is appended, and counted on its link
  fresh :
      seen p event.idempotency_key w.tables.click_events ≡ false
      → x.0 ≡ ok true
      → x.1.tables ≡ recorded event w
      → Ingestion p event w x

module _ (p : Platform) (event : ClickEvent) (w : World) where
  ended :
      {result : Result Bool} {v : World}
      → ingest_click p event (quiet w) ≡ (result, v)
      → Transacts w (ingest_click p event w) result v.tables
  ended run =
      Transacts-of_Robust (ingest_click p event) w (Robust-ingest_click p event)
        (ingest_click-Unchanged p event w) (ap (λ x. x.0) run) (ap (λ x. x.1.tables) run)

  -- Whichever calls of the driver fail, recording a click ends in one of three ways: with an error
  -- that the driver was bound to report, and no change; with `false`, if the key is known, and no
  -- change; or with `true`, if the key is new, and then the event is appended and counted on its link.
  pub ingest_click-Ingestion : Ingestion p event w (ingest_click p event w)
  unfolding used
  ingest_click-Ingestion = elim (Bool-cases (seen p event.idempotency_key w.tables.click_events)) [
    | inl known ↦ elim (ended (ingest_click-quiet-seen p event w known)) [
      | inl (fault, same) ↦ failed fault same
      | inr (result, same) ↦ duplicate known result same
    ]
    | inr new ↦ elim (ended (ingest_click-quiet_new p event w new)) [
      | inl (fault, same) ↦ failed fault same
      | inr (result, written) ↦ fresh new result written
    ]
  ]

seen-append :
    (p : Platform) (key : Text) (es : List ClickEvent) (e : ClickEvent)
    → p.same e.idempotency_key key ≡ true
    → seen p key (es ++ e ∷ []) ≡ true
unfolding seen
seen-append p key [] e h = rw h
seen-append p key (d ∷ es) e h = ground (arith, seen-append p key es e h)

-- A known key is not recorded.
not_recorded :
    {p : Platform} {event : ClickEvent} {w : World} {x : Result Bool × World}
    → Ingestion p event w x
    → seen p event.idempotency_key w.tables.click_events ≡ true
    → (x.0 ≢ ok true) × (x.1.tables ≡ w.tables)
not_recorded (failed (e, listed, result) same) known = (λ r. cc, same)
not_recorded (duplicate k result same) known = (λ r. cc, same)
not_recorded (fresh new result written) known = cc

-- After a run without error the key is known.
seen-Ingestion :
    {p : Platform} {event : ClickEvent} {w : World} {x : Result Bool × World} (inserted : Bool)
    → ((s : Text) → p.same s s ≡ true)
    → Ingestion p event w x
    → x.0 ≡ ok inserted
    → seen p event.idempotency_key x.1.tables.click_events ≡ true
seen-Ingestion inserted same_refl (failed (e, listed, result) same) done = cc
seen-Ingestion {p} {event} inserted same_refl (duplicate known result same) done =
    ap (λ (t : Tables). seen p event.idempotency_key t.click_events) same ∙ known
seen-Ingestion {p} {event} {w} inserted same_refl (fresh new result written) done =
    ap (λ (t : Tables). seen p event.idempotency_key t.click_events) written
    ∙ seen-append p event.idempotency_key w.tables.click_events
        (record event { id = w.serials.event }) (same_refl event.idempotency_key)

-- A log knows the key of each of its events, and of no others.
Memᴰ-seen :
    (p : Platform) (key : Text) (es : List ClickEvent)
    → seen p key es ≡ true
    → (e : ClickEvent) × Memᴰ e es × (p.same e.idempotency_key key ≡ true)
unfolding seen
Memᴰ-seen p key [] h = cc
Memᴰ-seen p key (e ∷ es) h = elim (Bool-cases (p.same e.idempotency_key key)) [
  | inl same ↦ (e, Memᴰ.head refl, same)
  | inr other ↦ let (f, m, same) = Memᴰ-seen p key es (rw other at h) in (f, Memᴰ.tail m, same)
]

seen-Memᴰ :
    (p : Platform) (key : Text) (e : ClickEvent) {es : List ClickEvent}
    → Memᴰ e es
    → p.same e.idempotency_key key ≡ true
    → seen p key es ≡ true
unfolding seen
seen-Memᴰ p key e (Memᴰ.head {x} {xs} here) same =
    let found : p.same x.idempotency_key key ≡ true =
      ap (λ (f : ClickEvent). p.same f.idempotency_key key) (sym here) ∙ same in
    rw found refl
seen-Memᴰ p key e (Memᴰ.tail {x} {xs} m) same = let rest = seen-Memᴰ p key e m same in ground arith

-- If the database holds every text equal to itself: once a click has been recorded or found known, a
-- retry with the same key is not recorded and changes no table, in every later state whose log still
-- has the events that it had then, whatever else the retry carries, whatever has happened in between
-- and whichever calls of the driver fail.
pub ingest_click_once :
    (p : Platform) (event retry : ClickEvent) (w later : World) (inserted : Bool)
    → ((s : Text) → p.same s s ≡ true)
    → retry.idempotency_key ≡ event.idempotency_key
    → (ingest_click p event w).0 ≡ ok inserted
    → ((e : ClickEvent)
        → Memᴰ e (ingest_click p event w).1.tables.click_events
        → Memᴰ e later.tables.click_events)
    → ((ingest_click p retry later).0 ≢ ok true)
      × ((ingest_click p retry later).1.tables ≡ later.tables)
ingest_click_once p event retry w later inserted same_refl key done lasting =
    let es = (ingest_click p event w).1.tables.click_events in
    let (e, m, same) =
      Memᴰ-seen p event.idempotency_key es
        (seen-Ingestion inserted same_refl (ingest_click-Ingestion p event w) done) in
    not_recorded (ingest_click-Ingestion p retry later) (
      ap (λ k. seen p k later.tables.click_events) key
      ∙ seen-Memᴰ p event.idempotency_key e (lasting e m) same)
