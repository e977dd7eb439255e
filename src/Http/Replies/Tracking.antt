-- ===== src/Http/Replies/Tracking.antt =====
-- A request that tracks a click, from the path to the database.
use link_nest.Base.{
  ℕ, ℤ, ◌≡◌, refl, ap, sym, ◌∙◌, ◌⊎◌, inl, inr, Bool, true, false, Option, none, some, some-inj,
  none-ne-some, if◌then◌else◌,
}
use link_nest.Text.{Text, lit}
use link_nest.Platform.{Platform}
use link_nest.Models.{Link, ClickEvent, DriverError, Result, ok, err, err-ok}
use link_nest.Auth.Slug.{is_empty}
use link_nest.Auth.Click.{idempotency_key}
use link_nest.Metrics.{Registry, inc}
use link_nest.Store.World.{World}
use link_nest.Store.World.Robust.{quiet, Listed, Faulted}
use link_nest.Store.Reads.Quiet.{link_for_tracking-ReadOnly}
use link_nest.Store.Clicks.{seen, find_public, link_for_tracking, ingest_click}
use link_nest.Store.Clicks.Once.{
  recorded, Ingestion, failed, duplicate, fresh, ingest_click-Ingestion,
}
use link_nest.Store.Clicks.Open.{
  IsOpen, find_public-IsOpen, IsOpen-found, Robust-link_for_tracking, link_for_tracking-found,
}
use link_nest.Http.{Request, link_id, client_ip}
use link_nest.Http.Replies.{click_of, counted, tracked, track_link, track_id, track_click}

-- The event says who clicked on the link, and when.
pub record Describes (p : Platform) (r : Request) (now : ℕ) (link : Link) (event : ClickEvent)
    : Type 0 where
  pub link_id : event.link_id ≡ link.id
  pub user_id : event.user_id ≡ link.user_id
  pub time : event.event_time ≡ now
  pub address : event.ip_address ≡ client_ip r
  pub agent : event.user_agent ≡ r.header (lit "User-Agent")
  pub referrer : event.referrer ≡ r.header (lit "Referer")
  pub key : event.idempotency_key ≡ (
      if is_empty (r.header (lit "Idempotency-Key"))
      then idempotency_key p link.id
          (client_ip r)
          (r.header (lit "User-Agent"))
          (r.header (lit "Referer"))
          now
      else r.header (lit "Idempotency-Key"))

-- How a request can end that tracks a click: with a status, the metrics and the database.
pub data Tracked (p : Platform) (r : Request) (path : Text) (now : ℕ) (m : Registry) (w : World)
    (x : ℕ × Registry × World) : Type 0 where
  -- no public link has the id in the path
  closed :
      ((id : ℤ) (link : Link) → link_id path ≡ some id → IsOpen id w.tables.links link → ⊥)
      → x.0 ≡ 404
      → x.1 ≡ m
      → x.2.tables ≡ w.tables
      → Tracked p r path now m w x
  -- the driver fails while the link is read, or while the click is recorded
  broke :
      (e : DriverError)
      → Listed e w.faults
      → (x.0 ≡ 404) ⊎ (x.0 ≡ 500)
      → x.1 ≡ m
      → x.2.tables ≡ w.tables
      → Tracked p r path now m w x
  -- a click that is known
  repeated :
      (id : ℤ) (link : Link) (event : ClickEvent)
      → link_id path ≡ some id
      → IsOpen id w.tables.links link
      → Describes p r now link event
      → seen p event.idempotency_key w.tables.click_events ≡ true
      → x.0 ≡ 202
      → x.1 ≡ inc (lit "linknest_click_events_deduplicated_total") 1 m
      → x.2.tables ≡ w.tables
      → Tracked p r path now m w x
  -- a new click, which is appended to the log and counted on the link
  taken :
      (id : ℤ) (link : Link) (event : ClickEvent)
      → link_id path ≡ some id
      → IsOpen id w.tables.links link
      → Describes p r now link event
      → seen p event.idempotency_key w.tables.click_events ≡ false
      → x.0 ≡ 202
      → x.1 ≡ inc (lit "linknest_click_events_ingested_total") 1 m
      → x.2.tables ≡ recorded event w
      → Tracked p r path now m w x

click_of-Describes :
    (p : Platform) (r : Request) (link : Link) (now : ℕ)
    → Describes p r now link (click_of p r link now)
unfolding click_of
click_of-Describes p r link now = record {
  link_id = refl;
  user_id = refl;
  time = refl;
  address = refl;
  agent = refl;
  referrer = refl;
  key = refl;
}

module _ (p : Platform) (r : Request) (path : Text) (now : ℕ) (m : Registry) (w : World) where
  -- A click on a link, in the world after the link was read.
  tracked-Tracked :
      (id : ℤ) (link : Link) (v : World)
      → link_id path ≡ some id
      → IsOpen id w.tables.links link
      → ((e : DriverError) → Listed e v.faults → Listed e w.faults)
      → quiet v ≡ quiet w
      → (y : Result Bool × World) → Ingestion p (click_of p r link now) v y
      → Tracked p r path now m w (tracked y m)
  unfolding counted
  tracked-Tracked id link v n opened fewer same (res, u) (failed (e, listed, h) kept) =
      broke e (fewer e listed) (inr (ap (λ z. (counted z m).0) h)) (ap (λ z. (counted z m).1) h)
        (kept ∙ ap (λ (x : World). x.tables) same)
  tracked-Tracked id link v n opened fewer same (res, u) (duplicate known h kept) =
      repeated id link (click_of p r link now) n opened (click_of-Describes p r link now)
        (ap (λ (x : World). seen p (click_of p r link now).idempotency_key x.tables.click_events)
            (sym same)
          ∙ known)
        (ap (λ z. (counted z m).0) h) (ap (λ z. (counted z m).1) h)
        (kept ∙ ap (λ (x : World). x.tables) same)
  tracked-Tracked id link v n opened fewer same (res, u) (fresh new h kept) =
      taken id link (click_of p r link now) n opened (click_of-Describes p r link now)
        (ap (λ (x : World). seen p (click_of p r link now).idempotency_key x.tables.click_events)
            (sym same)
          ∙ new)
        (ap (λ z. (counted z m).0) h) (ap (λ z. (counted z m).1) h)
        (kept ∙ ap (recorded (click_of p r link now)) same)

  track_link-Tracked :
      (id : ℤ) (x : Result Link × World)
      → link_id path ≡ some id
      → link_for_tracking id w ≡ x
      → quiet x.1 ≡ quiet w
      → ((e : DriverError) → Listed e x.1.faults → Listed e w.faults)
      → Faulted w x ⊎ (x.0 ≡ find_public id w.tables.links)
      → Tracked p r path now m w (track_link p r now x m)
  track_link-Tracked id (err d, v) n e same fewer (inl (f, listed, result)) =
      broke f listed (inl refl) refl (ap (λ (x : World). x.tables) same)
  track_link-Tracked id (err d, v) n e same fewer (inr found) =
      closed
        (λ i link n' opened.
          let one : i ≡ id = some-inj (sym n' ∙ n) in
          let (l, e') = IsOpen-found i w.tables.links link opened in
          err-ok (found ∙ ap (λ j. find_public j w.tables.links) (sym one) ∙ e'))
        refl refl (ap (λ (x : World). x.tables) same)
  track_link-Tracked id (ok link, v) n e same fewer (inl (f, listed, result)) = cc
  track_link-Tracked id (ok link, v) n e same fewer (inr found) =
      tracked-Tracked id link v n (find_public-IsOpen id w.tables.links link (sym found)) fewer same
        (ingest_click p (click_of p r link now) v)
        (ingest_click-Ingestion p (click_of p r link now) v)

  track_id-Tracked :
      (o : Option ℤ) → link_id path ≡ o → Tracked p r path now m w (track_id p r now o m w)
  track_id-Tracked none n = closed (λ i link n' opened. none-ne-some _ (sym n ∙ n')) refl refl refl
  track_id-Tracked (some id) n =
      track_link-Tracked id (link_for_tracking id w) n refl ((link_for_tracking-ReadOnly id).same w)
        ((Robust-link_for_tracking id w).fewer) (link_for_tracking-found id w)

  -- A request that tracks a click ends in one of four ways, whatever its path and headers and
  -- whichever calls of the driver fail. With status 404, if no public link has the id in the path; with
  -- 404 or 500, if the driver fails; with 202 and one more deduplicated event in the metrics, if the
  -- key of the click is in the log: each time, no table changes. Or with 202 and one more ingested
  -- event, if the key is new: then the event is appended to the log, and counted on its link. The
  -- event is one of a public link with the id in the path, and of its owner, with the address, the
  -- browser, the page and the time of the request, and has the key that the request gives or that is
  -- made of these.
  pub track_click-Tracked : Tracked p r path now m w (track_click p r path now m w)
  unfolding track_click
  track_click-Tracked = track_id-Tracked (link_id path) refl
