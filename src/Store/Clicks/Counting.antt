-- ===== src/Store/Clicks/Counting.antt =====
-- The counter of a link agrees with the log of clicks.
use mathlib.Core.Path.{subst}
use link_nest.Base.{
  ℕ, suc, ◌≡◌, refl, sym, Bool, List, [], ◌∷◌, ◌++◌, map, arith, ◌==◌, if◌then◌else◌, All,
}
use link_nest.Platform.{Platform}
use link_nest.Models.{ClickEvent, Result}
use link_nest.Store.World.{LinkRow, Tables, World}
use link_nest.Store.Clicks.{bumped, ingest_click}
use link_nest.Store.Clicks.Once.{Ingestion, failed, duplicate, fresh, ingest_click-Ingestion}

-- The events of a link.
abbrev pub clicks_of : ℕ → List ClickEvent → ℕ
clicks_of id [] = 0
clicks_of id (e ∷ es) = if e.link_id == id then suc (clicks_of id es) else clicks_of id es

-- Every link has the number of its events for its `click_count`.
abbrev pub CountsOf : List ClickEvent → List LinkRow → Type 0
CountsOf es = All (λ r. r.link.click_count ≡ clicks_of r.link.id es)

abbrev pub IsCounted : Tables → Type 0
IsCounted t = CountsOf t.click_events t.links

clicks_of-append :
    (id : ℕ) (es : List ClickEvent) (e : ClickEvent)
    → clicks_of id (es ++ e ∷ [])
      ≡ (if e.link_id == id then suc (clicks_of id es) else clicks_of id es)
clicks_of-append id [] e = refl
clicks_of-append id (d ∷ es) e = ground (arith, clicks_of-append id es e)

bumped-CountsOf :
    (es : List ClickEvent) (e : ClickEvent) (rows : List LinkRow)
    → CountsOf es rows
    → CountsOf (es ++ e ∷ []) (map (bumped e.link_id) rows)
unfolding bumped
bumped-CountsOf es e [] h = tt
bumped-CountsOf es e (r ∷ rows) (p, h) =
    (ground (arith, clicks_of-append r.link.id es e), bumped-CountsOf es e rows h)

Ingestion-IsCounted :
    {p : Platform} {event : ClickEvent} {w : World} {x : Result Bool × World}
    → Ingestion p event w x
    → IsCounted w.tables
    → IsCounted x.1.tables
Ingestion-IsCounted (failed fault same) h = subst IsCounted (sym same) h
Ingestion-IsCounted (duplicate known result same) h = subst IsCounted (sym same) h
Ingestion-IsCounted {event} {w} (fresh new result written) h =
    subst IsCounted (sym written) (
      bumped-CountsOf w.tables.click_events (record event { id = w.serials.event }) w.tables.links
        h)

-- If the counter of every link is the number of its events, it still is after a click is recorded,
-- found known, or lost to a failure of the driver at any call.
pub ingest_click-IsCounted :
    (p : Platform) (event : ClickEvent) (w : World)
    → IsCounted w.tables
    → IsCounted (ingest_click p event w).1.tables
ingest_click-IsCounted p event w = Ingestion-IsCounted (ingest_click-Ingestion p event w)
