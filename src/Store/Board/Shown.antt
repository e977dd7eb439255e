-- ===== src/Store/Board/Shown.antt =====
-- What a dashboard that is read shows.
use link_nest.Base.{ℕ, pos, ◌≡◌, sym, ap, ◌∙◌, true, false, List, map, arith, ◌==◌, length, take}
use mathlib.Core.Path.{subst}
use link_nest.Platform.{Platform}
use link_nest.Models.{User, Link, DailyStat, Dashboard, Result, ok, ok-inj}
use link_nest.Store.Stats.{DailyRow}
use link_nest.Store.World.{Tables, World, pure, ◌>>=◌, call, gets}
use link_nest.Store.World.Runs.{Passed, bind_inv, query-ok, Passed-call-tables, Passed-query-tables}
use link_nest.Store.Reads.{select, sort_by, links_of, le_clicks, listing, links_for_user, top_links}
use link_nest.Store.Reads.Firsts.{Firsts, take-sort_by-Firsts}
use link_nest.Store.Rollup.{visitors}
use link_nest.Store.Rollup.Day.{of_user}
use link_nest.Store.Board.{daily_stat, le_newest, newest, daily, totals, dashboard}

-- The links of a user, and the rows of statistics.
abbrev pub own_links : ℕ → Tables → List Link
own_links u t = select (λ (l : Link). l.user_id == u) (links_of t.links)

abbrev pub own_days : ℕ → Tables → List DailyRow
own_days u t = select (λ (r : DailyRow). r.user_id == u) t.stats.daily

-- The dashboard `d` shows the tables as they are to the user.
pub record Shows (p : Platform) (user : User) (t : Tables) (d : Dashboard) : Type 0 where
  pub links : d.links ≡ listing user.id false (pos 100) (pos 0) t.links
  pub total_clicks : d.total_clicks ≡ length (select (of_user user.id) t.click_events)
  pub unique_visitors : d.unique_visitors ≡ visitors p (select (of_user user.id) t.click_events)
  pub top_links : Firsts le_clicks 5 (own_links user.id t) d.top_links
  pub days : List DailyRow
  pub newest : Firsts le_newest 14 (own_days user.id t) days
  pub daily : d.daily ≡ map daily_stat days

le_clicks_trans :
    (x y z : Link) → le_clicks x y ≡ true → le_clicks y z ≡ true → le_clicks x z ≡ true
le_clicks_trans x y z h k = ground arith

le_clicks_total : (x y : Link) → le_clicks x y ≡ false → le_clicks y x ≡ true
le_clicks_total x y h = ground arith

le_newest_trans :
    (x y z : DailyRow) → le_newest x y ≡ true → le_newest y z ≡ true → le_newest x z ≡ true
le_newest_trans x y z h k = ground arith

le_newest_total : (x y : DailyRow) → le_newest x y ≡ false → le_newest y x ≡ true
le_newest_total x y h = ground arith

totals-ok :
    (p : Platform) (u : ℕ) (w : World)
    → (s : Passed (totals p u) w)
    → (s.after.tables ≡ w.tables)
      × (s.value ≡ (
        length (select (of_user u) w.tables.click_events),
        visitors p (select (of_user u) w.tables.click_events),
      ))
unfolding totals
totals-ok p u w s =
    let (began, e) =
      bind_inv call
        (λ _. gets (λ w.
          let mine = select (of_user u) w.tables.click_events in (length mine, visitors p mine)))
        w (s.run) in
    let same = Passed-call-tables began in
    (
      ap (λ (x : Result (ℕ × ℕ) × World). x.1.tables) (sym e) ∙ same,
      sym (ok-inj (ap (λ (x : Result (ℕ × ℕ) × World). x.0) e))
          ∙ ap
              (λ (t : Tables).
                let mine = select (of_user u) t.click_events in (length mine, visitors p mine))
              same,
    )

abbrev top_of : ℕ → Tables → List Link
top_of u t = take 5 (sort_by le_clicks (own_links u t))

abbrev days_of : ℕ → Tables → List DailyRow
days_of u t = take 14 (sort_by le_newest (own_days u t))

-- A dashboard that is read shows the user's links, up to 100, in the order of their positions; the
-- number of clicks and of visitors of all time; the five links with the most clicks, in that order;
-- and the statistics of the last fourteen days that have any, the newest first.
pub dashboard-Shows :
    (p : Platform) (user : User) (w v : World) (d : Dashboard)
    → dashboard p user w ≡ (ok d, v)
    → Shows p user w.tables d
unfolding dashboard links_for_user top_links daily newest
dashboard-Shows p user w v d done =
    let u = user.id in
    let whole : List Link → ℕ × ℕ → List Link → List DailyStat → Dashboard =
      λ links counts top days. record {
        user = user;
        links = links;
        total_clicks = counts.0;
        unique_visitors = counts.1;
        top_links = top;
        daily = days;
      } in
    let (ls, e₁) =
      bind_inv (links_for_user u false (pos 100) (pos 0))
        (λ links. totals p u >>= λ counts.
          top_links u >>= λ top. daily u >>= λ days. pure (whole links counts top days))
        w done in
    let (counts, e₂) =
      bind_inv (totals p u)
        (λ counts.
          top_links u >>= λ top. daily u >>= λ days. pure (whole (ls.value) counts top days))
        (ls.after) e₁ in
    let (top, e₃) =
      bind_inv (top_links u)
        (λ top. daily u >>= λ days. pure (whole (ls.value) (counts.value) top days)) (counts.after)
        e₂ in
    let (days, e₄) =
      bind_inv (daily u) (λ days. pure (whole (ls.value) (counts.value) (top.value) days))
        (top.after) e₃ in
    let same₁ = Passed-query-tables _ w ls in
    let (kept, counted) = totals-ok p u (ls.after) counts in
    let same₂ = kept ∙ same₁ in
    let same₃ = Passed-query-tables _ (counts.after) top ∙ same₂ in
    let d_is : whole (ls.value) (counts.value) (top.value) (days.value) ≡ d =
      ok-inj (ap (λ (x : Result Dashboard × World). x.0) e₄) in
    let shown_top : top.value ≡ top_of u w.tables =
      query-ok (top_of u) (top.value) (counts.after) (top.after) (top.run) ∙ ap (top_of u) same₂ in
    let shown_days : days.value ≡ map daily_stat (days_of u w.tables) =
      query-ok (λ t. map daily_stat (days_of u t)) (days.value) (top.after) (days.after) (days.run)
      ∙ ap (λ t. map daily_stat (days_of u t)) same₃ in
    subst (Shows p user w.tables) d_is (record {
      links =
          query-ok (λ t. listing u false (pos 100) (pos 0) t.links) (ls.value) w (ls.after)
            (ls.run);
      total_clicks =
          ap (λ (c : ℕ × ℕ). c.0) counted
          ∙ ap (λ (t : Tables). length (select (of_user u) t.click_events)) same₁;
      unique_visitors =
          ap (λ (c : ℕ × ℕ). c.1) counted
          ∙ ap (λ (t : Tables). visitors p (select (of_user u) t.click_events)) same₁;
      top_links =
          subst (Firsts le_clicks 5 (own_links u w.tables)) (sym shown_top) (
            take-sort_by-Firsts le_clicks le_clicks_trans le_clicks_total 5 (own_links u w.tables));
      days = days_of u w.tables;
      newest =
          take-sort_by-Firsts le_newest le_newest_trans le_newest_total 14 (own_days u w.tables);
      daily = shown_days;
    })
