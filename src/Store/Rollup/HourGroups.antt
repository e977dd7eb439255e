-- ===== src/Store/Rollup/HourGroups.antt =====
-- The rows that an hour's groups give, by link.
use mathlib.Core.Path.{subst}
use link_nest.Base.{
  ℕ, ◌≡◌, ◌≢◌, ◌<◌, refl, sym, ap, ◌∙◌, inl, inr, Bool, true, false, none, some, List, [], ◌∷◌, map,
  arith, ◌==◌, ==_iff, if◌then◌else◌, length, All, All-mp, Bool-cases,
}
use link_nest.Platform.{Platform}
use link_nest.Models.{ClickEvent}
use link_nest.Store.Stats.{HourlyStat}
use link_nest.Store.Reads.{select}
use link_nest.Store.Upsert.{RowKey, same_key, find_row, DistinctKeys}
use link_nest.Store.Rollup.{has, pair_of, in_group, link_groups}
use link_nest.Store.Rollup.Hour.{hourly_table, hourly_row}
use link_nest.Store.Rollup.Groups.{
  same_key-IsTest, has-distinct_by, EachOnce, distinct_by-EachOnce, All-distinct_by, has-map_some,
  has-map_none, All-map, select_cong, find_row-map,
}

-- Every event of a link was recorded for the link's owner.
abbrev pub OneOwner : (ℕ → ℕ) → List ClickEvent → Type 0
OneOwner owner = All (λ e. e.user_id ≡ owner e.link_id)

abbrev pub of_link : ℕ → ClickEvent → Bool
of_link l e = e.link_id == l

module _ (p : Platform) (owner : ℕ → ℕ) (hour now : ℕ) (es : List ClickEvent)
    (owned : OneOwner owner es) where
  unfoldable pub row_of : RowKey → HourlyStat
  row_of = hourly_row p hour now es

  unfoldable pub rows_of : List HourlyStat
  unfolding row_of
  rows_of = map row_of (link_groups es)

  OwnedKey : RowKey → Type 0
  OwnedKey k = k.0 ≡ owner k.1

  OwnedKey-groups : All OwnedKey (link_groups es)
  unfolding OwnedKey
  OwnedKey-groups =
      All-distinct_by same_key OwnedKey (map pair_of es) (All-map OwnedKey pair_of es owned)

  key_hit :
      (l : ℕ) (j : RowKey)
      → OwnedKey j
      → same_key (hourly_table.key (row_of j)) (l, hour) ≡ same_key j (owner l, l)
  unfolding row_of hourly_row OwnedKey
  key_hit l (u, m) h = elim (Bool-cases (m == l)) [
    | inl e ↦ let same : owner m ≡ owner l = ap owner ((==_iff m l).0 e) in ground arith
    | inr e ↦ ground arith
  ]

  find_row-rows :
      (l : ℕ) (ks : List RowKey)
      → All OwnedKey ks
      → find_row hourly_table (l, hour) (map row_of ks)
        ≡ (if has same_key (owner l, l) ks then some (row_of (owner l, l)) else none)
  find_row-rows l =
      find_row-map hourly_table same_key row_of (l, hour) (owner l, l) OwnedKey (key_hit l)
        (λ j e. same_key-IsTest.eq_eq j (owner l, l) e)

  DistinctKeys-rows :
      (ks : List RowKey)
      → All OwnedKey ks
      → EachOnce same_key same_key-IsTest ks
      → DistinctKeys hourly_table (map row_of ks)
  unfolding row_of hourly_row OwnedKey
  DistinctKeys-rows [] h once = tt
  DistinctKeys-rows ((u, l) ∷ ks) (o, h) (fresh, once) =
      let absent : has same_key (owner l, l) ks ≡ false = rw (← o) fresh in
      (find_row-rows l ks h ∙ rw absent refl, DistinctKeys-rows ks h once)

  -- Without the owner's name: the events of a link are its group.
  pub group_of_link : (l : ℕ) → select (in_group (owner l, l)) es ≡ select (of_link l) es
  group_of_link l = select_cong (in_group (owner l, l)) (of_link l) es (All-mp _ _ es same owned)
    where
      same : (e : ClickEvent) → e.user_id ≡ owner e.link_id → in_group (owner l, l) e ≡ of_link l e
      same e o = elim (Bool-cases (e.link_id == l)) [
        | inl y ↦
            let there : owner e.link_id ≡ owner l = ap owner ((==_iff e.link_id l).0 y) in
            ground arith
        | inr n ↦ ground arith
      ]

  has-group :
      (l : ℕ)
      → has same_key (owner l, l) (link_groups es) ≡ has same_key (owner l, l) (map pair_of es)
  has-group l = has-distinct_by same_key same_key-IsTest (owner l, l) (map pair_of es)

  pub find_row-silent :
      (l : ℕ) → length (select (of_link l) es) ≡ 0 → find_row hourly_table (l, hour) rows_of ≡ none
  unfolding rows_of
  find_row-silent l h =
      let absent : has same_key (owner l, l) (link_groups es) ≡ false =
        has-group l
        ∙ has-map_none same_key pair_of (owner l, l) es (ap length (group_of_link l) ∙ h) in
      find_row-rows l (link_groups es) OwnedKey-groups ∙ rw absent refl

  pub find_row-counted :
      (l : ℕ)
      → 0 < length (select (of_link l) es)
      → find_row hourly_table (l, hour) rows_of ≡ some (row_of (owner l, l))
  unfolding rows_of
  find_row-counted l h =
      let present : has same_key (owner l, l) (link_groups es) ≡ true =
        has-group l
        ∙ has-map_some same_key pair_of (owner l, l) es
            (subst (λ g. 0 < length g) (sym (group_of_link l)) h) in
      find_row-rows l (link_groups es) OwnedKey-groups ∙ rw present refl

  pub find_row_other :
      (l h : ℕ) (ks : List RowKey) → h ≢ hour → find_row hourly_table (l, h) (map row_of ks) ≡ none
  unfolding find_row row_of hourly_row
  find_row_other l h [] ne = refl
  find_row_other l h ((u, m) ∷ ks) ne = ground (arith, find_row_other l h ks)

  pub rows-DistinctKeys : DistinctKeys hourly_table rows_of
  unfolding rows_of
  rows-DistinctKeys =
      DistinctKeys-rows (link_groups es) OwnedKey-groups
        (distinct_by-EachOnce same_key same_key-IsTest (map pair_of es))
