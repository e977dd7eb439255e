-- ===== src/Metrics.antt =====
-- The registry of metrics/metrics.go. Its maps are association lists; their order stands for the
-- order in which Go happens to iterate. The lock makes each method one step.
pub mod Window
pub mod Counters
mod Tests
use link_nest.Base.{
  ℕ, ◌+◌, ◌-◌, ◌%◌, Bool, true, false, ◌&&◌, ◌||◌, Option, none, some, List, [], ◌∷◌, ◌++◌, map,
  ltb, leb, ◌==◌, if◌then◌else◌, length, drop,
}
use Prim.Native.Nat.{◌^◌}
use link_nest.Text.{Text, lit, equals}
use link_nest.Text.Decimal.{decimal}

module _ {V : Type 0} where
  unfoldable pub get : Text → List (Text × V) → Option V
  get name [] = none
  get name ((k, v) ∷ m) = if equals k name then some v else get name m

  unfoldable pub put : Text → V → List (Text × V) → List (Text × V)
  put name v [] = (name, v) ∷ []
  put name v ((k, w) ∷ m) = if equals k name then (k, v) ∷ m else (k, w) ∷ put name v m

-- The value of a missing key is the zero of its type.
abbrev pub number_or_zero : Option ℕ → ℕ
number_or_zero none = 0
number_or_zero (some n) = n

abbrev pub list_or_empty : Option (List ℕ) → List ℕ
list_or_empty none = []
list_or_empty (some ds) = ds

-- An int64 is its two's complement, below 2^64; a duration is a number of nanoseconds.
pub record Registry : Type 0 where
  pub counters : List (Text × ℕ)
  pub gauges : List (Text × ℕ)
  pub timings : List (Text × List ℕ)

unfoldable pub new_registry : Registry
new_registry = record { counters = []; gauges = []; timings = [] }

unfoldable pub inc : Text → ℕ → Registry → Registry
inc name delta r = record r {
  counters = put name ((number_or_zero (get name r.counters) + delta) % 2 ^ 64) (r.counters);
}

unfoldable pub gauge : Text → ℕ → Registry → Registry
gauge name value r = record r { gauges = put name value (r.gauges) }

-- The last 1024.
unfoldable pub window : List ℕ → List ℕ
window ds = if ltb 1024 (length ds) then drop (length ds - 1024) ds else ds

unfoldable pub observe : Text → ℕ → Registry → Registry
unfolding window
observe name duration r = record r {
  timings = put name (window (list_or_empty (get name r.timings) ++ duration ∷ [])) (r.timings);
}

-- `%d` of an int64.
unfoldable pub print_int : ℕ → Text
print_int n = if ltb n (2 ^ 63) then decimal n else b'-' ∷ decimal (2 ^ 64 - n)

-- `sort.Strings`, which compares byte by byte.
unfoldable pub le_text : Text → Text → Bool
le_text [] t = true
le_text (a ∷ s) [] = false
le_text (a ∷ s) (b ∷ t) = ltb a b || (a == b && le_text s t)

unfoldable pub insert_text : Text → List Text → List Text
unfolding le_text
insert_text s [] = s ∷ []
insert_text s (t ∷ ts) = if le_text s t then s ∷ t ∷ ts else t ∷ insert_text s ts

unfoldable pub sort_texts : List Text → List Text
unfolding insert_text
sort_texts [] = []
sort_texts (s ∷ ss) = insert_text s (sort_texts ss)

-- "# TYPE name kind\nname value\n".
unfoldable pub sample_lines : Text → Text → Text → Text
sample_lines name kind value =
    lit "# TYPE " ++ (name ++ (b' ' ∷ (kind ++ (10 ∷ (name ++ (b' ' ∷ (value ++ (10 ∷ []))))))))

unfoldable pub render_name : Registry → Text → Text
unfolding print_int sample_lines
render_name r name =
    elim (get name r.counters) [
      | none ↦ []
      | some value ↦ sample_lines name (lit "counter") (print_int value)
    ]
    ++ elim (get name r.gauges) [
      | none ↦ []
      | some value ↦ sample_lines name (lit "gauge") (print_int value)
    ]

unfoldable pub render_names : Registry → List Text → Text
unfolding render_name
render_names r [] = []
render_names r (name ∷ names) = render_name r name ++ render_names r names

-- `average` prints the mean of durations in seconds, a float64, with six decimals.
unfoldable pub render_timings : (List ℕ → Text) → List (Text × List ℕ) → Text
unfolding sample_lines
render_timings average [] = []
render_timings average ((name, []) ∷ rest) = render_timings average rest
render_timings average ((name, d ∷ ds) ∷ rest) =
    sample_lines (name ++ lit "_seconds") (lit "gauge") (average (d ∷ ds))
    ++ render_timings average rest

unfoldable pub render : (List ℕ → Text) → Registry → Text
unfolding render_names render_timings sort_texts
render average r =
    render_names r (sort_texts (map (λ (k, _). k) (r.counters) ++ map (λ (k, _). k) (r.gauges)))
    ++ render_timings average (r.timings)
