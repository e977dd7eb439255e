-- ===== src/Metrics/Counters.antt =====
-- A counter is the sum of its increments, whatever else is recorded in between.
use Prim.Native.Nat.{◌^◌}
use link_nest.Base.{
  ℕ, ◌+◌, ◌%◌, ◌≡◌, ap, ◌∙◌, inl, inr, false, List, [], ◌∷◌, arith, if◌then◌else◌, Bool-cases,
}
use link_nest.Text.{Text, equals, equals_sound}
use link_nest.Metrics.{get, number_or_zero, Registry, new_registry, inc, gauge, observe}
use link_nest.Metrics.Window.{get-put, get-put_other}

-- A call of a method that records.
pub data Act : Type 0 where
  increment set_gauge observed : Text → ℕ → Act

abbrev pub act : Act → Registry → Registry
act (increment name n) = inc name n
act (set_gauge name n) = gauge name n
act (observed name n) = observe name n

abbrev pub act_all : List Act → Registry → Registry
act_all [] r = r
act_all (a ∷ acts) r = act_all acts (act a r)

abbrev pub counter_of : Text → Registry → ℕ
counter_of name r = number_or_zero (get name r.counters)

-- The sum of the increments of a name.
abbrev pub total_of : Text → List Act → ℕ
total_of name [] = 0
total_of name (increment k n ∷ acts) =
    if equals k name then n + total_of name acts else total_of name acts
total_of name (set_gauge k n ∷ acts) = total_of name acts
total_of name (observed k n ∷ acts) = total_of name acts

counter_of-inc :
    (name : Text) (n : ℕ) (r : Registry)
    → counter_of name (inc name n r) ≡ (counter_of name r + n) % 2 ^ 64
unfolding inc
counter_of-inc name n r = ap number_or_zero (get-put name _ (r.counters))

counter_of-inc_other :
    (name other : Text) (n : ℕ) (r : Registry)
    → equals other name ≡ false
    → counter_of name (inc other n r) ≡ counter_of name r
unfolding inc
counter_of-inc_other name other n r h =
    ap number_or_zero (get-put_other name other _ (r.counters) h)

counter_of-act_all_from :
    (name : Text) (sum : ℕ) (acts : List Act) (r : Registry)
    → counter_of name r ≡ sum % 2 ^ 64
    → counter_of name (act_all acts r) ≡ (sum + total_of name acts) % 2 ^ 64
unfolding gauge observe
counter_of-act_all_from name sum [] r h = h ∙ omega arith
counter_of-act_all_from name sum (set_gauge k n ∷ acts) r h =
    counter_of-act_all_from name sum acts (gauge k n r) h
counter_of-act_all_from name sum (observed k n ∷ acts) r h =
    counter_of-act_all_from name sum acts (observe k n r) h
counter_of-act_all_from name sum (increment k n ∷ acts) r h = elim (Bool-cases (equals k name)) [
  | inl e ↦
      let now : counter_of name (inc k n r) ≡ (sum + n) % 2 ^ 64 =
        rw (equals_sound k name e) (counter_of-inc name n r ∙ omega (arith, h)) in
      rw e (counter_of-act_all_from name (sum + n) acts (inc k n r) now ∙ omega arith)
  | inr e ↦
      rw e
        (counter_of-act_all_from name sum acts (inc k n r) (counter_of-inc_other name k n r e ∙ h))
]

-- Whatever is recorded in a new registry, under whatever names and in whatever order, a counter holds
-- the sum of its increments, modulo 2^64.
pub counter_of-act_all :
    (name : Text) (acts : List Act)
    → counter_of name (act_all acts new_registry) ≡ total_of name acts % 2 ^ 64
unfolding new_registry get
counter_of-act_all name acts =
    counter_of-act_all_from name 0 acts new_registry (omega arith) ∙ omega arith
