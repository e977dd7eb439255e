-- ===== src/Web.antt =====
-- The cookies of a response and of a request, as far as the program sets and reads them
-- (`net/http`), and a browser that keeps them.
pub mod Jars
use link_nest.Base.{ℕ, ◌+◌, Bool, true, Option, none, some, List, [], ◌∷◌, ltb, if◌then◌else◌}
use link_nest.Text.{Text, equals}

-- The field `MaxAge`: zero, negative, or a number of seconds.
pub data MaxAge : Type 0 where
  unset delete_now : MaxAge
  seconds : ℕ → MaxAge

pub record Cookie : Type 0 where
  pub name : Text
  pub value : Text
  pub path : Text
  pub http_only : Bool
  pub same_site_lax : Bool
  pub max_age : MaxAge
  pub expires : Option ℕ

-- The cookies of a request: names with values.
abbrev pub Jar : Type 0
Jar = List (Text × Text)

-- `r.Cookie(name)`: the first of that name.
unfoldable pub find_cookie : Text → Jar → Option Text
find_cookie name [] = none
find_cookie name ((k, v) ∷ jar) = if equals k name then some v else find_cookie name jar

-- A cookie that a browser holds, with the time from which on it has expired.
pub record Held : Type 0 where
  pub name : Text
  pub value : Text
  pub until : Option ℕ

forget : Text → List Held → List Held
forget name [] = []
forget name (h ∷ hs) = let rest = forget name hs in if equals h.name name then rest else h ∷ rest

-- `MaxAge` counts from the time of the response, and goes before `Expires`.
expiry : ℕ → Option ℕ → MaxAge → Option ℕ
expiry now expires unset = expires
expiry now expires delete_now = some now
expiry now expires (seconds n) = some (now + n)

keep : ℕ → Cookie → List Held → MaxAge → List Held
keep now c held delete_now = forget c.name held
keep now c held age =
    record { name = c.name; value = c.value; until = expiry now c.expires age } ∷ forget c.name held

-- At the time `now`, a browser replaces the cookie of that name, or removes it if the age is negative.
-- (All cookies of the program have the path "/".)
unfoldable pub receive : ℕ → List Held → List Cookie → List Held
unfolding keep forget expiry
receive now held [] = held
receive now held (c ∷ cs) = receive now (keep now c held c.max_age) cs

abbrev pub lasts : ℕ → Option ℕ → Bool
lasts now none = true
lasts now (some t) = ltb now t

-- The cookies of a request at the time `now`: those that have not expired.
unfoldable pub sent : ℕ → List Held → Jar
sent now [] = []
sent now (h ∷ hs) =
    let rest = sent now hs in if lasts now h.until then (h.name, h.value) ∷ rest else rest
