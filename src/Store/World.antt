-- ===== src/Store/World.antt =====
-- The database behind the store: its tables, and calls to it that may fail.
--
-- A method of the store runs on a `World`. Every call of the driver (BeginTx, ExecContext,
-- QueryContext, a Scan, RowsAffected, LastInsertId, Commit) takes the next entry of `faults`: an
-- error, with which the call fails and does nothing, or none. Past the end of the list no call fails.
pub mod Atomic
pub mod Robust
pub mod Quiet
pub mod ReadOnly
pub mod Runs
use link_nest.Base.{ℕ, ◌+◌, Bool, Option, none, some, List, [], ◌∷◌, if◌then◌else◌}
use link_nest.Text.{Text}
use link_nest.Store.Stats.{Stats}
use link_nest.Models.{
  User, Link, ClickEvent, UserError, DriverError, Error, user, driver, Result, ok, err,
}

pub record UserRow : Type 0 where
  pub user : User
  pub password_hash : Text

pub record SessionRow : Type 0 where
  pub id : Text
  pub user_id : ℕ
  pub ip_address : Text
  pub user_agent : Text
  pub expires_at : ℕ

pub record LinkRow : Type 0 where
  pub link : Link
  pub updated_at : ℕ

pub record Tables : Type 0 where
  pub users : List UserRow
  pub sessions : List SessionRow
  pub links : List LinkRow
  pub click_events : List ClickEvent
  pub stats : Stats

-- The next value of each AUTO_INCREMENT column. A rollback does not give values back.
pub record Serials : Type 0 where
  pub user : ℕ
  pub link : ℕ
  pub event : ℕ
  pub run : ℕ

pub record World : Type 0 where
  pub tables : Tables
  pub serials : Serials
  -- `now()` of the database server
  pub now : ℕ
  pub faults : List (Option DriverError)

abbrev pub Db : Type 0 → Type 0
Db A = World → Result A × World

abbrev pub pure : {A : Type 0} → A → Db A
pure a w = (ok a, w)

abbrev pub fail : {A : Type 0} → Error → Db A
fail e w = (err e, w)

infixl 5 ◌>>=◌ ◌>>◌
abbrev pub ◌>>=◌ : {A B : Type 0} → Db A → (A → Db B) → Db B
◌>>=◌ m f w = let (r, w') = m w in elim r [ ok a ↦ f a w' | err e ↦ (err e, w') ]

abbrev pub ◌>>◌ : {B : Type 0} → Db (Unit {0}) → Db B → Db B
m >> k = m >>= λ _. k

take_fault : List (Option DriverError) → Result (Unit {0}) × List (Option DriverError)
take_fault [] = (ok tt, [])
take_fault (none ∷ fs) = (ok tt, fs)
take_fault (some e ∷ fs) = (err (driver e), fs)

-- One call of the driver, which may fail.
unfoldable pub call : Db (Unit {0})
unfolding take_fault
call w = let (r, fs) = take_fault w.faults in (r, record w { faults = fs })

abbrev pub gets : {A : Type 0} → (World → A) → Db A
gets f w = (ok (f w), w)

-- A change of the tables.
abbrev pub modify : (World → Tables) → Db (Unit {0})
modify f w = (ok tt, record w { tables = f w })

-- `if err := validate(…); err != nil { return err }`
abbrev pub check : Option UserError → Db (Unit {0})
check none = pure tt
check (some e) = fail (user e)

abbrev pub require : Bool → Error → Db (Unit {0})
require b e = if b then pure tt else fail e

-- `rows.Next` and `Scan` for each row, then `rows.Err`.
unfoldable pub scan_rows : {A : Type 0} → List A → Db (List A)
scan_rows [] = call >> pure []
scan_rows (a ∷ rows) = do call; rest ← scan_rows rows; pure (a ∷ rest)

-- QueryContext, and all its rows.
unfoldable pub query : {A : Type 0} → (World → List A) → Db (List A)
unfolding scan_rows
query f = do call; rows ← gets f; scan_rows rows

unfoldable pub rollback : {A : Type 0} → Tables → Result A × World → Result A × World
rollback before (ok a, w) = (ok a, w)
rollback before (err e, w) = (err e, record w { tables = before })

-- `tx, err := s.db.BeginTx(…)`, `defer tx.Rollback()`, and a body that ends in `tx.Commit()`: a body
-- that returns an error has not committed.
unfoldable pub in_tx : {A : Type 0} → Db A → Db A
unfolding rollback
in_tx body = call >>= λ _ w. rollback w.tables (body w)
