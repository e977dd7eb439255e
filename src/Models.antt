-- ===== src/Models.antt =====
-- The package models (models/models.go): the records that the other packages pass on, and errors.
-- Identifiers, counts and times (in seconds) are the numbers that the database hands out.
use link_nest.Base.{ℕ, Bool, List, ◌≡◌, ◌≢◌, ap}
use link_nest.Text.{Text}

-- The constants of type `UserError`, of store/store.go and auth/auth.go.
pub data UserError : Type 0 where
  err_email_taken err_username_taken err_invalid_email err_invalid_username : UserError
  err_name_required err_name_too_long err_bio_too_long err_title_required : UserError
  err_title_too_long err_invalid_link_url err_link_not_found err_link_at_edge : UserError
  err_password_too_short : UserError

-- An error of the database driver: a MySQL error with its number and message, `sql.ErrNoRows`, or
-- any other.
pub data DriverError : Type 0 where
  mysql : ℕ → Text → DriverError
  no_rows : DriverError
  broken : ℕ → DriverError

pub data Error : Type 0 where
  user : UserError → Error
  driver : DriverError → Error

pub data Result (A : Type 0) : Type 0 where
  ok : A → Result A
  err : Error → Result A

abbrev value_or : {A : Type 0} → A → Result A → A
value_or a (ok b) = b
value_or a (err e) = a

pub ok-inj : {A : Type 0} {a b : A} → ok a ≡ ok b → a ≡ b
ok-inj {a} e = ap (value_or a) e

pub record User : Type 0 where
  pub id : ℕ
  pub email : Text
  pub username : Text
  pub slug : Text
  pub first_name : Text
  pub last_name : Text
  pub bio : Text
  pub profile_color : Text

pub record Link : Type 0 where
  pub id : ℕ
  pub user_id : ℕ
  pub title : Text
  pub url : Text
  pub position : ℕ
  pub public : Bool
  pub icon_color : Text
  pub click_count : ℕ

pub record ClickEvent : Type 0 where
  pub id : ℕ
  pub idempotency_key : Text
  pub user_id : ℕ
  pub link_id : ℕ
  pub referrer : Text
  pub user_agent : Text
  pub ip_address : Text
  pub country_code : Text
  pub device_type : Text
  pub browser_name : Text
  pub event_time : ℕ

pub record DailyStat : Type 0 where
  pub date : ℕ
  pub total_clicks : ℕ
  pub unique_visitors : ℕ
  pub top_link_id : ℕ
  pub top_link_clicks : ℕ

pub record Dashboard : Type 0 where
  pub user : User
  pub links : List Link
  pub total_clicks : ℕ
  pub unique_visitors : ℕ
  pub top_links : List Link
  pub daily : List DailyStat

pub err-ok : {A : Type 0} {e : Error} {a : A} → err e ≢ ok a
err-ok h = cc
