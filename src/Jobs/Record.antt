-- ===== src/Jobs/Record.antt =====
-- `JobRecord` and `AccountRecord` of backend/app/application/ports/persistence_models.py with the rows
-- of a job's results. Text that is only stored or compared is a `String`; text that is stripped, cut
-- or searched is its list of code points. A row without an `error` or `errorCode` reads as one that
-- holds `None`.
use insta.Prelude.{ℕ, String, List, Option}
use insta.Copilot.Values.{Value, Fields}

abbrev pub Text : Type 0
Text = List ℕ

pub record ResultRow : Type 0 where
  pub account_id : String
  pub username : Text
  pub status : String
  pub error : Option String
  pub error_code : Option String

pub record JobRecord : Type 0 where
  pub id : String
  pub caption : Text
  pub status : String
  pub targets : List String
  pub results : List ResultRow
  pub created_at : String
  pub media_urls : List String
  pub media_type : String
  pub media_paths : List Text
  pub scheduled_at : Option Text
  pub thumbnail_path : Option Text
  pub igtv_title : Option Text
  pub usertags : List Value
  pub location : Option Value
  pub extra_data : Fields
