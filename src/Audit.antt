-- ===== src/Audit.antt =====
-- An entry of the audit log, as the routes of serwebs/routes_api.py and serwebs/routes_ws.py ask for
-- it. The time stamp and the writing are left to serwebs/audit.py.
use serwebs.Prelude.{ℕ, String, List}

pub data Details : Type 0 where
  no_details : Details
  bytes : ℕ → Details
  new_user : String → String → Details
  target_user deleted_user : String → Details
  new_alias recording_id baudrate : String → Details
  role : String → Details
  rate : ℕ → Details
  new_tags : List String → Details
  remote_port : String → String → Details

pub record Entry : Type 0 where
  pub event : String
  pub user : String
  pub port_id : String
  pub details : Details
