-- ===== src/Models.antt =====
-- serwebs/models.py: the data of a port. Time-outs are only copied, so they are numbers.
use serwebs.Prelude.{ℕ, String, Bool, true, false, Option, List}

pub data PortStatus : Type 0 where
  free opened busy unavailable : PortStatus

pub data Parity : Type 0 where
  no_parity even odd : Parity

pub data FlowControl : Type 0 where
  no_flow rtscts xonxoff : FlowControl

pub record PortSettings : Type 0 where
  pub baudrate : ℕ
  pub parity : Parity
  pub stopbits : ℕ
  pub databits : ℕ
  pub flowcontrol : FlowControl
  pub read_timeout : Option ℕ
  pub write_timeout : Option ℕ

pub record PortInfo : Type 0 where
  pub id : String
  pub device : String
  pub description : String
  pub alias : String
  pub status : PortStatus
  pub settings : Option PortSettings
  pub clients : ℕ
  pub tags : List String

-- `status == PortStatus.BUSY`
abbrev pub is_busy : PortStatus → Bool
is_busy busy = true
is_busy _ = false
