-- ===== src/Orchestrator.antt =====
-- pkg/orchestrator/instance.go and the reconciler of pkg/controller/orchestrator: what the operator
-- reads of orchestrator's answers, and the calls that it makes.
pub mod Topology
pub mod Discovery
pub mod Writable
pub mod Status
pub mod Removal
pub mod Recoveries
pub mod Sync
use mysql_operator.Base.{ℕ, Bool, Option, Text, text_eq, ◌==◌, ◌&&◌, ℤ}

pub record InstanceKey : Type 0 where
  pub hostname : Text
  pub port : ℕ

-- The fields that the reconciler reads. A `sql.NullInt64` is an `Option ℤ`.
pub record Instance : Type 0 where
  pub key : InstanceKey
  pub master_key : InstanceKey
  pub uptime : ℕ
  pub read_only : Bool
  pub is_co_master : Bool
  pub is_detached_master : Bool
  pub slave_sql_running : Bool
  pub slave_io_running : Bool
  pub slave_lag_seconds : Option ℤ
  pub is_last_check_valid : Bool
  pub is_up_to_date : Bool
  pub is_recently_checked : Bool
  pub seconds_since_last_seen : Option ℤ

-- `==` on the struct.
abbrev pub key_eq : InstanceKey → InstanceKey → Bool
key_eq a b = text_eq a.hostname b.hostname && a.port == b.port

-- `start` is `time.Parse` of the start timestamp, in nanoseconds, and `none` for its error.
pub record TopologyRecovery : Type 0 where
  pub id : ℤ
  pub uid : Text
  pub is_successful : Bool
  pub acknowledged : Bool
  pub recovery_start_timestamp : Text
  pub start : Option ℕ

-- The calls that change orchestrator, in the order in which they are made.
pub data Call : Type 0 where
  discover : InstanceKey → Call
  forget : InstanceKey → Call
  set_host_writable : InstanceKey → Call
  set_host_read_only : InstanceKey → Call
  ack_recovery : ℤ → Call
