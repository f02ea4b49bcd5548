-- ===== src/Proto.antt =====
-- The messages of protobuf/service.pb.go, with the fields that the modelled code reads or writes.
-- A pointer is an `Option`, and the generated getters are safe on nil: they give the zero value.
use lohpi.Common.{ℕ, String, Bool, false, Option, none, some, List}

-- timestamppb.Timestamp: `seconds` is the 64-bit pattern of the int64
pub record Timestamp : Type 0 where
  pub seconds : ℕ
  pub nanos : ℕ

pub record Policy : Type 0 where
  pub dataset_identifier : String
  pub content : Bool
  pub version : ℕ  -- uint64
  pub date_created : Option Timestamp
  pub date_applied : Option Timestamp

pub record Dataset : Type 0 where
  pub identifier : String
  pub policy : Option Policy
  pub allow_multiple_checkouts : Bool

pub record Node : Type 0 where
  pub name : String
  pub ifrit_address : String
  pub id : List ℕ
  pub https_address : String
  pub port : ℕ
  pub boot_time : Option Timestamp

pub record Client : Type 0 where
  pub name : String
  pub id : String
  pub email_address : String
  pub mac_address : String

pub record DatasetCheckout : Type 0 where
  pub dataset_identifier : String
  pub date_checkout : Option Timestamp
  pub client : Option Client

pub record Probe : Type 0 where
  pub order : ℕ  -- uint32
  pub session_id : List ℕ

-- the zero value of a policy, `&pb.Policy{}`
abbrev pub empty_policy : Policy
empty_policy = record {
  dataset_identifier = "";
  content = false;
  version = 0;
  date_created = none;
  date_applied = none;
}

-- GetVersion, GetContent, GetDatasetIdentifier, GetDateCreated of a possibly nil policy
abbrev pub get_version : Option Policy → ℕ
get_version none = 0
get_version (some p) = p.version

abbrev pub get_content : Option Policy → Bool
get_content none = false
get_content (some p) = p.content

abbrev pub get_dataset_identifier : Option Policy → String
get_dataset_identifier none = ""
get_dataset_identifier (some p) = p.dataset_identifier

abbrev pub get_date_created : Option Policy → Option Timestamp
get_date_created none = none
get_date_created (some p) = p.date_created

abbrev pub get_date_applied : Option Policy → Option Timestamp
get_date_applied none = none
get_date_applied (some p) = p.date_applied

-- GetPolicy of a possibly nil dataset
abbrev pub get_policy : Option Dataset → Option Policy
get_policy none = none
get_policy (some d) = d.policy
