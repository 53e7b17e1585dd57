-- ===== src/Biz/Types.antt =====
-- The data of internal/biz/resource.go. uint32 fields are natural numbers, times are numbers of
-- ticks, and a nil `json.RawMessage` is the empty text.
use run_all_resource.Prelude.{ℕ, String, Bool, Option, List, ℤ}

pub record AuditInformation : Type 0 where
  pub instance_id : ℤ
  pub log_type : String
  pub message : String
  pub data_json : String
  pub created_at : ℕ

pub record InstanceSpec : Type 0 where
  pub instance_id : ℤ
  pub user_id : String
  pub name : String
  pub cpu : ℕ
  pub memory : ℕ
  pub gpu : ℕ
  pub image : String
  pub config_json : String

pub record ExecOptions : Type 0 where
  pub namespace : String
  pub instance_id : String
  pub container_name : String
  pub command : List String
  pub tty : Bool

pub data ExecInputType : Type 0 where
  exec_input_stdin exec_input_resize : ExecInputType

-- bytes are numbers, rows and columns are uint32
pub record ExecInput : Type 0 where
  pub type : ExecInputType
  pub bytes : List ℕ
  pub rows : ℕ
  pub cols : ℕ

pub data ExecOutputType : Type 0 where
  exec_output_data exec_output_error exec_output_exit : ExecOutputType

pub record ExecOutput : Type 0 where
  pub type : ExecOutputType
  pub stream : String
  pub bytes : List ℕ
  pub exit_code : ℤ

pub record NetworkBinding : Type 0 where
  pub instance_id : ℤ
  pub port : ℕ
  pub service_name : String
  pub service_port : ℕ
  pub external_port : Option ℕ
  pub ingress_name : Option String
  pub protocol : String
  pub access_url : String
  pub enabled : Bool
  pub created_at : ℕ
  pub updated_at : ℕ

pub record Resource : Type 0 where
  pub instance_id : ℤ
  pub name : String
  pub user_id : String
  pub type : String
  pub created_at : ℕ
  pub updated_at : ℕ

pub record ListResourcesFilter : Type 0 where
  pub user_id : Option String
  pub start : Option ℕ
  pub end : Option ℕ
  pub type : Option String
