-- ===== src/ControlPlane/Types.antt =====
-- The data of distributed/control_plane/service.py, and `Platform`: what the service takes from
-- Python's runtime, protobuf, pickle, json and ZeroMQ.
use fed_lo_ra_public.Prelude.{ℕ, Bool, List, Option, Dict, Result, Exception}
use fed_lo_ra_public.Wire.Bytes.{Bytes}
use fed_lo_ra_public.Wire.Envelope.{Serializer}

pub record DeviceInfo : Type 0 where
  pub name : Bytes
  pub device_type : Bytes
  pub ip_address : Bytes
  pub agent_port_offset : ℕ
  pub processors : ℕ
  pub memory : List ℕ

-- The fields of the protobuf message DeviceInfo.
pub record DeviceInfoPb : Type 0 where
  pub name : Bytes
  pub type : ℕ
  pub processors : ℕ
  pub memory : List ℕ
  pub ip_address : Bytes
  pub agent_port_offset : ℕ

pub record ContainerConfig : Type 0 where
  pub name : Bytes
  pub executable : Bytes
  pub docker_tag : Bytes
  pub json_config : Bytes
  pub device : ℕ
  pub control_port : ℕ
  pub client_id : ℕ
  pub partition_path : Bytes
  pub config_path : Bytes
  pub device_agent_host : Bytes
  pub device_agent_port_offset : ℕ
  pub nic : Bytes
  pub shared_nic : Bool
  pub extra_args : Dict Bytes Bytes

-- The dict `fedlora_args` that travels as JSON in the field `json_config`.
pub record WorkerArgs : Type 0 where
  pub client_id : ℕ
  pub container_name : Bytes
  pub partition_path : Bytes
  pub config_path : Bytes
  pub device_agent_host : Bytes
  pub device_agent_port_offset : ℕ
  pub nic : Bytes
  pub shared_nic : Bool
  pub extra_args : Option (Dict Bytes Bytes)

-- The fields of the protobuf message ContainerConfig that are set.
pub record ContainerConfigPb : Type 0 where
  pub name : Bytes
  pub docker_tag : Bytes
  pub device : ℕ
  pub control_port : ℕ
  pub json_config : Bytes
  pub executable : Bytes

pub record SystemInfo : Type 0 where
  pub name : Bytes
  pub experiment : Bytes
  pub ctrl_ip_address : Bytes
  pub manifest_valid : Bool
  pub bandwidth_setting : ℕ

-- One element of `manifest["clients"]`; a key that is not there is `none`.
pub record ManifestClient : Type 0 where
  pub client_id : Option ℕ
  pub device_name : Option Bytes
  pub container_name : Option Bytes
  pub partition_path : Option Bytes
  pub nic : Option Bytes
  pub bandwidth_setting_id : Option ℕ

-- The manifest: its key `clients`, if it has one, and whether it has any other key.
pub record Manifest : Type 0 where
  pub clients : Option (List ManifestClient)
  pub has_other_keys : Bool

pub record Platform : Type 1 where
  -- what time.time() returns
  pub Time : Type 0
  -- a pickled payload, a Python dict
  pub Payload : Type 0
  pub pickle : Serializer Payload
  -- DeviceInfo(**data)
  pub device_info_of : Payload → Result DeviceInfo
  pub payload_of_config : ContainerConfig → Payload
  pub payload_of_signal : Bytes → Payload
  pub payload_of_system_info : SystemInfo → Payload
  pub payload_of_error : Bytes → Payload
  -- the bytes that `decode("utf-8")` accepts, and str(e)
  pub is_utf8 : Bytes → Bool
  pub text_of_exception : Exception → Bytes
  -- protobuf's ParseFromString and SerializeToString, json.dumps and base64
  pub parse_device_info : Bytes → Result DeviceInfoPb
  pub serialize_container_config : ContainerConfigPb → Bytes
  pub serialize_container_signal : Bytes → Bool → Bytes
  pub serialize_system_info : Bytes → Bytes → Bytes → ℕ → Bytes
  pub serialize_packaged_msg : Bytes → Bytes → Bytes
  pub b64encode : Bytes → Bytes
  pub dumps : WorkerArgs → Result Bytes
