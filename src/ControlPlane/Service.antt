-- ===== src/ControlPlane/Service.antt =====
-- distributed/control_plane/service.py: ControlPlaneService. A method returns the new state. The
-- sockets are logs: `replies` of the REP socket and `published` of the PUB socket, oldest first.
use fed_lo_ra_public.Prelude.{
  ltb, name_error, ℕ, Bool, true, false, List, [], ◌∷◌, ◌++◌, Option, none, some, Dict, lookup,
  lookup_or, has_key, insert, remove, Result, ok, raise, ◌>>=◌, type_error, if◌then◌else◌, ◌==◌,
  ◌&&◌,
}
use fed_lo_ra_public.Wire.Bytes.{Bytes, ascii, bytes_eq, bytes_beq}
use fed_lo_ra_public.Wire.Frame.{
  encode_pub_frame, decode_req_frame, is_relay_data, encode_relay_pub_frame,
}
use fed_lo_ra_public.Wire.Envelope.{pack_control_message, unpack_control_message}
use fed_lo_ra_public.ControlPlane.Types.{
  DeviceInfo, ContainerConfig, WorkerArgs, SystemInfo, Manifest, Platform,
}
use fed_lo_ra_public.ControlPlane.Manifest.{
  manifest_clients, bandwidth_map, validate_device_manifest,
}

-- _ENUM_TO_DEVICE_TYPE.get(enum_val, "unknown"): OrinAGX is 3 and AGXXavier is 6.
unfoldable pub device_type_from_enum : ℕ → Bytes
device_type_from_enum n =
    if n == 3 then ascii "agxorin" else if n == 6 then ascii "agxavier" else ascii "unknown"

-- _DEVICE_TYPE_TO_ENUM.get(device_type_str.lower(), 0)
unfoldable pub device_type_to_enum : (Bytes → Bytes) → Bytes → ℕ
device_type_to_enum lower s =
    let t = lower s in
    if bytes_beq t (ascii "agxorin")
    then 3
    else if bytes_beq t (ascii "orinagx")
    then 3
    else if bytes_beq t (ascii "agxavier")
    then 6
    else 0

module _ (platform : Platform) where
  open platform use {Time, Payload, pickle, is_utf8}

  pub record RegisteredDevice : Type 0 where
    pub info : DeviceInfo
    pub registered_at : Time
    pub last_seen : Time
    pub containers : Dict Bytes ContainerConfig
    pub is_healthy : Bool

  pub record Service : Type 0 where
    pub host : Bytes
    pub proto_mode : Bool
    pub raw_relay : Bool
    -- `_pub_socket` is there
    pub started : Bool
    pub devices : Dict Bytes RegisteredDevice
    pub manifest : Option Manifest
    pub bandwidth_setting : ℕ
    pub device_bw_map : Dict Bytes ℕ
    pub fl_relay_queue : List Bytes
    pub replies : List Bytes
    pub published : List Bytes

  -- A payload as `_receive_loop` parses it: a pickled dict, the dict of `device_info_from_proto`,
  -- or {"raw": bytes}.
  pub data Incoming : Type 0 where
    pickled : Payload → Incoming
    device : DeviceInfo → Incoming
    raw : Bytes → Incoming

  pub data Reply : Type 0 where
    system_info : SystemInfo → Reply
    error_reply : Bytes → Reply

  unfoldable pub load_manifest : Service → Manifest → Service × Result (Unit {0})
  load_manifest s m =
      let (bw, done) = bandwidth_map [] (manifest_clients m) in
      (record s { manifest = some m; device_bw_map = bw }, done)

  unfoldable pub device_info_from_proto : Bytes → Result DeviceInfo
  device_info_from_proto bytes = do
    pb ← platform.parse_device_info bytes
    ok (record {
      name = pb.name;
      device_type = device_type_from_enum pb.type;
      ip_address = pb.ip_address;
      agent_port_offset = pb.agent_port_offset;
      processors = pb.processors;
      memory = pb.memory;
    })

  unfoldable pub parse_proto_req : Bytes → Result (Bytes × Incoming)
  parse_proto_req bytes = do
    (python_type, payload) ← decode_req_frame is_utf8 bytes
    if bytes_beq python_type (ascii "DEVICE_ADVERTISEMENT")
        then (do info ← device_info_from_proto payload; ok (python_type, device info))
        else ok (python_type, raw payload)

  unfoldable pub parse_request : Bool → Bytes → Result (Bytes × Incoming)
  parse_request proto_mode bytes = if proto_mode then parse_proto_req bytes else do
    (msg_type, payload) ← unpack_control_message pickle is_utf8 bytes
    ok (msg_type, pickled payload)

  -- DeviceInfo.from_dict(payload)
  unfoldable pub from_dict : Incoming → Result DeviceInfo
  from_dict (pickled p) = platform.device_info_of p
  from_dict (device info) = ok info
  from_dict (raw _) = raise type_error

  -- The registry's entry for an advertisement at time `now`.
  unfoldable pub registered : Option RegisteredDevice → DeviceInfo → Time → Bool → RegisteredDevice
  registered none info now healthy = record {
    info = info;
    registered_at = now;
    last_seen = now;
    containers = [];
    is_healthy = healthy;
  }
  registered (some d) info now healthy = record d {
    info = info;
    last_seen = now;
    is_healthy = healthy;
  }

  unfoldable pub handle_device_advertisement : Service → Time → Incoming → Service × Reply
  handle_device_advertisement s now payload = elim (from_dict payload) [
    | raise e ↦ (s, error_reply (platform.text_of_exception e))
    | ok info ↦
        let valid = validate_device_manifest s.manifest info.name in
        let entry = registered (lookup info.name s.devices) info now valid in
        let s' : Service = record s { devices = insert info.name entry s.devices } in
        (
          s',
          system_info (record {
            name = ascii "fedlora_distributed";
            experiment = ascii "fedit_phase1";
            ctrl_ip_address = s.host;
            manifest_valid = valid;
            bandwidth_setting = lookup_or s.bandwidth_setting info.name s.device_bw_map;
          }),
        )
  ]

  unfoldable pub handle_message : Service → Time → Bytes → Incoming → Service × Reply
  handle_message s now msg_type payload =
      if bytes_beq msg_type (ascii "DEVICE_ADVERTISEMENT")
      then handle_device_advertisement s now payload
      else (s, error_reply (ascii "Unknown message type: " ++ msg_type))

  -- The bytes of `_send_reply`. In proto mode an error reply is empty.
  unfoldable pub encode_reply : Bool → Reply → Bytes
  encode_reply true (system_info i) =
      platform.serialize_system_info i.name i.experiment i.ctrl_ip_address i.bandwidth_setting
  encode_reply true (error_reply _) = []
  encode_reply false (system_info i) =
      pack_control_message pickle (ascii "SYSTEM_INFO") (platform.payload_of_system_info i)
  encode_reply false (error_reply e) =
      pack_control_message pickle (ascii "ERROR") (platform.payload_of_error e)

  -- The bytes of `_send_error_reply`.
  unfoldable pub encode_error_reply : Bool → Bytes → Bytes
  encode_error_reply true msg = ascii "ERROR " ++ msg
  encode_error_reply false msg =
      pack_control_message pickle (ascii "ERROR") (platform.payload_of_error msg)

  unfoldable pub reply : Service → Bytes → Service
  reply s bytes = record s { replies = s.replies ++ bytes ∷ [] }

  -- The control branch of `_receive_loop`.
  unfoldable pub receive_control : Service → Time → Bytes → Service
  receive_control s now bytes = elim (parse_request s.proto_mode bytes) [
    | raise e ↦ reply s (encode_error_reply s.proto_mode (platform.text_of_exception e))
    | ok (msg_type, payload) ↦
        let (s', answer) = handle_message s now msg_type payload in
        reply s' (encode_reply s.proto_mode answer)
  ]

  -- One round of `_receive_loop` on a received frame.
  unfoldable pub receive : Service → Time → Bytes → Service
  receive s now bytes =
      if s.proto_mode && is_relay_data bytes
      then reply (record s { fl_relay_queue = s.fl_relay_queue ++ bytes ∷ [] }) (ascii "ACK")
      else receive_control s now bytes

  unfoldable pub worker_args : ContainerConfig → WorkerArgs
  worker_args c = record {
    client_id = c.client_id;
    container_name = c.name;
    partition_path = c.partition_path;
    config_path = c.config_path;
    device_agent_host = c.device_agent_host;
    device_agent_port_offset = c.device_agent_port_offset;
    nic = c.nic;
    shared_nic = c.shared_nic;
    extra_args = elim c.extra_args [ [] ↦ none | e ∷ es ↦ some (e ∷ es) ];
  }

  unfoldable pub container_config_to_proto : ContainerConfig → Result Bytes
  container_config_to_proto c = do
    json_config ← platform.dumps (worker_args c)
    ok (
        platform.serialize_container_config (record {
          name = c.name;
          docker_tag = c.docker_tag;
          device = c.device;
          control_port = c.control_port;
          json_config = json_config;
          executable = ascii "/workspace/launch_worker.sh";
        }))

  unfoldable pub start_frame : Bool → Bytes → ContainerConfig → Result Bytes
  start_frame true device_name c = do
    proto_bytes ← container_config_to_proto c
    ok (encode_pub_frame device_name (ascii "CONTAINER_START") proto_bytes)
  start_frame false device_name c = ok (
      device_name
      ++ (ascii "|"
          ++ pack_control_message pickle (ascii "CONTAINER_START") (platform.payload_of_config c)))

  unfoldable pub stop_frame : Bool → Bytes → Bytes → Bytes
  stop_frame true device_name name =
      encode_pub_frame device_name (ascii "CONTAINER_STOP")
        (platform.serialize_container_signal name false)
  stop_frame false device_name name =
      device_name
      ++ (ascii "|"
          ++ pack_control_message pickle (ascii "CONTAINER_STOP") (platform.payload_of_signal name))

  -- `self.devices[device_name].containers` changed, if the device is there.
  unfoldable pub update_containers :
      Service → Bytes → (Dict Bytes ContainerConfig → Dict Bytes ContainerConfig) → Service
  update_containers s device_name f = elim (lookup device_name s.devices) [
    | none ↦ s
    | some d ↦
        let d' : RegisteredDevice = record d { containers = f d.containers } in
        record s { devices = insert device_name d' s.devices }
  ]

  -- `self._pub_socket.send(frame)`
  unfoldable pub publish : Service → Bytes → Service
  publish s frame = record s { published = s.published ++ frame ∷ [] }

  -- `sent` says whether the socket takes the frame; where it raises, nothing is recorded.
  unfoldable pub send_container_start : Service → Bool → Bytes → ContainerConfig → Service × Bool
  send_container_start s sent device_name c =
      if s.started
      then (elim (start_frame s.proto_mode device_name c) [
        | raise e ↦ (s, false)
        | ok frame ↦
            if sent
            then (update_containers (publish s frame) device_name (insert c.name c), true)
            else (s, false)
      ])
      else (s, false)

  unfoldable pub send_container_stop : Service → Bool → Bytes → Bytes → Service × Bool
  send_container_stop s sent device_name name =
      if s.started && sent
      then (
        update_containers (publish s (stop_frame s.proto_mode device_name name)) device_name
            (remove name),
        true,
      )
      else (s, false)

  unfoldable pub publish_fl_relay : Service → Bytes → Bytes → Bytes → Service
  publish_fl_relay s device_name container_name relay_payload = publish s (
      encode_relay_pub_frame platform.serialize_packaged_msg platform.b64encode s.raw_relay
        device_name container_name relay_payload)

  -- device_set.issubset(registered)
  unfoldable pub all_registered : List Bytes → Dict Bytes RegisteredDevice → Bool
  all_registered [] registry = true
  all_registered (n ∷ names) registry = has_key n registry && all_registered names registry

  -- The clock at the head of the loop, since its start, and the registry that a poll then sees.
  pub record Reading : Type 0 where
    pub elapsed : ℕ
    pub registry : Dict Bytes RegisteredDevice

  -- The loop on the readings; `polled` says that `registered` is bound, which the warning after the
  -- loop reads. The loop is not over when the readings are.
  unfoldable pub wait_loop : List Bytes → ℕ → Bool → List Reading → Option (Result Bool)
  wait_loop names timeout polled [] = none
  wait_loop names timeout polled (r ∷ readings) =
      let rest = wait_loop names timeout true readings in
      if ltb r.elapsed timeout
      then if all_registered names r.registry then some (ok true) else rest
      else some (if polled then ok false else raise name_error)

  unfoldable pub wait_for_devices : List Bytes → ℕ → List Reading → Option (Result Bool)
  wait_for_devices names timeout readings = wait_loop names timeout false readings
