-- ===== src/ControlPlane/Tests.antt =====
-- ControlPlaneService of distributed/control_plane/service.py on a platform of identity codecs.
use fed_lo_ra_public.Prelude.{
  arith, Bool, Result, List, ℕ, ◌≡◌, ◌≢◌, refl, true, false, ◌&&◌, [], ◌∷◌, ◌++◌, none, some, Dict,
  nat_eq, lookup, lookup_or, has_key, ok, raise, key_error, if◌then◌else◌,
}
use fed_lo_ra_public.Wire.Bytes.{Bytes, ascii, bytes_eq, bytes_beq}
use fed_lo_ra_public.Wire.Frame.{encode_req_reply, is_relay_data}
use fed_lo_ra_public.Wire.Envelope.{to_controller, pack_relay_envelope, unpack_relay_envelope}
use fed_lo_ra_public.ControlPlane.Types.{
  Platform, DeviceInfo, ContainerConfig, Manifest, ManifestClient,
}
use fed_lo_ra_public.ControlPlane.Manifest.{
  Route, is_truthy, manifest_clients, build_client_routing_table,
}
use fed_lo_ra_public.ControlPlane.Service.{
  RegisteredDevice, Service, device_info_from_proto, device_type_from_enum, send_container_start,
  send_container_stop, receive, Reading, wait_for_devices, RegisteredDevice,
}
use fed_lo_ra_public.ControlPlane.Registry.{Action, act_all, Same, registry_of}
use fed_lo_ra_public.ControlPlane.Refinement.{
  Event, start, stop, frame, run, ExplainsAll, run-refines,
}
use fed_lo_ra_public.ControlPlane.Containers.{container_of, container_of-start, container_of-stop}
use fed_lo_ra_public.ControlPlane.Refreshed.{IsRefreshed}
use fed_lo_ra_public.ControlPlane.Protocol.{
  answer, receive_once, receive_upload, receive_advertisement,
}
use fed_lo_ra_public.ControlPlane.Routing.{
  is_complete, last_route, build_client_routing_table_lem, IsWaited, wait_for_devices_iff,
}

abbrev info_of : Bytes → DeviceInfo
info_of name = record {
  name = name;
  device_type = ascii "agxorin";
  ip_address = ascii "10.0.0.7";
  agent_port_offset = 0;
  processors = 1;
  memory = 32 ∷ [];
}

-- Each codec keeps the bytes that it gets; a DeviceInfo message is the name of the device.
abbrev bench : Platform
bench = record {
  Time = ℕ;
  Payload = Bytes;
  pickle = record {
    serialize = λ p. p;
    deserialize = λ p. ok p;
    deserialize-serialize = λ p. refl;
  };
  device_info_of = λ p. ok (info_of p);
  payload_of_config = λ c. c.name;
  payload_of_signal = λ name. name;
  payload_of_system_info = λ i. i.name;
  payload_of_error = λ e. e;
  is_utf8 = λ bytes. true;
  text_of_exception = λ e. ascii "failed";
  parse_device_info = λ bytes. ok (record {
    name = bytes;
    type = 3;
    processors = 1;
    memory = 32 ∷ [];
    ip_address = ascii "10.0.0.7";
    agent_port_offset = 0;
  });
  serialize_container_config = λ c. c.name;
  serialize_container_signal = λ name force. name;
  serialize_system_info = λ name experiment ip bw. bw ∷ name;
  serialize_packaged_msg = λ name payload. name ++ payload;
  b64encode = λ bytes. bytes;
  dumps = λ a. ok a.container_name;
}

abbrev service : Service bench
service = record {
  host = ascii "10.0.0.1";
  proto_mode = true;
  raw_relay = true;
  started = true;
  devices = [];
  manifest = none;
  bandwidth_setting = 4;
  device_bw_map = [];
  fl_relay_queue = [];
  replies = [];
  published = [];
}

abbrev worker : ContainerConfig
worker = record {
  name = ascii "worker_3";
  executable = [];
  docker_tag = [];
  json_config = [];
  device = 0;
  control_port = 0;
  client_id = 3;
  partition_path = [];
  config_path = [];
  device_agent_host = ascii "localhost";
  device_agent_port_offset = 0;
  nic = [];
  shared_nic = false;
  extra_args = [];
}

-- The service with a device that is registered.
abbrev with_device : Service bench
with_device = record service {
  devices =
      (
        ascii "orin_1",
        record {
          info = info_of (ascii "orin_1");
          registered_at = 2;
          last_seen = 3;
          containers = [];
          is_healthy = false;
        },
      )
      ∷ [];
}

container_of-start_example :
    ((send_container_start bench with_device true (ascii "orin_1") worker).1 ≡ true
      → (d n : Bytes)
      → container_of bench
          (send_container_start bench with_device true (ascii "orin_1") worker).0
          d
          n
        ≡ (if has_key (ascii "orin_1") with_device.devices
              && (bytes_beq (ascii "orin_1") d && bytes_beq worker.name n)
            then some worker
            else container_of bench with_device d n))
    × ((send_container_start bench with_device true (ascii "orin_1") worker).1 ≡ false
        → (send_container_start bench with_device true (ascii "orin_1") worker).0 ≡ with_device)
container_of-start_example = container_of-start bench with_device true (ascii "orin_1") worker

container_of-stop_example :
    ((send_container_stop bench with_device true (ascii "orin_1") (ascii "worker_3")).1 ≡ true
      → (d n : Bytes)
      → container_of bench
          (send_container_stop bench with_device true (ascii "orin_1") (ascii "worker_3")).0
          d
          n
        ≡ (if bytes_beq (ascii "orin_1") d && bytes_beq (ascii "worker_3") n
            then none
            else container_of bench with_device d n))
    × ((send_container_stop bench with_device true (ascii "orin_1") (ascii "worker_3")).1 ≡ false
        → (send_container_stop bench with_device true (ascii "orin_1") (ascii "worker_3")).0
          ≡ with_device)
container_of-stop_example =
    container_of-stop bench with_device true (ascii "orin_1") (ascii "worker_3")

receive_once_example :
    ((receive bench service 5 (ascii "PING x")).replies
      ≡ service.replies ++ answer bench service 5 (ascii "PING x") ∷ [])
    × ((receive bench service 5 (ascii "PING x")).fl_relay_queue ≡ (
        if service.proto_mode && is_relay_data (ascii "PING x")
        then service.fl_relay_queue ++ ascii "PING x" ∷ []
        else service.fl_relay_queue))
receive_once_example = receive_once bench service 5 (ascii "PING x")

abbrev envelope : Bytes
envelope = 1 ∷ 0 ∷ 2 ∷ 119 ∷ 51 ∷ 9 ∷ []

envelope_packed : pack_relay_envelope to_controller (ascii "w3") (9 ∷ []) ≡ ok envelope
unfolding pack_relay_envelope
envelope_packed = refl

receive_upload_example :
    (receive bench service 5 envelope
      ≡ record service { fl_relay_queue = envelope ∷ []; replies = ascii "ACK" ∷ [] })
    × (unpack_relay_envelope envelope ≡ ok (to_controller, 9 ∷ []))
receive_upload_example =
    receive_upload bench service 5 (ascii "w3") (9 ∷ []) envelope refl envelope_packed

orin_parsed : device_info_from_proto bench (ascii "orin_1") ≡ ok (info_of (ascii "orin_1"))
unfolding device_info_from_proto device_type_from_enum
orin_parsed = refl

receive_advertisement_example :
    ((e : RegisteredDevice bench) × (lookup
          (ascii "orin_1")
          (receive bench with_device 5
            (encode_req_reply (ascii "DEVICE_ADVERTISEMENT") (ascii "orin_1"))).devices
        ≡ some e)
      × IsRefreshed bench with_device 5 (info_of (ascii "orin_1")) e)
    × ((receive bench with_device 5
          (encode_req_reply (ascii "DEVICE_ADVERTISEMENT") (ascii "orin_1"))).replies
        ≡ with_device.replies
          ++ bench.serialize_system_info
              (ascii "fedlora_distributed")
              (ascii "fedit_phase1")
              with_device.host
              (lookup_or with_device.bandwidth_setting (ascii "orin_1") with_device.device_bw_map)
            ∷ [])
    × ((other : Bytes)
        → other ≢ ascii "orin_1"
        → lookup other
            (receive bench with_device 5
              (encode_req_reply (ascii "DEVICE_ADVERTISEMENT") (ascii "orin_1"))).devices
          ≡ lookup other with_device.devices)
receive_advertisement_example =
    receive_advertisement bench with_device 5 (ascii "orin_1") (info_of (ascii "orin_1")) refl refl
      orin_parsed

abbrev entry : ManifestClient
entry = record {
  client_id = some 3;
  device_name = some (ascii "orin_1");
  container_name = some (ascii "worker_3");
  partition_path = none;
  nic = none;
  bandwidth_setting_id = none;
}

abbrev manifest_of_one : Manifest
manifest_of_one = record { clients = some (entry ∷ []); has_other_keys = false }

manifest_of_one_truthy : is_truthy (some manifest_of_one) ≡ true
unfolding is_truthy
manifest_of_one_truthy = refl

build_client_routing_table_lem_example :
    (is_complete (manifest_clients manifest_of_one) ≡ true
      → (table : Dict ℕ Route) × (build_client_routing_table (some manifest_of_one) ≡ ok table)
        × ((i : ℕ) → lookup i table ≡ last_route none i (manifest_clients manifest_of_one)))
    × (is_complete (manifest_clients manifest_of_one) ≡ false
        → build_client_routing_table (some manifest_of_one) ≡ raise key_error)
build_client_routing_table_lem_example =
    build_client_routing_table_lem manifest_of_one manifest_of_one_truthy

-- The clock and the registry at each poll, every second.
abbrev readings : List (Reading bench)
readings =
    record { elapsed = 0; registry = [] }
    ∷ record { elapsed = 2; registry = with_device.devices }
    ∷ record { elapsed = 4; registry = [] }
    ∷ record { elapsed = 5; registry = [] }
    ∷ []

wait_for_devices_iff_example :
    (outcome : Result Bool) × (wait_for_devices bench (ascii "orin_1" ∷ []) 3 readings
      ≡ some outcome)
    × IsWaited bench (ascii "orin_1" ∷ []) 3 readings outcome
wait_for_devices_iff_example =
    wait_for_devices_iff bench (ascii "orin_1" ∷ []) 3 1 readings (omega arith)
      (omega arith, (omega arith, (omega arith, (omega arith, tt)))) (omega arith)

-- A start, a frame that is garbage, and the stop.
abbrev events : List (Event bench)
events =
    start true (ascii "orin_1") worker
    ∷ frame 0 (ascii "?")
    ∷ stop true (ascii "orin_1") worker.name
    ∷ []

run-refines_example :
    (actions : List Action) × ExplainsAll bench service events actions
    × Same
        (registry_of bench (run bench events service))
        (act_all actions (registry_of bench service))
run-refines_example = run-refines bench events service
