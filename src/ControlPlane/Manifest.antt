-- ===== src/ControlPlane/Manifest.antt =====
-- distributed/control_plane/service.py: what the service reads from the client manifest.
use fed_lo_ra_public.Prelude.{
  ℕ, Bool, true, false, ◌||◌, List, [], ◌∷◌, Option, none, some, Dict, nat_eq, insert, Result, ok,
  raise, ◌>>=◌, key_error, length, take, if◌then◌else◌,
}
use fed_lo_ra_public.Wire.Bytes.{Bytes, ascii, bytes_eq, bytes_beq}
use fed_lo_ra_public.ControlPlane.Types.{Manifest, ManifestClient, ContainerConfig}

-- `if self.manifest:` of a dict is false where the dict is empty.
unfoldable pub is_truthy : Option Manifest → Bool
is_truthy none = false
is_truthy (some m) = elim m.clients [ none ↦ m.has_other_keys | some cs ↦ true ]

-- self.manifest.get("clients", [])
unfoldable pub manifest_clients : Manifest → List ManifestClient
manifest_clients m = elim m.clients [ none ↦ [] | some cs ↦ cs ]

-- d[key]
unfoldable pub required {ℓ} : {A : Type ℓ} → Option A → Result A
required none = raise key_error
required (some a) = ok a

-- The loop of `load_manifest` that rebuilds `_device_bw_map`, which keeps the entries that it has
-- where a client without a device name raises.
unfoldable pub bandwidth_map : Dict Bytes ℕ → List ManifestClient → Dict Bytes ℕ × Result (Unit {0})
bandwidth_map m [] = (m, ok tt)
bandwidth_map m (c ∷ cs) = elim c.bandwidth_setting_id [
  | none ↦ bandwidth_map m cs
  | some bw_id ↦ elim c.device_name [
    | none ↦ (m, raise key_error)
    | some device_name ↦ bandwidth_map (insert device_name bw_id m) cs
  ]
]

-- A client of the list has the device's name.
unfoldable pub names_device : Bytes → List ManifestClient → Bool
names_device name [] = false
names_device name (c ∷ cs) =
    elim c.device_name [ none ↦ false | some n ↦ bytes_beq n name ] || names_device name cs

unfoldable pub validate_device_manifest : Option Manifest → Bytes → Bool
unfolding is_truthy manifest_clients names_device
validate_device_manifest none name = true
validate_device_manifest (some m) name =
    if is_truthy (some m) then names_device name (manifest_clients m) else true

-- The values of the routing table: {device_name, container_name}.
pub record Route : Type 0 where
  pub device_name : Bytes
  pub container_name : Bytes

unfoldable pub routes_from : Dict ℕ Route → List ManifestClient → Result (Dict ℕ Route)
unfolding required
routes_from routing [] = ok routing
routes_from routing (c ∷ cs) = do
  client_id ← required c.client_id
  device_name ← required c.device_name
  container_name ← required c.container_name
  routes_from
      (insert client_id (record { device_name = device_name; container_name = container_name })
        routing)
      cs

unfoldable pub build_client_routing_table : Option Manifest → Result (Dict ℕ Route)
unfolding is_truthy manifest_clients routes_from
build_client_routing_table none = ok []
build_client_routing_table (some m) =
    if is_truthy (some m) then routes_from [] (manifest_clients m) else ok []

-- s.startswith(prefix)
unfoldable pub starts_with : Bytes → Bytes → Bool
unfolding bytes_beq
starts_with prefix s = bytes_beq (take (length prefix) s) prefix

-- `join` is str(Path(root) / path). An empty partition path stays empty.
module _ (join : Bytes → Bytes → Bytes) where
  unfoldable pub partition_path_of : Option Bytes → Option Bytes → Bytes
  partition_path_of root none = []
  partition_path_of root (some []) = []
  partition_path_of none (some (b ∷ raw)) = b ∷ raw
  partition_path_of (some []) (some (b ∷ raw)) = b ∷ raw
  partition_path_of (some (r ∷ root)) (some (b ∷ raw)) = join (r ∷ root) (b ∷ raw)

  unfoldable pub container_config_from_manifest_client :
      ManifestClient → Bytes → Bytes → ℕ → Option Bytes → Bytes → Result ContainerConfig
  unfolding required partition_path_of starts_with
  container_config_from_manifest_client entry config_path host port_offset partition_root
        executable =
      do
        client_id ← required entry.client_id
        name ← required entry.container_name
        ok (record {
          name = name;
          executable = executable;
          docker_tag = [];
          json_config = [];
          device = 0;
          control_port = 0;
          client_id = client_id;
          partition_path = partition_path_of partition_root entry.partition_path;
          config_path = config_path;
          device_agent_host = host;
          device_agent_port_offset = port_offset;
          nic = elim entry.nic [ none ↦ [] | some n ↦ n ];
          shared_nic = elim entry.device_name [
            | none ↦ false
            | some n ↦ starts_with (ascii "crystal_") n
          ];
          extra_args = [];
        })
