-- ===== src/ControlPlane/Containers.antt =====
-- distributed/control_plane/service.py: which containers the registry says run on which device.
use fed_lo_ra_public.Prelude.{
  ◌≡◌, refl, Bool, true, false, ◌&&◌, List, [], ◌∷◌, ◌++◌, Option, none, some, arith, Dict, lookup,
  has_key, insert, remove, lookup-insert, lookup-remove, lookup-nil, if◌then◌else◌, Option-cases,
  inl, inr, Result-cases,
}
use fed_lo_ra_public.Wire.Bytes.{Bytes, ascii, bytes_eq, bytes_beq, bytes_beq_iff}
use fed_lo_ra_public.ControlPlane.Types.{ContainerConfig, Platform}
use fed_lo_ra_public.ControlPlane.Manifest.{validate_device_manifest}
use fed_lo_ra_public.ControlPlane.Service.{
  Service, Incoming, registered, handle_device_advertisement, handle_message, reply,
  receive_control, receive, update_containers, publish, send_container_start, send_container_stop,
  parse_request, from_dict, start_frame, stop_frame, encode_reply, encode_error_reply,
}

module _ (platform : Platform) where
  -- The container that the registry lists under a device.
  unfoldable pub container_of : Service platform → Bytes → Bytes → Option ContainerConfig
  container_of s device_name name = elim (lookup device_name s.devices) [
    | none ↦ none
    | some d ↦ lookup name d.containers
  ]

  container_of-update :
      (s : Service platform) (device_name d n : Bytes)
      (f : Dict Bytes ContainerConfig → Dict Bytes ContainerConfig)
      → container_of (update_containers platform s device_name f) d n ≡ (
          if bytes_beq device_name d
          then elim (lookup d s.devices) [ none ↦ none | some e ↦ lookup n (f e.containers) ]
          else container_of s d n)
  unfolding container_of update_containers
  container_of-update s device_name d n f = elim (Option-cases (lookup device_name s.devices)) [
    | inl absent ↦ ground (arith, bytes_beq_iff device_name d)
    | inr (e, there) ↦ ground (
      arith,
      bytes_beq_iff device_name d,
      lookup-insert device_name d (record e { containers = f e.containers }) s.devices,
    )
  ]

  container_of-publish :
      (s : Service platform) (frame d n : Bytes)
      → container_of (publish platform s frame) d n ≡ container_of s d n
  unfolding container_of publish
  container_of-publish s frame d n = refl

  -- The registry after a frame was sent and the device's containers were changed by `f`.
  container_of-sent :
      (s : Service platform) (frame device_name d n : Bytes)
      (f : Dict Bytes ContainerConfig → Dict Bytes ContainerConfig)
      → container_of (update_containers platform (publish platform s frame) device_name f) d n ≡ (
          if bytes_beq device_name d
          then elim (lookup d s.devices) [ none ↦ none | some e ↦ lookup n (f e.containers) ]
          else container_of s d n)
  unfolding publish
  container_of-sent s frame device_name d n f = ground (
    arith,
    container_of-update (publish platform s frame) device_name d n f,
    container_of-publish s frame d n,
  )

  container_of-inserted :
      (s : Service platform) (frame device_name d n : Bytes) (c : ContainerConfig)
      → container_of
          (update_containers platform (publish platform s frame) device_name (insert c.name c))
          d
          n
        ≡ (if has_key device_name s.devices && (bytes_beq device_name d && bytes_beq c.name n)
            then some c
            else container_of s d n)
  unfolding container_of
  container_of-inserted s frame device_name d n c =
      let step = container_of-sent s frame device_name d n (insert c.name c) in
      elim (Option-cases (lookup device_name s.devices)) [
        | inl absent ↦ ground (arith, step, bytes_beq_iff device_name d)
        | inr (e, there) ↦
            ground (arith, step, bytes_beq_iff device_name d, lookup-insert c.name n c e.containers)
      ]

  container_of-removed :
      (s : Service platform) (frame device_name d n name : Bytes)
      → container_of
          (update_containers platform (publish platform s frame) device_name (remove name))
          d
          n
        ≡ (if bytes_beq device_name d && bytes_beq name n then none else container_of s d n)
  unfolding container_of
  container_of-removed s frame device_name d n name =
      let step = container_of-sent s frame device_name d n (remove name) in
      elim (Option-cases (lookup device_name s.devices)) [
        | inl absent ↦ ground (arith, step, bytes_beq_iff device_name d)
        | inr (e, there) ↦
            ground (arith, step, bytes_beq_iff device_name d, lookup-remove name n e.containers)
      ]

  -- A start that reports success lists the container under the device, if the device is
  -- registered, and changes no other entry; one that reports failure changes nothing.
  pub container_of-start :
      (s : Service platform) (sent : Bool) (device_name : Bytes) (c : ContainerConfig)
      → ((send_container_start platform s sent device_name c).1 ≡ true
          → (d n : Bytes)
          → container_of (send_container_start platform s sent device_name c).0 d n ≡ (
              if has_key device_name s.devices && (bytes_beq device_name d && bytes_beq c.name n)
              then some c
              else container_of s d n))
        × ((send_container_start platform s sent device_name c).1 ≡ false
            → (send_container_start platform s sent device_name c).0 ≡ s)
  unfolding send_container_start
  container_of-start s sent device_name c =
      elim (Result-cases (start_frame platform s.proto_mode device_name c)) [
        | inl (frame, e) ↦ (
          λ done d n. ground (arith, e, container_of-inserted s frame device_name d n c),
          ground (arith, e),
        )
        | inr (x, e) ↦ (λ done d n. absurd (ground (arith, e, done)), ground (arith, e))
      ]

  -- A stop that reports success leaves the registry without the container under that device and
  -- changes no other entry; one that reports failure changes nothing.
  pub container_of-stop :
      (s : Service platform) (sent : Bool) (device_name name : Bytes)
      → ((send_container_stop platform s sent device_name name).1 ≡ true
          → (d n : Bytes)
          → container_of (send_container_stop platform s sent device_name name).0 d n
            ≡ (if bytes_beq device_name d && bytes_beq name n then none else container_of s d n))
        × ((send_container_stop platform s sent device_name name).1 ≡ false
            → (send_container_stop platform s sent device_name name).0 ≡ s)
  unfolding send_container_stop
  container_of-stop s sent device_name name = (
    λ done d n. ground (
      arith,
      done,
      container_of-removed s (stop_frame platform s.proto_mode device_name name) device_name d n
          name,
    ),
    ground arith,
  )

  container_of-advertised :
      (s : Service platform) (now : platform.Time) (payload : Incoming platform) (d n : Bytes)
      → container_of (handle_device_advertisement platform s now payload).0 d n ≡ container_of s d n
  unfolding handle_device_advertisement container_of registered
  container_of-advertised s now payload d n = elim (Result-cases (from_dict platform payload)) [
    | inl (info, e) ↦
        let valid = validate_device_manifest s.manifest info.name in
        let entry = registered platform (lookup info.name s.devices) info now valid in
        ground (
          arith,
          e,
          bytes_beq_iff info.name d,
          lookup-insert info.name d entry s.devices,
          lookup-nil {K = Bytes} {V = ContainerConfig} n,
        )
    | inr (x, e) ↦ ground (arith, e)
  ]

  container_of-reply :
      (s : Service platform) (bytes d n : Bytes)
      → container_of (reply platform s bytes) d n ≡ container_of s d n
  unfolding container_of reply
  container_of-reply s bytes d n = refl

  container_of-handled :
      (s : Service platform) (now : platform.Time) (t : Bytes) (payload : Incoming platform)
      (d n : Bytes)
      → container_of (handle_message platform s now t payload).0 d n ≡ container_of s d n
  unfolding handle_message
  container_of-handled s now t payload d n =
      ground (arith, container_of-advertised s now payload d n)

  container_of-control :
      (s : Service platform) (now : platform.Time) (bytes d n : Bytes)
      → container_of (receive_control platform s now bytes) d n ≡ container_of s d n
  unfolding receive_control
  container_of-control s now bytes d n =
      elim (Result-cases (parse_request platform s.proto_mode bytes)) [
        | inl ((t, payload), e) ↦
            let (s', answer) = handle_message platform s now t payload in
            ground (
              arith,
              e,
              container_of-reply s' (encode_reply platform s.proto_mode answer) d n,
              container_of-handled s now t payload d n,
            )
        | inr (x, e) ↦ ground (
          arith,
          e,
          container_of-reply s
              (encode_error_reply platform s.proto_mode (platform.text_of_exception x)) d n,
        )
      ]

  container_of-queued :
      (s : Service platform) (queue : List Bytes) (d n : Bytes)
      → container_of (record s { fl_relay_queue = queue }) d n ≡ container_of s d n
  unfolding container_of
  container_of-queued s queue d n = refl

  -- Whatever arrives on the REP socket (an advertisement of a new or a known device, another
  -- request, relay data or garbage), the containers that the registry lists stay as they are.
  pub container_of-receive :
      (s : Service platform) (now : platform.Time) (bytes d n : Bytes)
      → container_of (receive platform s now bytes) d n ≡ container_of s d n
  unfolding receive
  container_of-receive s now bytes d n =
      let queue = s.fl_relay_queue ++ bytes ∷ [] in
      ground (
        arith,
        container_of-control s now bytes d n,
        container_of-queued s queue d n,
        container_of-reply (record s { fl_relay_queue = queue }) (ascii "ACK") d n,
      )
