-- ===== src/ControlPlane/Protocol.antt =====
-- distributed/control_plane/service.py: the request loop. One reply for each frame, where relay
-- data goes, and what an advertisement does.
use fed_lo_ra_public.Prelude.{
  ◌≡◌, ◌≢◌, refl, true, ◌&&◌, [], ◌∷◌, ◌++◌, some, arith, lookup, lookup_or, lookup-insert,
  if◌then◌else◌, inl, inr, ok, raise, Result-cases,
}
use fed_lo_ra_public.Wire.Bytes.{Bytes, ascii, bytes_eq, bytes_beq, bytes_beq_iff, free_of}
use fed_lo_ra_public.Wire.MsgType.{msg_type_to_wire, msg_type_from_wire}
use fed_lo_ra_public.Wire.Frame.{encode_req_reply, decode_req_frame, is_relay_data}
use fed_lo_ra_public.Wire.Envelope.{to_controller, pack_relay_envelope, unpack_relay_envelope}
use fed_lo_ra_public.Wire.RoundTrip.{
  unpack_packed, decode-encode_req_reply, is_relay_data-req, is_relay_data-pack,
}
use fed_lo_ra_public.ControlPlane.Refreshed.{IsRefreshed, registered-IsRefreshed}
use fed_lo_ra_public.ControlPlane.Types.{DeviceInfo, Platform}
use fed_lo_ra_public.ControlPlane.Manifest.{validate_device_manifest}
use fed_lo_ra_public.ControlPlane.Service.{
  Service, RegisteredDevice, Incoming, device, registered, handle_device_advertisement,
  handle_message, reply, receive_control, receive, parse_request, parse_proto_req,
  device_info_from_proto, from_dict, encode_reply, encode_error_reply,
}

decode_advertisement :
    (platform : Platform) (proto_bytes : Bytes)
    → platform.is_utf8 (ascii "DEV_AD") ≡ true
    → decode_req_frame platform.is_utf8
        (encode_req_reply (ascii "DEVICE_ADVERTISEMENT") proto_bytes)
      ≡ ok (ascii "DEVICE_ADVERTISEMENT", proto_bytes)
unfolding msg_type_to_wire msg_type_from_wire bytes_beq free_of
decode_advertisement platform proto_bytes utf8 =
    decode-encode_req_reply platform.is_utf8 (ascii "DEVICE_ADVERTISEMENT") proto_bytes utf8 refl

module _ (platform : Platform) where
  replies-advertised :
      (s : Service platform) (now : platform.Time) (payload : Incoming platform)
      → (handle_device_advertisement platform s now payload).0.replies ≡ s.replies
  unfolding handle_device_advertisement
  replies-advertised s now payload = ground arith

  replies-handled :
      (s : Service platform) (now : platform.Time) (t : Bytes) (payload : Incoming platform)
      → (handle_message platform s now t payload).0.replies ≡ s.replies
  unfolding handle_message
  replies-handled s now t payload = ground (arith, replies-advertised s now payload)

  queue-handled :
      (s : Service platform) (now : platform.Time) (t : Bytes) (payload : Incoming platform)
      → (handle_message platform s now t payload).0.fl_relay_queue ≡ s.fl_relay_queue
  unfolding handle_message handle_device_advertisement
  queue-handled s now t payload = ground arith

  -- The bytes that the loop answers a frame with.
  unfoldable pub answer : Service platform → platform.Time → Bytes → Bytes
  answer s now bytes =
      if s.proto_mode && is_relay_data bytes
      then ascii "ACK"
      else (elim (parse_request platform s.proto_mode bytes) [
        | raise e ↦ encode_error_reply platform s.proto_mode (platform.text_of_exception e)
        | ok (t, payload) ↦
            encode_reply platform s.proto_mode (handle_message platform s now t payload).1
      ])

  -- The REQ/REP discipline: every frame, good or bad, gets exactly one reply, and only relay data
  -- of the proto mode enters the queue of the FL plane, at its end.
  pub receive_once :
      (s : Service platform) (now : platform.Time) (bytes : Bytes)
      → ((receive platform s now bytes).replies ≡ s.replies ++ answer s now bytes ∷ [])
        × ((receive platform s now bytes).fl_relay_queue ≡ (
            if s.proto_mode && is_relay_data bytes
            then s.fl_relay_queue ++ bytes ∷ []
            else s.fl_relay_queue))
  unfolding receive receive_control reply answer
  receive_once s now bytes = elim (Result-cases (parse_request platform s.proto_mode bytes)) [
    | inl ((t, payload), e) ↦ (
      ground (arith, e, replies-handled s now t payload),
      ground (arith, e, queue-handled s now t payload),
    )
    | inr (x, e) ↦ (ground (arith, e), ground (arith, e))
  ]

  -- A worker's upload crosses the gateway: in proto mode its envelope is queued for the FL plane
  -- as it came, acknowledged, and unpacks there to the worker's payload; the registry is untouched.
  pub receive_upload :
      (s : Service platform) (now : platform.Time) (source payload envelope : Bytes)
      → s.proto_mode ≡ true
      → pack_relay_envelope to_controller source payload ≡ ok envelope
      → (receive platform s now envelope ≡ record s {
        fl_relay_queue = s.fl_relay_queue ++ envelope ∷ [];
        replies = s.replies ++ ascii "ACK" ∷ [];
      })
        × (unpack_relay_envelope envelope ≡ ok (to_controller, payload))
  unfolding receive reply
  receive_upload s now source payload envelope proto packed =
      let relayed =
        (is_relay_data-pack to_controller source payload envelope packed).1 (λ e. cc, λ e. cc) in
      (ground (arith, relayed), unpack_packed to_controller source payload envelope packed)

  parse_advertisement :
      (proto_bytes : Bytes) (info : DeviceInfo)
      → platform.is_utf8 (ascii "DEV_AD") ≡ true
      → device_info_from_proto platform proto_bytes ≡ ok info
      → parse_proto_req platform (encode_req_reply (ascii "DEVICE_ADVERTISEMENT") proto_bytes)
        ≡ ok (ascii "DEVICE_ADVERTISEMENT", device info)
  unfolding parse_proto_req
  parse_advertisement proto_bytes info utf8 parsed = ground (
    arith,
    decode_advertisement platform proto_bytes utf8,
    parsed,
    bytes_beq_iff (ascii "DEVICE_ADVERTISEMENT") (ascii "DEVICE_ADVERTISEMENT"),
  )

  -- An advertisement of the device agent (proto mode) registers the device: a new one from now
  -- on without containers, a known one with its first registration time and its containers kept, in
  -- both cases with the new information, seen now, and healthy exactly where the manifest is empty
  -- or names the device. The reply is a SystemInfo with the device's own bandwidth setting, or the
  -- global one, and no other device's entry changes.
  pub receive_advertisement :
      (s : Service platform) (now : platform.Time) (proto_bytes : Bytes) (info : DeviceInfo)
      → s.proto_mode ≡ true
      → platform.is_utf8 (ascii "DEV_AD") ≡ true
      → device_info_from_proto platform proto_bytes ≡ ok info
      → ((e : RegisteredDevice platform) × (lookup info.name
              (receive platform s now
                (encode_req_reply (ascii "DEVICE_ADVERTISEMENT") proto_bytes)).devices
            ≡ some e)
          × IsRefreshed platform s now info e)
        × ((receive platform s now
              (encode_req_reply (ascii "DEVICE_ADVERTISEMENT") proto_bytes)).replies
            ≡ s.replies
              ++ platform.serialize_system_info
                  (ascii "fedlora_distributed")
                  (ascii "fedit_phase1")
                  s.host
                  (lookup_or s.bandwidth_setting info.name s.device_bw_map)
                ∷ [])
        × ((other : Bytes)
            → other ≢ info.name
            → lookup other
                (receive platform s now
                  (encode_req_reply (ascii "DEVICE_ADVERTISEMENT") proto_bytes)).devices
              ≡ lookup other s.devices)
  unfolding receive receive_control parse_request handle_message handle_device_advertisement
      from_dict encode_reply reply
  receive_advertisement s now proto_bytes info proto utf8 parsed =
      let advert = ascii "DEVICE_ADVERTISEMENT" in
      let entry =
        registered platform (lookup info.name s.devices) info now
          (validate_device_manifest s.manifest info.name) in
      let request = parse_advertisement proto_bytes info utf8 parsed in
      let control =
        is_relay_data-req advert (ascii "DEV_AD") proto_bytes (unfold lookup bytes_beq in refl) in
      let known = bytes_beq_iff advert advert in
      (
        (
          entry,
          ground (
            arith,
            request,
            control,
            known,
            lookup-insert info.name info.name entry s.devices,
            bytes_beq_iff info.name info.name,
          ),
          registered-IsRefreshed platform s now info,
        ),
        ground (arith, request, control, known),
        λ other different. ground (
          arith,
          request,
          control,
          known,
          lookup-insert info.name other entry s.devices,
          bytes_beq_iff info.name other,
        ),
      )
