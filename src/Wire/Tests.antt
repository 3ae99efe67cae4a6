-- ===== src/Wire/Tests.antt =====
-- The frames and envelopes of distributed/control_plane/proto_bridge.py and
-- distributed/comm/serialization.py on concrete bytes.
use fed_lo_ra_public.Prelude.{
  false, ◌↔◌, has_key, Bool, ◌≡◌, ◌≢◌, ◌↔◌, ◌<◌, ◌≤◌, refl, true, [], ◌∷◌, ok, raise, value_error,
  struct_error, lookup, some, length,
}
use fed_lo_ra_public.Wire.Bytes.{Bytes, ascii, bytes_eq, bytes_beq, free_of}
use fed_lo_ra_public.Wire.MsgType.{wire_to_python}
use fed_lo_ra_public.Wire.MsgType.{python_to_wire, msg_type_to_wire}
use fed_lo_ra_public.Wire.Frame.{encode_pub_frame, decode_pub_frame, is_relay_data}
use fed_lo_ra_public.Wire.Envelope.{
  pack_relay_envelope, unpack_relay_envelope, Serializer, to_controller, ack, error,
}
use fed_lo_ra_public.Wire.RoundTrip.{
  decode-encode_pub_frame, decode_pub_frame_refuses, unpack-pack_relay_envelope, unpack_packed,
  is_relay_data-pack,
}

abbrev identity_pickle : Serializer Bytes
identity_pickle = record {
  serialize = λ p. p;
  deserialize = λ p. ok p;
  deserialize-serialize = λ p. refl;
}

abbrev any_utf8 : Bytes → Bool
any_utf8 bytes = true

start_on_wire : msg_type_to_wire (ascii "CONTAINER_START") ≡ ascii "CONT_START"
unfolding msg_type_to_wire bytes_beq
start_on_wire = refl

ping_on_wire : msg_type_to_wire (ascii "PING") ≡ ascii "PING"
unfolding msg_type_to_wire bytes_beq
ping_on_wire = refl

wire_free : free_of b' ' (msg_type_to_wire (ascii "CONTAINER_START")) ≡ true
unfolding msg_type_to_wire bytes_beq free_of
wire_free = refl

name_free : free_of b'|' (ascii "orin_1") ≡ true
unfolding free_of
name_free = refl

decode-encode_pub_frame_example :
    (decode_pub_frame any_utf8
        (encode_pub_frame (ascii "orin_1") (ascii "CONTAINER_START") (7 ∷ 124 ∷ 32 ∷ []))
      ≡ ok (ascii "orin_1", ascii "CONTAINER_START", 7 ∷ 124 ∷ 32 ∷ []))
    ↔ (has_key (ascii "CONTAINER_START") wire_to_python ≡ false)
decode-encode_pub_frame_example =
    decode-encode_pub_frame any_utf8 (ascii "orin_1") (ascii "CONTAINER_START") (7 ∷ 124 ∷ 32 ∷ [])
      refl refl name_free wire_free

decode_pub_frame_refuses_example : decode_pub_frame any_utf8 (ascii "orin_1") ≡ raise value_error
decode_pub_frame_refuses_example = decode_pub_frame_refuses any_utf8 (ascii "orin_1") name_free

unpack-pack_relay_envelope_example :
    (length (ascii "worker_3") < 65536
      → (envelope : Bytes) × (pack_relay_envelope to_controller (ascii "worker_3") (1 ∷ 2 ∷ [])
          ≡ ok envelope)
        × (unpack_relay_envelope envelope ≡ ok (to_controller, 1 ∷ 2 ∷ [])))
    × (65536 ≤ length (ascii "worker_3")
        → pack_relay_envelope to_controller (ascii "worker_3") (1 ∷ 2 ∷ []) ≡ raise struct_error)
unpack-pack_relay_envelope_example =
    unpack-pack_relay_envelope to_controller (ascii "worker_3") (1 ∷ 2 ∷ [])

worker_packed :
    pack_relay_envelope to_controller (ascii "w3") (9 ∷ []) ≡ ok (1 ∷ 0 ∷ 2 ∷ 119 ∷ 51 ∷ 9 ∷ [])
unfolding pack_relay_envelope
worker_packed = refl

unpack_packed_example :
    unpack_relay_envelope (1 ∷ 0 ∷ 2 ∷ 119 ∷ 51 ∷ 9 ∷ []) ≡ ok (to_controller, 9 ∷ [])
unpack_packed_example =
    unpack_packed to_controller (ascii "w3") (9 ∷ []) (1 ∷ 0 ∷ 2 ∷ 119 ∷ 51 ∷ 9 ∷ []) worker_packed

is_relay_data-pack_example :
    (is_relay_data (1 ∷ 0 ∷ 2 ∷ 119 ∷ 51 ∷ 9 ∷ []) ≡ true)
    ↔ ((to_controller ≢ ack) × (to_controller ≢ error))
is_relay_data-pack_example =
    is_relay_data-pack to_controller (ascii "w3") (9 ∷ []) (1 ∷ 0 ∷ 2 ∷ 119 ∷ 51 ∷ 9 ∷ [])
      worker_packed

stop_known : lookup (ascii "CONTAINER_STOP") python_to_wire ≡ some (ascii "CONT_STOP")
unfolding lookup bytes_beq
stop_known = refl

name_unspaced : free_of b' ' (ascii "orin_1") ≡ true
unfolding free_of
name_unspaced = refl
