-- ===== src/Wire/RoundTrip.antt =====
-- What one side of a socket encodes, the other side decodes.
use fed_lo_ra_public.Prelude.{
  ◌+◌, ◌≤◌, ◌<◌, ◌≡◌, ◌↔◌, Bool, true, false, ◌∷◌, ◌++◌, ◌/◌, ◌%◌, ◌*◌, none, some, arith, ◌≢◌, inl,
  inr, refl, ap, ◌∙◌, All, Option-cases, lookup_all, ltb, length, ok, raise, struct_error,
  value_error, has_key, lookup,
}
use fed_lo_ra_public.Wire.Bytes.{
  Bytes, bytes_eq, bytes_beq, free_of, index-append, index_free, take-append_self, drop-append_self,
  drop-append_one, drop-append_two,
}
use fed_lo_ra_public.Wire.MsgType.{
  python_to_wire, wire_to_python, msg_type_to_wire, msg_type_from_wire,
}
use fed_lo_ra_public.Wire.Frame.{
  encode_pub_frame, decode_pub_frame, encode_req_reply, decode_req_frame, is_relay_data,
}
use fed_lo_ra_public.Wire.Envelope.{
  MessageType, type_byte, type_of_byte, pack_relay_envelope, unpack_relay_envelope, Serializer,
  pack_control_message, unpack_control_message, to_controller, ack, error,
}

-- The statement below at a message type.
abbrev Translates : Bytes → Type 0
Translates t = (msg_type_from_wire (msg_type_to_wire t) ≡ t) ↔ (has_key t wire_to_python ≡ false)

Translates-python : All (λ (e : Bytes × Bytes). Translates e.0) python_to_wire
unfolding msg_type_from_wire msg_type_to_wire bytes_beq
Translates-python = (
  (λ _. refl, λ _. refl),
  (
    (λ _. refl, λ _. refl),
    (
      (λ _. refl, λ _. refl),
      ((λ _. refl, λ _. refl), ((λ _. refl, λ _. refl), ((λ _. refl, λ _. refl), tt))),
    ),
  ),
)

-- No type is named alike on both sides.
names_differ : All (λ (e : Bytes × Bytes). e.1 ≢ e.0) wire_to_python
names_differ = (λ e. cc, (λ e. cc, (λ e. cc, (λ e. cc, (λ e. cc, (λ e. cc, tt))))))

to_wire_new : (t : Bytes) → lookup t python_to_wire ≡ none → msg_type_to_wire t ≡ t
unfolding msg_type_to_wire
to_wire_new t h = ground arith

from_wire_none : (t : Bytes) → lookup t wire_to_python ≡ none → msg_type_from_wire t ≡ t
unfolding msg_type_from_wire
from_wire_none t h = ground arith

from_wire_some : (t p : Bytes) → lookup t wire_to_python ≡ some p → msg_type_from_wire t ≡ p
unfolding msg_type_from_wire
from_wire_some t p h = ground arith

-- Translating a message type to the wire and back gives it back exactly when it is none of the
-- wire's own names.
pub msg_type_from_wire-to_wire :
    (t : Bytes) → (msg_type_from_wire (msg_type_to_wire t) ≡ t) ↔ (has_key t wire_to_python ≡ false)
msg_type_from_wire-to_wire t = elim (Option-cases (lookup t python_to_wire)) [
  | inl new ↦ elim (Option-cases (lookup t wire_to_python)) [
    | inl unknown ↦
        (λ _. rw (unknown, has_key), λ _. rw (to_wire_new t new) (from_wire_none t unknown))
    | inr (p, wire) ↦ (
      λ same. absurd (
          lookup_all (λ k v. v ≢ k) wire_to_python t p names_differ wire
            (cc (to_wire_new t new, from_wire_some t p wire))),
      λ absent. absurd (ground arith),
    )
  ]
  | inr (w, known) ↦ lookup_all (λ k v. Translates k) python_to_wire t w Translates-python known
]

module _ (is_utf8 : Bytes → Bool) where
  decode_pub_frame_translated :
      (device_name msg_type payload : Bytes)
      → is_utf8 device_name ≡ true
      → is_utf8 (msg_type_to_wire msg_type) ≡ true
      → free_of b'|' device_name ≡ true
      → free_of b' ' (msg_type_to_wire msg_type) ≡ true
      → decode_pub_frame is_utf8 (encode_pub_frame device_name msg_type payload)
        ≡ ok (device_name, msg_type_from_wire (msg_type_to_wire msg_type), payload)
  unfolding decode_pub_frame encode_pub_frame
  decode_pub_frame_translated name t payload u v f g =
      let wire = msg_type_to_wire t in
      let tail = b' ' ∷ payload in
      let rest = b' ' ∷ (wire ++ tail) in
      ground (
        arith,
        index-append b'|' name rest f,
        take-append_self name (b'|' ∷ rest),
        drop-append_two b'|' b' ' name (wire ++ tail),
        index-append b' ' wire payload g,
        take-append_self wire tail,
        drop-append_one b' ' wire payload,
      )

  -- For a device name without '|' and a wire type without spaces, both of them UTF-8: a frame of the
  -- PUB socket decodes to its device, its message type and its payload, whatever bytes that has,
  -- exactly where the type is none of the wire's own names.
  pub decode-encode_pub_frame :
      (device_name msg_type payload : Bytes)
      → is_utf8 device_name ≡ true
      → is_utf8 (msg_type_to_wire msg_type) ≡ true
      → free_of b'|' device_name ≡ true
      → free_of b' ' (msg_type_to_wire msg_type) ≡ true
      → (decode_pub_frame is_utf8 (encode_pub_frame device_name msg_type payload)
          ≡ ok (device_name, msg_type, payload))
        ↔ (has_key msg_type wire_to_python ≡ false)
  decode-encode_pub_frame name t payload u v f g =
      let read = decode_pub_frame_translated name t payload u v f g in
      let back = msg_type_from_wire-to_wire t in
      (
        λ same. back.0 (cc (same, read)),
        λ plain. read ∙ ap (λ x. ok (name, x, payload)) (back.1 plain),
      )

  -- The same for the request frames of the device agent.
  pub decode-encode_req_reply :
      (msg_type payload : Bytes)
      → is_utf8 (msg_type_to_wire msg_type) ≡ true
      → free_of b' ' (msg_type_to_wire msg_type) ≡ true
      → decode_req_frame is_utf8 (encode_req_reply msg_type payload)
        ≡ ok (msg_type_from_wire (msg_type_to_wire msg_type), payload)
  unfolding decode_req_frame encode_req_reply
  decode-encode_req_reply t payload v g =
      let wire = msg_type_to_wire t in
      ground (
        arith,
        index-append b' ' wire payload g,
        take-append_self wire (b' ' ∷ payload),
        drop-append_one b' ' wire payload,
      )

  -- A frame with no separator is refused and never taken for a message.
  pub decode_pub_frame_refuses :
      (frame : Bytes)
      → free_of b'|' frame ≡ true
      → decode_pub_frame is_utf8 frame ≡ raise value_error
  unfolding decode_pub_frame
  decode_pub_frame_refuses frame h = ground (arith, index_free b'|' frame h)

type_of_byte-type_byte : (t : MessageType) → type_of_byte (type_byte t) ≡ ok t
unfolding type_of_byte
type_of_byte-type_byte to_controller = refl
type_of_byte-type_byte _ = refl

-- A relay envelope is packed exactly when the name of its source has less than 65536 bytes, and
-- what is packed unpacks to the message type and the payload.
pub unpack-pack_relay_envelope :
    (t : MessageType) (source payload : Bytes)
    → (length source < 65536
        → (envelope : Bytes) × (pack_relay_envelope t source payload ≡ ok envelope)
          × (unpack_relay_envelope envelope ≡ ok (t, payload)))
      × (65536 ≤ length source → pack_relay_envelope t source payload ≡ raise struct_error)
unfolding pack_relay_envelope unpack_relay_envelope
unpack-pack_relay_envelope t source payload = (
  λ fits.
      let n = length source in
      let size : n / 256 * 256 + n % 256 ≡ n = omega arith in
      (
        type_byte t ∷ n / 256 ∷ n % 256 ∷ (source ++ payload),
        ground arith,
        rw (size, type_of_byte-type_byte t, drop-append_self source payload),
      ),
  λ big. ground arith,
)

-- Every envelope that is packed unpacks to what was packed.
pub unpack_packed :
    (t : MessageType) (source payload envelope : Bytes)
    → pack_relay_envelope t source payload ≡ ok envelope
    → unpack_relay_envelope envelope ≡ ok (t, payload)
unfolding pack_relay_envelope
unpack_packed t source payload envelope h =
    let whole = unpack-pack_relay_envelope t source payload in
    let fits : length source < 65536 = ground arith in
    let (env, packed, unpacked) = whole.0 fits in
    let same : env ≡ envelope = ground (arith, h, packed) in rw same at unpacked

first_byte :
    (t : MessageType) (source payload envelope : Bytes)
    → pack_relay_envelope t source payload ≡ ok envelope
    → is_relay_data envelope ≡ ltb (type_byte t) 0x20
unfolding pack_relay_envelope is_relay_data
first_byte t source payload envelope h = ground arith

below_space : (t : MessageType) → (ltb (type_byte t) 0x20 ≡ true) ↔ ((t ≢ ack) × (t ≢ error))
below_space ack = (λ e. absurd (cc), λ h. absurd (h.0 refl))
below_space error = (λ e. absurd (cc), λ h. absurd (h.1 refl))
below_space _ = (λ _. (λ e. cc, λ e. cc), λ _. refl)

-- The relay test of the control plane takes an envelope for relay data exactly when it is no
-- acknowledgement and no error.
pub is_relay_data-pack :
    (t : MessageType) (source payload envelope : Bytes)
    → pack_relay_envelope t source payload ≡ ok envelope
    → (is_relay_data envelope ≡ true) ↔ ((t ≢ ack) × (t ≢ error))
is_relay_data-pack t source payload envelope h =
    rw (first_byte t source payload envelope h) (below_space t)

-- A request of a known type is never taken for relay data.
pub is_relay_data-req :
    (t w payload : Bytes)
    → lookup t python_to_wire ≡ some w
    → is_relay_data (encode_req_reply t payload) ≡ false
is_relay_data-req t w payload h =
    lookup_all (λ k v. is_relay_data (encode_req_reply k payload) ≡ false) python_to_wire t w
      (unfold is_relay_data encode_req_reply msg_type_to_wire bytes_beq in
        (refl, (refl, (refl, (refl, (refl, (refl, tt)))))))
      h

module _ {ℓ} {P : Type ℓ} (pickle : Serializer P) where
  -- A control message of the pickle mode is read back, if its type has no space.
  pub unpack-pack_control_message :
      (is_utf8 : Bytes → Bool) (msg_type : Bytes) (payload : P)
      → is_utf8 msg_type ≡ true
      → free_of b' ' msg_type ≡ true
      → unpack_control_message pickle is_utf8 (pack_control_message pickle msg_type payload)
        ≡ ok (msg_type, payload)
  unfolding unpack_control_message pack_control_message
  unpack-pack_control_message is_utf8 t payload v g =
      let bytes = pickle.serialize payload in
      ground (
        arith,
        index-append b' ' t bytes g,
        take-append_self t (b' ' ∷ bytes),
        drop-append_one b' ' t bytes,
        pickle.deserialize-serialize payload,
      )
