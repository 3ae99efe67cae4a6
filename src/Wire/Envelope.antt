-- ===== src/Wire/Envelope.antt =====
-- distributed/comm/serialization.py: the relay envelope, and the control messages of the pickle
-- wire mode. The pickled bytes are those of a library: `Serializer` has what the code relies on.
use fed_lo_ra_public.Prelude.{
  ℕ, suc, ◌+◌, ◌*◌, ◌/◌, ◌%◌, ◌≡◌, [], ◌∷◌, ◌++◌, none, some, ltb, ◌==◌, length, take, drop, Result,
  ok, raise, ◌>>=◌, value_error, struct_error, if◌then◌else◌, Bool,
}
use fed_lo_ra_public.Wire.Bytes.{Bytes, ascii, index}
use fed_lo_ra_public.Wire.Frame.{decode_utf8}

pub data MessageType : Type 0 where
  to_controller fl_payload control_plane ack error : MessageType

-- int(msg_type)
abbrev pub type_byte : MessageType → ℕ
type_byte to_controller = 0x01
type_byte fl_payload = 0x02
type_byte control_plane = 0x10
type_byte ack = 0x20
type_byte error = 0xFF

-- MessageType(msg_type_int)
unfoldable pub type_of_byte : ℕ → Result MessageType
type_of_byte b =
    if b == 0x01
    then ok to_controller
    else if b == 0x02
    then ok fl_payload
    else if b == 0x10
    then ok control_plane
    else if b == 0x20
    then ok ack
    else if b == 0xFF
    then ok error
    else raise value_error

-- struct.pack('!BH', t, n): a byte and a big-endian 16-bit number, which must fit.
unfoldable pub pack_header : ℕ → ℕ → Result Bytes
pack_header t n = if ltb n 65536 then ok (t ∷ n / 256 ∷ n % 256 ∷ []) else raise struct_error

unfoldable pub pack_relay_envelope : MessageType → Bytes → Bytes → Result Bytes
unfolding pack_header
pack_relay_envelope msg_type source payload = do
  header ← pack_header (type_byte msg_type) (length source)
  ok (header ++ (source ++ payload))

-- struct.unpack('!BH', envelope[:3]) raises on fewer than three bytes.
unfoldable pub unpack_relay_envelope : Bytes → Result (MessageType × Bytes)
unpack_relay_envelope (t ∷ hi ∷ lo ∷ rest) = do
  msg_type ← type_of_byte t
  ok (msg_type, drop (hi * 256 + lo) rest)
unpack_relay_envelope _ = raise struct_error

-- pickle over zlib: reading back what was written gives the value.
pub record Serializer {ℓ} (P : Type ℓ) : Type ℓ where
  pub serialize : P → Bytes
  pub deserialize : Bytes → Result P
  pub deserialize-serialize : (p : P) → deserialize (serialize p) ≡ ok p

module _ {ℓ} {P : Type ℓ} (pickle : Serializer P) where
  unfoldable pub pack_control_message : Bytes → P → Bytes
  pack_control_message msg_type payload = msg_type ++ (ascii " " ++ pickle.serialize payload)

  unfoldable pub unpack_control_message : (Bytes → Bool) → Bytes → Result (Bytes × P)
  unfolding decode_utf8
  unpack_control_message is_utf8 bytes = elim (index b' ' bytes) [
    | none ↦ raise value_error
    | some space_idx ↦ do
      msg_type ← decode_utf8 is_utf8 (take space_idx bytes)
      payload ← pickle.deserialize (drop (suc space_idx) bytes)
      ok (msg_type, payload)
  ]
