-- ===== src/Wire/Frame.antt =====
-- distributed/control_plane/proto_bridge.py: the frames of the PUB and REQ sockets, the detection
-- of relay data, and the relay frames. `is_utf8` says which bytes `decode("utf-8")` accepts.
use fed_lo_ra_public.Prelude.{
  ℕ, suc, Bool, false, not, ◌||◌, [], ◌∷◌, ◌++◌, Option, none, some, ltb, take, drop, Result, ok,
  raise, ◌>>=◌, value_error, unicode_error, if◌then◌else◌,
}
use fed_lo_ra_public.Wire.Bytes.{Bytes, ascii, bytes_beq, index}
use fed_lo_ra_public.Wire.MsgType.{msg_type_to_wire, msg_type_from_wire}

unfoldable pub encode_pub_frame : Bytes → Bytes → Bytes → Bytes
encode_pub_frame device_name msg_type payload =
    device_name ++ (ascii "| " ++ (msg_type_to_wire msg_type ++ (ascii " " ++ payload)))

unfoldable pub encode_req_reply : Bytes → Bytes → Bytes
encode_req_reply msg_type payload = msg_type_to_wire msg_type ++ (ascii " " ++ payload)

-- `frame.index(c)` raises where the byte is missing.
unfoldable pub index_or_raise : ℕ → Bytes → Result ℕ
index_or_raise c frame = elim (index c frame) [ none ↦ raise value_error | some i ↦ ok i ]

module _ (is_utf8 : Bytes → Bool) where
  unfoldable pub decode_utf8 : Bytes → Result Bytes
  decode_utf8 bytes = if is_utf8 bytes then ok bytes else raise unicode_error

  unfoldable pub decode_req_frame : Bytes → Result (Bytes × Bytes)
  unfolding index_or_raise decode_utf8
  decode_req_frame frame = do
    space_idx ← index_or_raise b' ' frame
    wire_type ← decode_utf8 (take space_idx frame)
    ok (msg_type_from_wire wire_type, drop (suc space_idx) frame)

  unfoldable pub decode_pub_frame : Bytes → Result (Bytes × Bytes × Bytes)
  unfolding index_or_raise decode_utf8
  decode_pub_frame frame = do
    pipe_idx ← index_or_raise b'|' frame
    device_name ← decode_utf8 (take pipe_idx frame)
    let remainder = drop (suc (suc pipe_idx)) frame
    space_idx ← index_or_raise b' ' remainder
    wire_type ← decode_utf8 (take space_idx remainder)
    ok (device_name, msg_type_from_wire wire_type, drop (suc space_idx) remainder)

unfoldable pub is_relay_data : Bytes → Bool
is_relay_data [] = false
is_relay_data (b ∷ raw) = ltb b 0x20

-- os.environ.get(...).lower() not in ("1", "true", "yes", "on")
unfoldable pub relay_uses_raw_bytes : (Bytes → Bytes) → Option Bytes → Bool
unfolding bytes_beq
relay_uses_raw_bytes lower env =
    let value = lower (elim env [ none ↦ ascii "0" | some v ↦ v ]) in
    not (
      bytes_beq value (ascii "1")
      || (bytes_beq value (ascii "true")
          || (bytes_beq value (ascii "yes") || bytes_beq value (ascii "on"))))

-- `packaged` serialises a protobuf PackagedMsg from its two fields; `b64encode` is base64's.
module _ (packaged : Bytes → Bytes → Bytes) (b64encode : Bytes → Bytes) where
  unfoldable pub packaged_msg_to_proto : Bool → Bytes → Bytes → Bytes
  packaged_msg_to_proto raw target_name payload =
      packaged target_name (if raw then payload else b64encode payload)

  unfoldable pub encode_relay_pub_frame : Bool → Bytes → Bytes → Bytes → Bytes
  unfolding packaged_msg_to_proto
  encode_relay_pub_frame raw device_name container_name relay_payload =
      encode_pub_frame device_name (ascii "TO_CONTAINER")
        (packaged_msg_to_proto raw container_name relay_payload)
