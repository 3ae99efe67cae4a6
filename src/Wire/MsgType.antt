-- ===== src/Wire/MsgType.antt =====
-- distributed/control_plane/proto_bridge.py: the names of the message types on the two sides.
use fed_lo_ra_public.Prelude.{[], ◌∷◌, Dict, lookup, lookup_or}
use fed_lo_ra_public.Wire.Bytes.{Bytes, ascii, bytes_eq}

abbrev pub python_to_wire : Dict Bytes Bytes
python_to_wire =
    (ascii "CONTAINER_START", ascii "CONT_START")
    ∷ (ascii "DEVICE_ADVERTISEMENT", ascii "DEV_AD")
    ∷ (ascii "CONTAINER_STOP", ascii "CONT_STOP")
    ∷ (ascii "CONNECT_DEVICE", ascii "CON_DEV")
    ∷ (ascii "TO_CONTROLLER", ascii "FWD_CTRL")
    ∷ (ascii "TO_CONTAINER", ascii "FWD_CONT")
    ∷ []

-- {v: k for k, v in d.items()}; no two types have one wire name here.
abbrev inverse : Dict Bytes Bytes → Dict Bytes Bytes
inverse [] = []
inverse ((k, v) ∷ d) = (v, k) ∷ inverse d

abbrev pub wire_to_python : Dict Bytes Bytes
wire_to_python = inverse python_to_wire

unfoldable pub msg_type_to_wire : Bytes → Bytes
unfolding lookup
msg_type_to_wire t = lookup_or t t python_to_wire

unfoldable pub msg_type_from_wire : Bytes → Bytes
unfolding lookup
msg_type_from_wire t = lookup_or t t wire_to_python
