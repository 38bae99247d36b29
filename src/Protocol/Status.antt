-- ===== src/Protocol/Status.antt =====
-- enum StatusEnum of protos/common.proto, and its names in include/chat/protocol.h.
use simple_chat_protocol.Prelude.{ℕ, String, ◌==◌, if◌then◌else◌}

-- A proto3 enum is open: a message may carry any int32, here as its 32-bit pattern.
abbrev pub StatusEnum : Type 0
StatusEnum = ℕ

abbrev pub active : StatusEnum
active = 0

abbrev pub do_not_disturb : StatusEnum
do_not_disturb = 1

abbrev pub invisible : StatusEnum
invisible = 2

unfoldable pub status_to_display : StatusEnum → String
status_to_display s =
    if s == active
    then "ACTIVO"
    else if s == do_not_disturb
    then "OCUPADO"
    else if s == invisible
    then "INACTIVO"
    else "DESCONOCIDO"

unfoldable pub status_to_proto_name : StatusEnum → String
status_to_proto_name s =
    if s == active
    then "ACTIVE"
    else if s == do_not_disturb
    then "DO_NOT_DISTURB"
    else if s == invisible
    then "INVISIBLE"
    else "UNKNOWN"
