-- ===== src/Msg/Serialize.antt =====
-- file_server/src/common/msg.c: the byte order of the fields.
use file_server.Base.{ℕ, ◌+◌, ◌*◌, ◌/◌, ◌%◌, List, [], ◌∷◌}
use file_server.Msg.{Header, Msg, header, command, transfer}

-- The bytes of a `uint32_t` in memory, the lowest first: the build is for x86-64.
abbrev pub word_bytes : ℕ → List ℕ
word_bytes w = w % 256 ∷ w / 256 % 256 ∷ w / 65_536 % 256 ∷ w / 16_777_216 ∷ []

abbrev pub word_of : ℕ → ℕ → ℕ → ℕ → ℕ
word_of a b c d = a + b * 256 + c * 65_536 + d * 16_777_216

-- On such a host `htonl` and `ntohl` both turn the four bytes round.
unfoldable pub htonl : ℕ → ℕ
htonl w = word_of (w / 16_777_216) (w / 65_536 % 256) (w / 256 % 256) (w % 256)

unfoldable pub ntohl : ℕ → ℕ
ntohl w = word_of (w / 16_777_216) (w / 65_536 % 256) (w / 256 % 256) (w % 256)

unfoldable pub serialize_msg_header : Header → Header
serialize_msg_header h = record {
  msglen = htonl h.msglen;
  msgtype = htonl h.msgtype;
  op = htonl h.op;
  err = htonl h.err;
  buflen = htonl h.buflen;
}

unfoldable pub deserialize_msg_header : Header → Header
deserialize_msg_header h = record {
  msglen = ntohl h.msglen;
  msgtype = ntohl h.msgtype;
  op = ntohl h.op;
  err = ntohl h.err;
  buflen = ntohl h.buflen;
}

-- The memory holds the structure that `msgtype` names, so the test of the type is the match on it.
-- The body of a command keeps `offset` and `reqlen` as they are in memory.
unfoldable pub serialize_msg_body : Msg → Msg
serialize_msg_body (command c) =
    command (record c {
      sfilefd = htonl c.sfilefd;
      fi = record (c.fi) { filesize = htonl c.fi.filesize };
    })
serialize_msg_body (transfer d) =
    transfer
      (record d { sfilefd = htonl d.sfilefd; offset = htonl d.offset; reqlen = htonl d.reqlen })

-- `reqlen` of a data message goes through `htonl` here too.
unfoldable pub deserialize_msg_body : Msg → Msg
deserialize_msg_body (command c) =
    command (record c {
      sfilefd = ntohl c.sfilefd;
      fi = record (c.fi) { filesize = ntohl c.fi.filesize };
    })
deserialize_msg_body (transfer d) =
    transfer
      (record d { sfilefd = ntohl d.sfilefd; offset = ntohl d.offset; reqlen = htonl d.reqlen })

abbrev pub with_header : Header → Msg → Msg
with_header h (command c) = command (record c { hd = h })
with_header h (transfer d) = transfer (record d { hd = h })

-- `serialize_msg` writes over the message itself.
unfoldable pub serialize_msg : Msg → Msg
unfolding serialize_msg_header serialize_msg_body
serialize_msg m = serialize_msg_body (with_header (serialize_msg_header (header m)) m)

unfoldable pub deserialize_msg : Msg → Msg
unfolding deserialize_msg_header deserialize_msg_body
deserialize_msg m = deserialize_msg_body (with_header (deserialize_msg_header (header m)) m)
