-- ===== src/Msg/Order.antt =====
-- `htonl` and `ntohl` on the fields of a message.
use file_server.Base.{ℕ, ◌/◌, ◌%◌, ◌≡◌, List, [], ◌∷◌, ◌++◌, arith}
use file_server.Msg.Bytes.{header_bytes}
use file_server.Msg.{Header, Msg, command, transfer, IsWord, IsHeader, IsMsg}
use file_server.Msg.Serialize.{
  htonl, ntohl, serialize_msg_header, deserialize_msg_header, serialize_msg_body,
  deserialize_msg_body, word_bytes,
}

pub ntohl-htonl : (w : ℕ) → IsWord w → ntohl (htonl w) ≡ w
unfolding htonl ntohl
ntohl-htonl w h = omega arith

pub htonl-htonl : (w : ℕ) → IsWord w → htonl (htonl w) ≡ w
unfolding htonl
htonl-htonl w h = omega arith

pub htonl-IsWord : (w : ℕ) → IsWord w → IsWord (htonl w)
unfolding htonl
htonl-IsWord w h = omega arith

-- The bytes of a word, the highest first.
abbrev pub big_endian : ℕ → List ℕ
big_endian w = w / 16_777_216 ∷ w / 65_536 % 256 ∷ w / 256 % 256 ∷ w % 256 ∷ []

htonl-big_endian : (w : ℕ) → IsWord w → word_bytes (htonl w) ≡ big_endian w
unfolding htonl
htonl-big_endian w h = ground arith

-- A header whose fields are words stands in memory, once it is serialized, with the highest byte of
-- each field first.
pub serialize_header_big_endian :
    (h : Header)
    → IsHeader h
    → header_bytes (serialize_msg_header h)
      ≡ big_endian h.msglen
        ++ (big_endian h.msgtype ++ (big_endian h.op ++ (big_endian h.err ++ big_endian h.buflen)))
unfolding header_bytes serialize_msg_header
serialize_header_big_endian h v = λ i.
    htonl-big_endian h.msglen v.msglen i
    ++ (htonl-big_endian h.msgtype v.msgtype i
        ++ (htonl-big_endian h.op v.op i
            ++ (htonl-big_endian h.err v.err i ++ htonl-big_endian h.buflen v.buflen i)))

pub deserialize-serialize_header :
    (h : Header) → IsHeader h → deserialize_msg_header (serialize_msg_header h) ≡ h
unfolding serialize_msg_header deserialize_msg_header
deserialize-serialize_header h v = ground (
  arith,
  ntohl-htonl h.msglen v.msglen,
  ntohl-htonl h.msgtype v.msgtype,
  ntohl-htonl h.op v.op,
  ntohl-htonl h.err v.err,
  ntohl-htonl h.buflen v.buflen,
)

pub deserialize-serialize_body :
    (m : Msg) → IsMsg m → deserialize_msg_body (serialize_msg_body m) ≡ m
unfolding serialize_msg_body deserialize_msg_body
deserialize-serialize_body (command c) v =
    ground (arith, ntohl-htonl c.sfilefd v.sfilefd, ntohl-htonl c.fi.filesize v.filesize)
deserialize-serialize_body (transfer d) v = ground (
  arith,
  ntohl-htonl d.sfilefd v.sfilefd,
  ntohl-htonl d.offset v.offset,
  htonl-htonl d.reqlen v.reqlen,
)
