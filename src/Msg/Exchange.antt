-- ===== src/Msg/Exchange.antt =====
-- file_server/src/common/msg.c: `send_msg` and `recv_msg` over a connection.
pub mod Wire
pub mod Recv
pub mod Send
pub mod Sides
use file_server.Base.{
  ℕ, ◌-◌, Bool, true, false, not, ◌&&◌, ◌||◌, Option, none, some, List, [], ◌∷◌, ◌==◌, ltb,
  if◌then◌else◌, length,
}
use file_server.Base.Word.{minus_one, ge_int, is_negative, is_positive}
use file_server.Sock.{Sock, sock_send, sock_recv}
use file_server.Msg.{Header, Msg, header, msgtype_max, msg_command, msg_data, sizeof_msg_hd}
use file_server.Msg.Serialize.{serialize_msg, deserialize_msg_header, deserialize_msg_body}
use file_server.Msg.Bytes.{msg_bytes, read_header, read_command, read_transfer}

-- Where `send_msg` sends the byte stream behind the message: `none` is a NULL buffer.
unfoldable pub send_buf : Option (List ℕ) → ℕ → Sock → ℕ × Sock
send_buf none bufsize s = (0, s)
send_buf (some buf) bufsize s =
    let (sent, s') = sock_send buf bufsize s in
    if is_positive bufsize then (if sent == bufsize then (0, s') else (minus_one, s')) else (0, s)

-- `send_msg`: its value, the message as it is afterwards, and the connection. The sizes are read
-- before the message is serialized.
unfoldable pub send_msg : Msg → Option (List ℕ) → Sock → ℕ × Msg × Sock
unfolding send_buf
send_msg m buf s =
    let h : Header = header m in
    let m' : Msg = serialize_msg m in
    let (sent, s1) = sock_send (msg_bytes m') h.msglen s in
    let (ret, s2) = send_buf buf h.buflen s1 in
    if ge_int h.msgtype msgtype_max
    then (minus_one, m, s)
    else if sent == h.msglen
    then (ret, m', s2)
    else (minus_one, m', s1)

-- `recv_msg`: NULL, a message with its byte stream, a message whose type is negative as an `int`,
-- with its body as it came, or an access outside of the memory that was allocated for the sizes and
-- the type that the peer named, which is not followed further.
pub data Received : Type 0 where
  no_msg : Received
  received : Msg → Option (List ℕ) → Received
  untyped : Header → List ℕ → Option (List ℕ) → Received
  bad_access : Received

-- The end of `recv_msg`: the type's test, and the body as the structure that the type names.
unfoldable pub finish : Header → List ℕ → Option (List ℕ) → Received
finish h body buf =
    let parsed : Option Msg =
      if h.msgtype == msg_command then read_command h body else read_transfer h body in
    if ge_int h.msgtype msgtype_max
    then no_msg
    else if h.msgtype == msg_command || h.msgtype == msg_data
    then elim parsed [ none ↦ bad_access | some m ↦ received (deserialize_msg_body m) buf ]
    else untyped h body buf

-- The byte stream, where the caller gave a place for it: `want` is `buf != NULL`.
unfoldable pub recv_buf : Bool → Header → List ℕ → Sock → Received × Sock
unfolding finish
recv_buf want h body s =
    let (got, s') = sock_recv h.buflen s in
    if is_positive h.buflen
    then (if want
        then (if length got == h.buflen then (finish h body (some got), s') else (no_msg, s'))
        else (bad_access, s))
    else (finish h body none, s)

-- The body of the message behind its header.
unfoldable pub recv_body : Bool → Header → Sock → Received × Sock
unfolding recv_buf
recv_body want h s =
    let (body, s') = sock_recv (h.msglen - sizeof_msg_hd) s in
    if is_negative h.msglen || ltb h.msglen sizeof_msg_hd
    then (bad_access, s)
    else if length body == h.msglen - sizeof_msg_hd
    then recv_buf want h body s'
    else (no_msg, s')

unfoldable pub recv_msg : Bool → Sock → Received × Sock
unfolding recv_body
recv_msg want s =
    let (got, s') = sock_recv sizeof_msg_hd s in
    if length got == sizeof_msg_hd
    then elim (read_header got) [
      | none ↦ (no_msg, s')
      | some h ↦ recv_body want (deserialize_msg_header h) s'
    ]
    else (no_msg, s')
