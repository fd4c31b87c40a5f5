-- ===== src/Msg/Exchange/Wire.antt =====
-- The bytes of a message on the connection, and what the receiver makes of them.
use file_server.Base.{
  ℕ, ◌-◌, ◌^◌, ◌<◌, ◌≤◌, ◌≡◌, refl, ap, ◌∙◌, Option, none, some, List, [], ◌∷◌, ◌++◌, arith, length,
  length-append,
}
use file_server.Msg.{
  Header, Commsg, Datamsg, Msg, blank_command, blank_data, command, transfer, header, IsWord,
  IsHeader, IsCommsg, IsDatamsg, IsMsg, msg_command, msg_data, sizeof_commsg, sizeof_datamsg,
}
use file_server.Msg.Serialize.{
  htonl, serialize_msg, serialize_msg_header, serialize_msg_body, deserialize_msg_body,
}
use file_server.Msg.Bytes.{
  msg_bytes, header_bytes, body_bytes, read_command, read_transfer, read_command-bytes,
  read_transfer-bytes, length-header_bytes, length-body_bytes_command, length-body_bytes_transfer,
}
use file_server.Msg.Order.{htonl-IsWord, deserialize-serialize_body}
use file_server.Msg.Exchange.{received, finish}

-- The header names the structure that the message is.
abbrev pub HasLayout : Msg → Type 0
HasLayout (command c) = (c.hd.msgtype ≡ msg_command) × (c.hd.msglen ≡ sizeof_commsg)
HasLayout (transfer d) = (d.hd.msgtype ≡ msg_data) × (d.hd.msglen ≡ sizeof_datamsg)

-- A message set up by `init_send_msg`, with a stream of `buflen` bytes behind it.
pub record IsSendable (m : Msg) (buf : List ℕ) : Type 0 where
  pub fields : IsMsg m
  pub layout : HasLayout m
  pub stream : (header m).buflen ≡ length buf
  pub small : length buf < 2 ^ 31

-- What the other side is handed: no stream where there are no bytes.
abbrev pub payload : List ℕ → Option (List ℕ)
payload [] = none
payload (b ∷ bs) = some (b ∷ bs)

abbrev pub wire : Msg → List ℕ
wire m = header_bytes (serialize_msg_header (header m)) ++ body_bytes (serialize_msg_body m)

pub msg_bytes-wire : (m : Msg) → msg_bytes (serialize_msg m) ≡ wire m
unfolding msg_bytes serialize_msg body_bytes
msg_bytes-wire (command c) = refl
msg_bytes-wire (transfer d) = refl

pub header-IsHeader : (m : Msg) → IsMsg m → IsHeader (header m)
header-IsHeader (command c) v = v.hd
header-IsHeader (transfer d) v = v.hd

pub serialize-IsHeader : (h : Header) → IsHeader h → IsHeader (serialize_msg_header h)
unfolding serialize_msg_header
serialize-IsHeader h v = record {
  msglen = htonl-IsWord h.msglen v.msglen;
  msgtype = htonl-IsWord h.msgtype v.msgtype;
  op = htonl-IsWord h.op v.op;
  err = htonl-IsWord h.err v.err;
  buflen = htonl-IsWord h.buflen v.buflen;
}

command-IsCommsg :
    (c : Commsg)
    → IsCommsg c
    → IsCommsg (record c {
      sfilefd = htonl c.sfilefd;
      fi = record (c.fi) { filesize = htonl c.fi.filesize };
    })
command-IsCommsg c v = record {
  hd = v.hd;
  sfilefd = htonl-IsWord c.sfilefd v.sfilefd;
  filesize = htonl-IsWord c.fi.filesize v.filesize;
  filename = v.filename;
  fileowner = v.fileowner;
  offset = v.offset;
  reqlen = v.reqlen;
}

transfer-IsDatamsg :
    (d : Datamsg)
    → IsDatamsg d
    → IsDatamsg
        (record d { sfilefd = htonl d.sfilefd; offset = htonl d.offset; reqlen = htonl d.reqlen })
transfer-IsDatamsg d v = record {
  hd = v.hd;
  sfilefd = htonl-IsWord d.sfilefd v.sfilefd;
  offset = htonl-IsWord d.offset v.offset;
  reqlen = htonl-IsWord d.reqlen v.reqlen;
}

pub length-body :
    (m : Msg)
    → IsMsg m
    → HasLayout m
    → length (body_bytes (serialize_msg_body m)) ≡ (header m).msglen - 20
unfolding serialize_msg_body
length-body (command c) v (t, l) = length-body_bytes_command _ (command-IsCommsg c v) ∙ omega arith
length-body (transfer d) v (t, l) = length-body_bytes_transfer _ ∙ omega arith

pub msglen_small : (m : Msg) → HasLayout m → (20 ≤ (header m).msglen) × ((header m).msglen < 2 ^ 31)
msglen_small (command c) (t, l) = omega arith
msglen_small (transfer d) (t, l) = omega arith

pub length-wire : (m : Msg) → IsMsg m → HasLayout m → length (wire m) ≡ (header m).msglen
length-wire m v lay = omega (
  arith,
  length-append (header_bytes (serialize_msg_header (header m)))
      (body_bytes (serialize_msg_body m)),
  length-header_bytes (serialize_msg_header (header m)),
  length-body m v lay,
  msglen_small m lay,
)

finish_command :
    (h : Header) (body : List ℕ) (m : Msg) (buf : Option (List ℕ))
    → h.msgtype ≡ msg_command
    → read_command h body ≡ some m
    → finish h body buf ≡ received (deserialize_msg_body m) buf
unfolding finish
finish_command h body m buf t e = ground arith

finish_transfer :
    (h : Header) (body : List ℕ) (m : Msg) (buf : Option (List ℕ))
    → h.msgtype ≡ msg_data
    → read_transfer h body ≡ some m
    → finish h body buf ≡ received (deserialize_msg_body m) buf
unfolding finish
finish_transfer h body m buf t e = ground arith

pub finish-received :
    (m : Msg) (buf : Option (List ℕ))
    → IsMsg m
    → HasLayout m
    → finish (header m) (body_bytes (serialize_msg_body m)) buf ≡ received m buf
unfolding serialize_msg_body
finish-received (command c) buf v (t, l) =
    finish_command c.hd _ _ buf t (read_command-bytes c.hd _ (command-IsCommsg c v))
    ∙ ap (λ m. received m buf) (deserialize-serialize_body (command c) v)
finish-received (transfer d) buf v (t, l) =
    finish_transfer d.hd _ _ buf t (read_transfer-bytes d.hd _ (transfer-IsDatamsg d v))
    ∙ ap (λ m. received m buf) (deserialize-serialize_body (transfer d) v)

-- The header of a command, and of a data message with `n` bytes of stream.
pub command_header-IsHeader :
    (op : ℕ) → IsWord op → IsHeader (record (blank_command.hd) { op = op })
command_header-IsHeader op word = record {
  msglen = omega arith;
  msgtype = omega arith;
  op = word;
  err = omega arith;
  buflen = omega arith;
}

pub data_header-IsHeader :
    (op n : ℕ) → IsWord op → IsWord n → IsHeader (record (blank_data.hd) { op = op; buflen = n })
data_header-IsHeader op n op_word word = record {
  msglen = omega arith;
  msgtype = omega arith;
  op = op_word;
  err = omega arith;
  buflen = word;
}
