-- ===== src/Msg.antt =====
-- file_server/src/common/msg.h and msg.c: the messages, how they are set up, and their byte order.
pub mod Bytes
pub mod Serialize
pub mod Order
pub mod Exchange
use file_server.Base.{
  ℕ, zero, suc, ◌+◌, ◌*◌, ◌/◌, ◌%◌, ◌^◌, ◌<◌, ◌≡◌, Bool, Option, none, some, List, [], ◌∷◌, ◌++◌,
  ◌==◌, if◌then◌else◌, replicate, length, All,
}
use file_server.Filemeta.{FileInfo}

-- `FILE_STRIPE`, 1 MB: the most that one transfer carries
abbrev pub file_stripe : ℕ
file_stripe = 1_048_576

-- `enum OPTYPE`
abbrev pub op_read : ℕ
op_read = 0

abbrev pub op_write : ℕ
op_write = 1

abbrev pub op_put : ℕ
op_put = 2

abbrev pub op_get : ℕ
op_get = 3

abbrev pub op_list : ℕ
op_list = 4

abbrev pub op_read_reply : ℕ
op_read_reply = 5

abbrev pub op_write_reply : ℕ
op_write_reply = 6

abbrev pub op_put_reply : ℕ
op_put_reply = 7

abbrev pub op_get_reply : ℕ
op_get_reply = 8

abbrev pub op_list_reply : ℕ
op_list_reply = 9

-- `enum MSGTYPE`
abbrev pub msg_command : ℕ
msg_command = 0

abbrev pub msg_data : ℕ
msg_data = 1

abbrev pub msgtype_max : ℕ
msgtype_max = 2

-- `enum ERRCODE`
abbrev pub err_none : ℕ
err_none = 0

abbrev pub err_nofile : ℕ
err_nofile = 1

abbrev pub err_fileinuse : ℕ
err_fileinuse = 2

abbrev pub err_unknown : ℕ
err_unknown = 3

-- `MSG_HEADER`. All fields are `uint32_t`s.
pub record Header : Type 0 where
  pub msglen : ℕ
  pub msgtype : ℕ
  pub op : ℕ
  pub err : ℕ
  pub buflen : ℕ

-- `commsg_t`. `sfilefd` is the union `u`, whose other name is `filenum`.
pub record Commsg : Type 0 where
  pub hd : Header
  pub sfilefd : ℕ
  pub fi : FileInfo
  pub offset : ℕ
  pub reqlen : ℕ

-- `datamsg_t`
pub record Datamsg : Type 0 where
  pub hd : Header
  pub sfilefd : ℕ
  pub offset : ℕ
  pub reqlen : ℕ

-- A message by the structure that its memory holds.
pub data Msg : Type 0 where
  command : Commsg → Msg
  transfer : Datamsg → Msg

abbrev pub header : Msg → Header
header (command c) = c.hd
header (transfer d) = d.hd

-- `sizeof` of the three structures
abbrev pub sizeof_msg_hd : ℕ
sizeof_msg_hd = 20

abbrev pub sizeof_commsg : ℕ
sizeof_commsg = 436

abbrev pub sizeof_datamsg : ℕ
sizeof_datamsg = 32

abbrev pub sizeof_file_info : ℕ
sizeof_file_info = 404

-- `init_send_msg` on the memory of a message of that type: the zeros of `memset`, then the fields.
abbrev pub blank_command : Commsg
blank_command = record {
  hd = record { msglen = sizeof_commsg; msgtype = msg_command; op = 0; err = err_none; buflen = 0 };
  sfilefd = 0;
  fi = record { filesize = 0; filename = replicate 300 0; fileowner = replicate 100 0 };
  offset = 0;
  reqlen = 0;
}

abbrev pub blank_data : Datamsg
blank_data = record {
  hd = record { msglen = sizeof_datamsg; msgtype = msg_data; op = 0; err = err_none; buflen = 0 };
  sfilefd = 0;
  offset = 0;
  reqlen = 0;
}

-- `alloc_send_msg`. `none` is the pointer that is left unset.
unfoldable pub alloc_send_msg : ℕ → Option Msg
alloc_send_msg msgtype =
    if msgtype == msg_command
    then some (command blank_command)
    else if msgtype == msg_data
    then some (transfer blank_data)
    else none

-- A `uint32_t`
abbrev pub IsWord : ℕ → Type 0
IsWord w = w < 2 ^ 32

pub record IsHeader (h : Header) : Type 0 where
  pub msglen : IsWord h.msglen
  pub msgtype : IsWord h.msgtype
  pub op : IsWord h.op
  pub err : IsWord h.err
  pub buflen : IsWord h.buflen

-- The fields of a message are words, and its arrays have their sizes.
pub record IsCommsg (c : Commsg) : Type 0 where
  pub hd : IsHeader c.hd
  pub sfilefd : IsWord c.sfilefd
  pub filesize : IsWord c.fi.filesize
  pub filename : length c.fi.filename ≡ 300
  pub fileowner : length c.fi.fileowner ≡ 100
  pub offset : IsWord c.offset
  pub reqlen : IsWord c.reqlen

pub record IsDatamsg (d : Datamsg) : Type 0 where
  pub hd : IsHeader d.hd
  pub sfilefd : IsWord d.sfilefd
  pub offset : IsWord d.offset
  pub reqlen : IsWord d.reqlen

abbrev pub IsMsg : Msg → Type 0
IsMsg (command c) = IsCommsg c
IsMsg (transfer d) = IsDatamsg d
