-- ===== src/Client/Command.antt =====
-- file_server/src/client/client_proc.c: the command of each procedure, the loop that sends it and
-- takes the reply, and the request for the data that follows.
pub mod Once
pub mod Accept
use file_server.Base.{
  ℕ, zero, suc, Bool, true, false, ◌&&◌, ◌||◌, Option, none, some, List, [], ◌∷◌, ◌==◌,
  if◌then◌else◌, replicate,
}
use file_server.Base.Word.{minus_one}
use file_server.Sock.{Sock}
use file_server.Msg.{
  Commsg, Datamsg, Msg, command, transfer, blank_command, blank_data, op_read, op_write, op_put,
  op_get, op_list, err_none, err_nofile, err_unknown,
}
use file_server.Msg.Exchange.{send_msg, recv_msg}
use file_server.Client.{Answer, Got, null, answer, fault, got_of}

-- `strncpy` to an array of `n` bytes: what stands behind the first 0 is 0.
abbrev pub strncpy : ℕ → List ℕ → List ℕ
strncpy zero src = []
strncpy (suc n) [] = replicate (suc n) 0
strncpy (suc n) (zero ∷ src) = replicate (suc n) 0
strncpy (suc n) (suc c ∷ src) = suc c ∷ strncpy n src

-- The commands, from the zeros of `alloc_send_msg`.
abbrev pub named_command : ℕ → List ℕ → Commsg
named_command op filename = record blank_command {
  hd = record (blank_command.hd) { op = op };
  fi = record (blank_command.fi) { filename = strncpy 300 filename };
}

abbrev pub range_command : ℕ → List ℕ → ℕ → ℕ → Commsg
range_command op filename fileoffset buflen = record (named_command op filename) {
  offset = fileoffset;
  reqlen = buflen;
}

abbrev pub sized_command : List ℕ → List ℕ → ℕ → Commsg
sized_command filename fileowner filesize = record (named_command op_put filename) {
  fi = record {
    filesize = filesize;
    filename = strncpy 300 filename;
    fileowner = strncpy 100 fileowner;
  };
}

abbrev pub listing_command : Commsg
listing_command = record blank_command { hd = record (blank_command.hd) { op = op_list } }

-- How the loop over the attempts ends: by `goto exit`, by an access through NULL or outside of the
-- reply, or with a reply without an error.
pub data Tried : Type 0 where
  gave_up : Tried
  bad_pointer : Tried
  accepted : Answer → Tried

-- The procedures that test for ERR_NOFILE, and those that look at `err` once more behind the branch
-- of ERR_UNKNOWN, where the pointer to the reply is NULL.
abbrev pub tests_nofile : ℕ → Bool
tests_nofile op = op == op_read || op == op_get || op == op_list

abbrev pub tests_again : ℕ → Bool
tests_again op = op == op_read || op == op_write || op == op_put || op == op_get

-- What is done with a reply, where `later` is the next attempt.
abbrev pub judged : ℕ → Answer → Sock → Tried × Sock → Tried × Sock
judged op x s later =
    if x.err == err_none
    then (accepted x, s)
    else if tests_nofile op && x.err == err_nofile
    then (gave_up, s)
    else if tests_again op && x.err == err_unknown
    then (bad_pointer, s)
    else later

-- `do { … } while(--retry_cnt>0)` with `retry_cnt` attempts left. The message is what the last
-- attempt left of it.
unfoldable pub retry : ℕ → ℕ → Msg → Sock → Tried × Sock
retry op zero m s = (gave_up, s)
retry op (suc retry_cnt) m s =
    let (ret, m', s1) = send_msg m none s in
    let (r, s2) = recv_msg false s1 in
    let later : Tried × Sock = retry op retry_cnt m' s2 in
    if ret == minus_one then (gave_up, s1) else elim (got_of r) [
      | null ↦ (gave_up, s2)
      | fault ↦ (bad_pointer, s2)
      | answer x ↦ judged op x s2 later
    ]

-- `RETRY_CNT`
abbrev pub retry_cnt : ℕ
retry_cnt = 3

-- The request for the data of a READ or a GET.
abbrev pub data_request : ℕ → ℕ → ℕ → ℕ → Datamsg
data_request op sfilefd offset reqlen = record blank_data {
  hd = record (blank_data.hd) { op = op };
  sfilefd = sfilefd;
  offset = offset;
  reqlen = reqlen;
}
