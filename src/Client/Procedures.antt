-- ===== src/Client/Procedures.antt =====
-- file_server/src/client/client_proc.c: `get_proc`, `read_proc`, `put_proc` and `write_proc` from the
-- arguments that were typed in on.
pub mod Typing
pub mod Downloads
pub mod Puts
use file_server.Base.{
  ℕ, zero, suc, ◌+◌, Bool, true, false, ◌||◌, Option, none, some, List, ◌==◌, ltb, if◌then◌else◌,
  length,
}
use file_server.Base.Word.{add_word, sub_word, is_positive, is_negative, lt_int, minus_one}
use file_server.Contents.{slice}
use file_server.Sock.{Sock}
use file_server.Msg.{Datamsg, command, transfer, op_read, op_write, op_put, op_get}
use file_server.Msg.Exchange.{send_msg}
use file_server.Client.{Answer}
use file_server.Client.Fileio.{AioCalls}
use file_server.Client.Command.{
  Tried, gave_up, bad_pointer, accepted, retry, retry_cnt, named_command, range_command,
  sized_command, data_request,
}
use file_server.Client.Receive.{
  Ended, finished, stopped, crashed, out_of_fuel, Stepped, receive_loop, get_round, read_round,
}
use file_server.Client.Send.{put_loop, put_rounds, write_loop}
use file_server.Worker.Transfers.{rounds}

-- The index of the file and its size in a reply, for what follows, which ends where the reply is too
-- short for them.
abbrev with_file : {A : Type 0} → Answer → A → (ℕ → ℕ → A) → A
with_file x short f = elim x.first [
  | none ↦ short
  | some remote_fd ↦ elim x.second [ none ↦ short | some filesize ↦ f remote_fd filesize ]
]

-- The request for `remain` bytes, and the loop over its replies.
unfoldable pub fetch :
    (ℕ → ℕ → Answer → (ℕ → ℕ) → Stepped) → Datamsg → ℕ → (ℕ → ℕ) → Sock → Ended × (ℕ → ℕ) × Sock
fetch round request remain bytes s =
    let (ret, _, s1) = send_msg (transfer request) none s in
    let run : Ended × (ℕ → ℕ) × Sock =
      receive_loop round (suc (length s1.incoming)) 0 remain bytes s1 in
    if ret == minus_one then (stopped, bytes, s1) else run

-- What follows the loop over the attempts of `get_proc`.
abbrev pub get_tried : (ℕ → AioCalls) → (ℕ → ℕ) → Tried × Sock → Ended × (ℕ → ℕ) × Sock
get_tried calls file (gave_up, s) = (stopped, file, s)
get_tried calls file (bad_pointer, s) = (crashed, file, s)
get_tried calls file (accepted x, s) =
    with_file x (crashed, file, s)
      λ remote_fd filesize.
        fetch (get_round calls) (data_request op_get remote_fd 0 filesize) filesize file s

-- `get_proc`, where `open` of the local file returns `opened` and the file has the bytes `file`.
unfoldable pub get_proc : (ℕ → AioCalls) → ℕ → List ℕ → (ℕ → ℕ) → Sock → Ended × (ℕ → ℕ) × Sock
unfolding retry fetch
get_proc calls opened filename file s =
    let tried : Tried × Sock = retry op_get retry_cnt (command (named_command op_get filename)) s in
    if is_negative opened then (stopped, file, s) else get_tried calls file tried

-- `filesize < fileoffset+buflen? filesize-fileoffset : buflen` on `int`s
abbrev pub asked_remain : ℕ → ℕ → ℕ → ℕ
asked_remain filesize fileoffset buflen =
    if lt_int filesize (add_word fileoffset buflen) then sub_word filesize fileoffset else buflen

-- `MAX_READ_BUF_SIZE` and `MAX_WRITE_BUF_SIZE`
abbrev pub max_buf_size : ℕ
max_buf_size = 100_000

abbrev pub read_tried : ℕ → ℕ → (ℕ → ℕ) → Tried × Sock → Ended × (ℕ → ℕ) × Sock
read_tried fileoffset buflen buf (gave_up, s) = (stopped, buf, s)
read_tried fileoffset buflen buf (bad_pointer, s) = (crashed, buf, s)
read_tried fileoffset buflen buf (accepted x, s) =
    with_file x (crashed, buf, s)
      λ remote_fd filesize.
        let remain : ℕ = asked_remain filesize fileoffset buflen in
        let run : Ended × (ℕ → ℕ) × Sock =
          fetch (read_round fileoffset) (data_request op_read remote_fd fileoffset remain) remain
            buf s in
        if is_positive remain then run else (stopped, buf, s)

-- `read_proc`, whose buffer has the bytes `buf`. They are printed where it is finished.
unfoldable pub read_proc : List ℕ → ℕ → ℕ → (ℕ → ℕ) → Sock → Ended × (ℕ → ℕ) × Sock
unfolding retry fetch
read_proc filename fileoffset buflen buf s =
    let tried : Tried × Sock =
      retry op_read retry_cnt (command (range_command op_read filename fileoffset buflen)) s in
    if is_negative fileoffset || is_negative buflen || ltb max_buf_size buflen
    then (stopped, buf, s)
    else read_tried fileoffset buflen buf tried

abbrev pub put_tried : (ℕ → AioCalls) → ℕ → (ℕ → ℕ) → (ℕ → ℕ) → Tried × Sock → Ended × Sock
put_tried calls filesize file buf (gave_up, s) = (stopped, s)
put_tried calls filesize file buf (bad_pointer, s) = (crashed, s)
put_tried calls filesize file buf (accepted x, s) = elim x.first [
  | none ↦ (crashed, s)
  | some remote_fd ↦ put_loop calls file remote_fd (put_rounds filesize) 0 0 filesize buf s
]

-- `put_proc` of a local file with the bytes `file`, where `open` returns `opened`, `stat` gives its
-- size and `getpwuid` its owner.
unfoldable pub put_proc :
    (ℕ → AioCalls) → ℕ → List ℕ → List ℕ → ℕ → (ℕ → ℕ) → (ℕ → ℕ) → Sock → Ended × Sock
unfolding retry
put_proc calls opened filename fileowner filesize file buf s =
    let tried : Tried × Sock =
      retry op_put retry_cnt (command (sized_command filename fileowner filesize)) s in
    if is_negative opened then (stopped, s) else put_tried calls filesize file buf tried

abbrev pub write_tried : ℕ → ℕ → (ℕ → ℕ) → Tried × Sock → Ended × Sock
write_tried fileoffset buflen buf (gave_up, s) = (stopped, s)
write_tried fileoffset buflen buf (bad_pointer, s) = (crashed, s)
write_tried fileoffset buflen buf (accepted x, s) =
    with_file x (crashed, s)
      λ remote_fd filesize.
        let remain : ℕ = asked_remain filesize fileoffset buflen in
        let run : Ended × Sock = write_loop buf remote_fd (rounds remain) fileoffset 0 remain s in
        if is_positive remain then run else (stopped, s)

-- `write_proc` of the `buflen` bytes of `buf`.
unfoldable pub write_proc : List ℕ → ℕ → ℕ → (ℕ → ℕ) → Sock → Ended × Sock
unfolding retry
write_proc filename fileoffset buflen buf s =
    let tried : Tried × Sock =
      retry op_write retry_cnt (command (range_command op_write filename fileoffset buflen)) s in
    if is_negative fileoffset || buflen == max_buf_size
    then (stopped, s)
    else write_tried fileoffset buflen buf tried
