-- ===== src/Client/Listing.antt =====
-- file_server/src/client/client_proc.c: `list_proc` and its table.
pub mod Rows
use file_server.Base.{
  ℕ, zero, suc, ◌+◌, ◌-◌, true, Option, none, some, List, [], ◌∷◌, ◌++◌, ◌==◌, ltb, not,
  if◌then◌else◌, length, take, drop,
}
use file_server.Base.Word.{mul_word, is_negative, minus_one}
use file_server.Sock.{Sock}
use file_server.Msg.{Datamsg, command, transfer, op_list, err_none, sizeof_file_info}
use file_server.Msg.Bytes.{read_word}
use file_server.Msg.Exchange.{send_msg, recv_msg}
use file_server.Client.{Answer, Got, null, answer, fault, got_of}
use file_server.Client.Command.{
  Tried, gave_up, bad_pointer, accepted, retry, retry_cnt, listing_command, data_request,
}
use file_server.Client.Receive.{stream_bytes}

-- `FILENAME_WIDTH` and `FILEOWNER_WIDTH`
abbrev pub width : ℕ
width = 20

-- A row of the table, without the blanks that `printf` fills its columns with.
pub record Row : Type 0 where
  pub number : ℕ
  pub filename : List ℕ
  pub filesize : ℕ
  pub fileowner : List ℕ

-- The text at the front of some memory: `none` where there is no 0 before its end.
abbrev pub text_at : List ℕ → Option (List ℕ)
text_at [] = none
text_at (zero ∷ xs) = some []
text_at (suc c ∷ xs) = elim (text_at xs) [ none ↦ none | some t ↦ some (suc c ∷ t) ]

-- A text that is too wide has dots for the last three of the characters that are printed of it.
abbrev pub cut : List ℕ → List ℕ
cut t = if ltb width (length t) then take (width - 3) t ++ (46 ∷ 46 ∷ 46 ∷ []) else t

abbrev pub row : ℕ → Option (ℕ × List ℕ) → Option Row
row fileidx none = none
row fileidx (some (filesize, b)) = elim (text_at b) [
  | none ↦ none
  | some name ↦ elim (text_at (drop 300 b)) [
    | none ↦ none
    | some owner ↦ some (record {
      number = fileidx;
      filename = cut name;
      filesize = filesize;
      fileowner = cut owner;
    })
  ]
]

abbrev pub row_before : Option Row → Option (List Row) → Option (List Row)
row_before (some r) (some rs) = some (r ∷ rs)
row_before _ _ = none

-- The loop over the `file_info_t`s of the buffer, for `n` of them: `none` is an access behind its end.
unfoldable pub rows : ℕ → ℕ → List ℕ → Option (List Row)
unfolding read_word
rows zero fileidx bytes = some []
rows (suc n) fileidx bytes =
    row_before (row fileidx (read_word bytes)) (rows n (fileidx + 1) (drop sizeof_file_info bytes))

-- What `list_proc` comes to.
pub data Listed : Type 0 where
  no_table : Listed
  bad_access : Listed
  table : List Row → Listed

abbrev pub table_of : Option (List Row) → Listed
table_of none = bad_access
table_of (some rs) = table rs

-- The reply to the request: its length has to be that of the number of files that the first reply
-- named.
abbrev pub list_answer : ℕ → Got → Listed
list_answer cnt null = no_table
list_answer cnt fault = bad_access
list_answer cnt (answer x) =
    let n : ℕ = if is_negative cnt then 0 else cnt in
    if not (x.err == err_none)
    then no_table
    else if not (x.buflen == mul_word sizeof_file_info cnt)
    then no_table
    else table_of (rows n 1 (stream_bytes x.stream))

unfoldable pub list_request : ℕ → Sock → Listed × Sock
list_request cnt s =
    let (ret, _, s1) = send_msg (transfer (data_request op_list cnt 0 0)) none s in
    let (r, s2) = recv_msg true s1 in
    if ret == minus_one then (no_table, s1) else (list_answer cnt (got_of r), s2)

abbrev pub list_tried : Tried × Sock → Listed × Sock
list_tried (gave_up, s) = (no_table, s)
list_tried (bad_pointer, s) = (bad_access, s)
list_tried (accepted x, s) = elim x.first [ none ↦ (bad_access, s) | some cnt ↦ list_request cnt s ]

unfoldable pub list_proc : Sock → Listed × Sock
unfolding retry list_request
list_proc s = list_tried (retry op_list retry_cnt (command listing_command) s)
