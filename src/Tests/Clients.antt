-- ===== src/Tests/Clients.antt =====
-- Runs of the client's parts.
use file_server.Base.{◌*◌, ◌≤◌, ◌<◌, ◌≡◌, ◌↔◌, true, false, [], ◌∷◌, ◌&&◌, arith}
use file_server.Base.Word.{lt_int, is_positive}
use file_server.Msg.{command, op_get}
use file_server.Msg.Exchange.Wire.{wire}
use file_server.Worker.{range_remain}
use file_server.Client.Command.{range_command, retry}
use file_server.Client.Command.Accept.{range_command-IsSendable}
use file_server.Client.Command.Once.{once, retry-once}
use file_server.Client.Fileio.{done, num_iocb, max_aio_submit, write_file, read_file}
use file_server.Client.Fileio.Moves.{asserts_bounds, write_file-copied, read_file-copied}
use file_server.Client.Procedures.{asked_remain}
use file_server.Client.Procedures.Typing.{scan, typed, scan-text}
use file_server.System.Read.{same_range}
use file_server.Tests.Fetching.{name, served, serves, Enough-many, unused, letters, blanks}

retry-once_example :
    let (t, s') = retry op_get 3 (command (range_command op_get name 0 0)) unused in
    (t ≡ once op_get (command (range_command op_get name 0 0)) unused)
    × (s'.outgoing ≡ wire (command (range_command op_get name 0 0)))
retry-once_example =
    retry-once op_get 2 5 (command (range_command op_get name 0 0)) unused
      (range_command-IsSendable op_get name 0 0 (omega arith) (omega arith) (omega arith))
      (Enough-many _ (omega arith))

asserts_bounds_example :
    ((lt_int (num_iocb 1_966_080) max_aio_submit && is_positive (num_iocb 1_966_080)) ≡ true)
    ↔ ((0 < 1_966_080) × (1_966_080 ≤ 15 * 131_072))
asserts_bounds_example = asserts_bounds 1_966_080 (omega arith)

write_file-copied_example :
    let (e, file') = write_file served (7 ∷ 8 ∷ 9 ∷ []) 2 100 blanks in (e ≡ done) × (file' 101 ≡ 8)
write_file-copied_example =
    write_file-copied served (7 ∷ 8 ∷ 9 ∷ []) 2 100 blanks 101 (omega arith) (omega arith)
      (omega arith) (omega arith) (serves 0 2)

read_file-copied_example :
    let (e, buf') = read_file served letters 200_000 3 blanks in
    (e ≡ done) × (buf' 150_000 ≡ letters 150_003)
read_file-copied_example =
    read_file-copied served letters 200_000 3 blanks 150_000 (omega arith) (omega arith)
      (omega arith) (serves 0 200_000)

same_range_example : (asked_remain 10 7 4 ≡ range_remain 10 7 4) × (asked_remain 10 7 4 ≡ 3)
same_range_example = same_range 10 7 4 (omega arith) (omega arith)

-- "ab" in quotes, with a blank before it.
scan-text_example : scan false (32 ∷ 34 ∷ 97 ∷ 98 ∷ 34 ∷ 10 ∷ []) [] ≡ typed (97 ∷ 98 ∷ [])
scan-text_example =
    scan-text (32 ∷ []) (97 ∷ 98 ∷ []) [] [] ((ground arith, ground arith), tt)
      ((ground arith, ground arith), ((ground arith, ground arith), tt)) tt (omega arith)
      (omega arith)
