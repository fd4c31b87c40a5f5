-- ===== src/Tests/Fetching.antt =====
-- Runs of a client and a server, for a file of ten bytes.
use mathlib.Core.List.{Permᴰ, append-nil}
use mathlib.Core.List.Permᴰ
use file_server.Base.{
  ℕ, ◌+◌, ◌≤◌, ◌≡◌, refl, sym, inl, true, false, some, List, [], ◌∷◌, ◌++◌, arith, length,
  replicate, length-replicate,
}
use file_server.Base.Word.{is_negative}
use file_server.Sock.{Sock}
use file_server.Sock.Transfer.{Enough}
use file_server.Filemeta.{FileInfo, FileList, IsValid, infos, str_eq}
use file_server.Filemeta.Index.Catalog.{position}
use file_server.Filemeta.Lock.{open_fd, take_lock, must_wait, get_fd_by_fidx, wait_lock}
use file_server.Filemeta.Index.{get_file_index_from_list, get_filemeta_by_idx}
use file_server.Filemeta.Disk.{zero_meta}
use file_server.Msg.{command, transfer, op_get_reply, op_read_reply, op_read, op_list}
use file_server.Msg.Exchange.Wire.{wire}
use file_server.Worker.{Aio, Server, no_reply}
use file_server.Worker.Commands.{get_command, read_command, list_command, lock_range}
use file_server.Worker.Transfers.{stripe, stripe_loop, get_data, read_data}
use file_server.Worker.Dispatch.{list_data}
use file_server.Client.Fileio.{AioCalls}
use file_server.Client.Command.{data_request, range_command}
use file_server.Client.Receive.{finished}
use file_server.Client.Receive.Places.{Serves}
use file_server.Client.Procedures.{get_proc, read_proc}
use file_server.System.{send_replies, send_outcome, send_listing}
use file_server.System.Get.{asks, requests, get_on_both_sides}
use file_server.System.Read.{read_on_both_sides}
use file_server.Tests.Samples.{other, idle_meta, length-slots, willing}
use file_server.Tests.Wire.{All-replicate}

-- "b"
abbrev pub name : List ℕ
name = 98 ∷ []

abbrev pub ten_list : FileList
ten_list = record {
  filearr = idle_meta other ∷ replicate 999 zero_meta;
  cnt = 1;
  file = record { slots = []; stored_cnt = 0; size = 0 };
}

abbrev pub ten_server : Server
ten_server = record { list = ten_list; aios = [] }

pub ten_list-IsValid : IsValid ten_list
ten_list-IsValid = record {
  slots = omega (arith, length-slots (idle_meta other));
  within = omega arith;
}

ten_at : position (asks name).fi.filename (infos ten_list) ≡ some 0
unfolding position str_eq
ten_at = refl

abbrev pub served : AioCalls
served = record { setup = true; submitted = λ num. num; events = λ num k. num }

pub serves : Serves (λ k. served)
serves k size = record { setup = refl; submitted = refl; reported = inl refl }

abbrev pub many : List ℕ
many = replicate 2_000 7

pub Enough-many : (n : ℕ) → n ≤ 2_000 → Enough n many
Enough-many n h = record {
  positive = All-replicate 2_000 7 (omega arith);
  many = omega (arith, length-replicate {A = ℕ} 2_000 7);
}

abbrev pub unused : Sock
unused = record { incoming = []; outgoing = []; reads = many; writes = many }

-- The bytes of the file, by their position.
abbrev pub letters : ℕ → ℕ
letters q = 65 + q

abbrev pub blanks : ℕ → ℕ
blanks q = 0

abbrev whole : List Aio
whole = stripe op_get_reply 0 9 0 10 ∷ []

abbrev getter : Sock
getter = record unused {
  incoming =
      (send_replies letters whole
        (send_outcome (get_command (asks name) ten_server).0 unused)).outgoing;
}

opens_ten :
    is_negative (open_fd true 9 (take_lock (record { read = true; cnt = 1 }) (idle_meta other))).0
    ≡ false
unfolding open_fd take_lock
opens_ten = refl

whole_taken :
    Permᴰ (get_data willing (requests 0 10) (get_command (asks name) ten_server).1).1.aios whole
unfolding get_data get_command stripe_loop str_eq get_fd_by_fidx get_file_index_from_list
    get_filemeta_by_idx lock_range wait_lock
whole_taken = Permᴰ.refl whole

get_on_both_sides_example :
    let (done, file, b') = get_proc (λ k. served) 5 name blanks getter in
    (done ≡ finished)
    × (file 3 ≡ 68)
    × (b'.incoming ≡ [])
    × (b'.outgoing ≡ wire (command (asks name)) ++ wire (transfer (requests 0 10)))
get_on_both_sides_example =
    get_on_both_sides letters name willing ten_server (idle_meta other) 0 ten_list-IsValid ten_at
      refl (record { rcnt = refl; wcnt = refl; jobs = refl }) (omega arith) (omega arith)
      (λ k. served) 5 whole blanks [] 5 5 5 unused getter 3 opens_ten (λ j. refl) refl whole_taken
      refl serves refl (sym (append-nil getter.incoming)) (Enough-many _ (omega arith))
      (Enough-many _ (omega arith)) (Enough-many _ (omega arith))

-- Four bytes from position 7 on, of which the file has three.
abbrev part_of : List Aio
part_of = stripe op_read_reply 0 9 7 3 ∷ []

abbrev range_of : Server
range_of = (read_command (range_command op_read name 7 4) ten_server).1

part_taken : Permᴰ (read_data willing (data_request op_read 0 7 3) range_of).1.aios part_of
unfolding read_data read_command stripe_loop str_eq get_fd_by_fidx get_file_index_from_list
    get_filemeta_by_idx lock_range wait_lock
part_taken = Permᴰ.refl part_of

abbrev reader : Sock
reader = record unused {
  incoming =
      (send_replies letters part_of (
        send_outcome (read_command (range_command op_read name 7 4) ten_server).0 unused)).outgoing;
}

free_ten : must_wait true (idle_meta other) ≡ false
unfolding must_wait
free_ten = refl

read_on_both_sides_example :
    let (done, buf, b') = read_proc name 7 4 blanks reader in
    (done ≡ finished)
    × (buf 2 ≡ 74)
    × (b'.incoming ≡ [])
    × (b'.outgoing
        ≡ wire (command (range_command op_read name 7 4))
          ++ wire (transfer (data_request op_read 0 7 3)))
    × ((read_data willing (data_request op_read 0 7 3) range_of).0 ≡ no_reply)
    × (length (read_data willing (data_request op_read 0 7 3) range_of).1.aios ≡ 1)
read_on_both_sides_example =
    read_on_both_sides letters name 7 4 willing ten_server (idle_meta other) 0 ten_list-IsValid
      ten_at refl free_ten (omega arith) (omega arith) (omega arith) (omega arith) part_of blanks []
      5 5 5 unused reader 2 opens_ten (λ j. refl) refl part_taken refl
      (sym (append-nil reader.incoming)) (Enough-many _ (omega arith)) (Enough-many _ (omega arith))
      (Enough-many _ (omega arith))

-- "b" of "x" as the meta file has it.
abbrev named : FileInfo
named = record { filesize = 10; filename = 98 ∷ replicate 299 0; fileowner = 120 ∷ replicate 99 0 }

abbrev named_server : Server
named_server = record {
  list = record ten_list { filearr = idle_meta named ∷ replicate 999 zero_meta };
  aios = [];
}

abbrev lister : Sock
lister = record unused {
  incoming =
      (send_listing (list_data (data_request op_list 1 0 0) named_server)
        (send_outcome (list_command named_server).0 unused)).outgoing;
}
