-- ===== src/Tests/Transfers.antt =====
-- Runs of the data handlers and of the event thread.
use file_server.Base.{
  ℕ, ◌*◌, ◌≤◌, ◌<◌, ◌≡◌, refl, ◌⊎◌, true, false, none, some, List, [], ◌∷◌, map, arith, length,
  get_elem?, set, All,
}
use file_server.Base.Word.{is_negative}
use file_server.Filemeta.{FileMeta, FileList}
use file_server.Filemeta.Index.Refine.{infos_of}
use file_server.Filemeta.Lock.{open_fd, take_lock}
use file_server.Filemeta.Lock.Units.{with_counter}
use file_server.Msg.{Datamsg, command, transfer, op_get_reply, err_none, sizeof_file_info}
use file_server.Worker.{Aio, reply, crash, lock_units}
use file_server.Worker.Commands.{get_command, sized_reply}
use file_server.Worker.Transfers.{
  stripe, stripe_loop, rounds, read_data, write_data, put_data, get_data,
}
use file_server.Worker.Transfers.Stripes.{Ends, IsRead, stripe_loop-Ends}
use file_server.Worker.Transfers.Whole.{Sends, get_data-Sends, negative_index_crashes}
use file_server.Worker.Dispatch.{list_data}
use file_server.Worker.Dispatch.Listing.{list_data-infos}
use file_server.Worker.Events.{events_loop}
use file_server.Worker.Events.Release.{begin, events_loop-frees}
use file_server.Msg.{Commsg, op_get}
use file_server.Worker.{Server}
use file_server.Worker.Threads.{wthr_main, polling}
use file_server.Worker.Threads.Answers.{one_answer_for_two}
use file_server.Worker.Cycle.{IsIdle, IsWhole, get_cycle}
use file_server.Filemeta.{FileInfo, FileMeta, infos, str_eq}
use file_server.Filemeta.Index.Catalog.{position}
use file_server.Worker.Commands.{put_command}
use file_server.Worker.Events.{Round}
use file_server.Worker.PutCycle.{put_cycle}
use file_server.Worker.PutRun.{put_all}
use file_server.Tests.Samples.{other}
use file_server.Tests.Samples.{
  notes, idle_meta, notes_list, notes_server, notes_list-IsValid, about, range, willing,
}
use file_server.Tests.Samples.{notes_at}

stripe_loop-Ends_example :
    Ends op_get_reply 0 9
      (λ j. true)
      0
      3_145_733
      (stripe_loop op_get_reply 0 9 (λ j. true) (rounds 3_145_733) 0 0 3_145_733)
    × All
        (IsRead op_get_reply 0 9)
        (stripe_loop op_get_reply 0 9 (λ j. true) (rounds 3_145_733) 0 0 3_145_733).0
stripe_loop-Ends_example =
    stripe_loop-Ends op_get_reply 0 9 (λ j. true) 0 3_145_733 (omega arith) (omega arith)

opens : is_negative (open_fd true 9 (idle_meta notes)).0 ≡ false
unfolding open_fd
opens = refl

get_data-Sends_example :
    Sends willing range notes_server
      (idle_meta notes)
      (omega arith)
      notes_list-IsValid
      refl
      op_get_reply
      0
      3_145_733
      (get_data willing range notes_server)
get_data-Sends_example =
    get_data-Sends willing range notes_server (idle_meta notes) (omega arith) notes_list-IsValid
      refl opens (omega arith)

abbrev negative : Datamsg
negative = record range { sfilefd = 4_294_967_295 }

negative_index_crashes_example :
    (read_data willing negative notes_server ≡ (crash, notes_server))
    × (write_data willing negative notes_server ≡ (crash, notes_server))
    × (put_data willing negative notes_server ≡ (crash, notes_server))
    × (get_data willing negative notes_server ≡ (crash, notes_server))
negative_index_crashes_example =
    negative_index_crashes willing negative notes_server (omega arith) (omega arith)
      notes_list-IsValid

abbrev asked : ℕ → Datamsg
asked n = record range { sfilefd = n }

list_data-infos_example :
    let (o, stream) = list_data (asked 1) notes_server in
    ((1 ≤ 1)
      × (stream ≡ some (infos_of 1 notes_list.filearr))
      × ((r : Datamsg) × (o ≡ reply (transfer r))
          × (r.hd.err ≡ err_none)
          × (r.hd.buflen ≡ 1 * sizeof_file_info)))
    ⊎ ((1 < 1) × (o ≡ crash))
list_data-infos_example = list_data-infos (asked 1) notes_server notes_list-IsValid (omega arith)

abbrev two_stripes : List Aio
two_stripes = stripe op_get_reply 0 9 0 1_048_576 ∷ stripe op_get_reply 0 9 1_048_576 1_048_576 ∷ []

-- The file held for three transfers, and for two.
abbrev held_list : ℕ → FileList
held_list n = record notes_list {
  filearr = set notes_list.filearr 0 (with_counter true n (idle_meta notes));
}

events_loop-frees_example :
    events_loop two_stripes (begin (held_list 2))
    ≡ some (record {
      list = record (held_list 2) {
        filearr =
            set
              (held_list 2).filearr
              0
              (with_counter true 0 (with_counter true 2 (idle_meta notes)));
      };
      replies = map (λ a. a.answer) two_stripes;
      woken = [];
    })
events_loop-frees_example =
    events_loop-frees 0 true two_stripes (held_list 2) (with_counter true 2 (idle_meta notes)) 1
      ((refl, refl), ((refl, refl), tt)) (omega arith) (omega arith) refl refl (omega arith) refl
      refl

nobody : IsIdle (idle_meta notes)
nobody = record { rcnt = refl; wcnt = refl; jobs = refl }

abbrev taken : FileMeta
taken = take_lock (record { read = true; cnt = lock_units 3_145_733 }) (idle_meta notes)

opens_taken : is_negative (open_fd true 9 taken).0 ≡ false
unfolding open_fd take_lock
opens_taken = refl

get_cycle_example :
    (get_command (about notes) notes_server ≡ (
      reply (command (sized_reply op_get_reply 0 3_145_733)),
      record { list = record notes_list { filearr = set notes_list.filearr 0 taken }; aios = [] },
    ))
    × IsWhole willing
        (about notes)
        range
        notes_server
        (idle_meta notes)
        notes_list-IsValid
        notes_at
        refl
        nobody
        (omega arith)
        (omega arith)
        (get_data willing range (get_command (about notes) notes_server).1)
get_cycle_example =
    get_cycle willing (about notes) range notes_server (idle_meta notes) notes_list-IsValid notes_at
      refl nobody (omega arith) (omega arith) opens_taken (λ j. refl)

-- A GET of the notes, for a worker.
abbrev command_of_get : Commsg
command_of_get = record (about notes) { hd = record ((about notes).hd) { op = op_get } }

abbrev data_of_get : Datamsg
data_of_get = record range { hd = record (range.hd) { op = op_get } }

one_answer_for_two_example :
    (s' : Server) × (wthr_main
        ((willing, some (command command_of_get)) ∷ (willing, some (transfer data_of_get)) ∷ [])
        []
        notes_server
      ≡ polling ((command (sized_reply op_get_reply 0 3_145_733), none) ∷ []) s')
one_answer_for_two_example =
    one_answer_for_two willing willing command_of_get data_of_get notes_server (idle_meta notes)
      refl refl notes_list-IsValid notes_at refl nobody (omega arith) (omega arith) opens_taken
      (λ j. refl)

-- "b" with two stripes and a byte, in three messages.
abbrev large : FileInfo
large = record other { filesize = 2_097_153 }

abbrev piece_of : ℕ → Datamsg
piece_of n = record range { sfilefd = 1; offset = n; hd = record (range.hd) { buflen = 1_048_576 } }

abbrev parts : List Datamsg
parts = piece_of 0 ∷ piece_of 1_048_576 ∷ piece_of 2_097_152 ∷ []

large_new : position large.filename (infos notes_list) ≡ none
unfolding position str_eq
large_new = refl

put_cycle_example :
    let s' = put_all willing parts (put_command (about large) notes_server).1 in
    (taken : List Aio) × (r : Round) × (m' : FileMeta) × (s'.aios ≡ taken)
    × (length taken ≡ 3)
    × (events_loop taken (begin s'.list) ≡ some r)
    × (r.replies ≡ map (λ a. a.answer) taken)
    × (r.woken ≡ [])
    × (get_elem? r.list.filearr 1 ≡ some m')
    × IsIdle m'
put_cycle_example =
    put_cycle willing (about large) parts notes_server notes_list-IsValid large_new (omega arith)
      (omega arith) (omega arith) (record { opens = refl; takes = refl }) (refl, (refl, (refl, tt)))
      refl
