-- ===== src/Tests/Sending.antt =====
-- Runs of PUT and WRITE, for ten bytes and for four.
use mathlib.Core.List.{append-nil}
use mathlib.Core.List.Permᴰ
use file_server.Base.{ℕ, ◌<◌, ◌≡◌, refl, sym, none, List, [], ◌∷◌, ◌++◌, arith}
use file_server.Sock.{Sock}
use file_server.Filemeta.{infos, str_eq}
use file_server.Filemeta.Index.Catalog.{position}
use file_server.Msg.{Datamsg, command, op_write, op_write_reply}
use file_server.Msg.Exchange.Wire.{wire, data_header-IsHeader}
use file_server.Worker.{data_reply}
use file_server.Worker.Commands.{sized_reply}
use file_server.System.{send_answers, send_outcome}
use file_server.Worker.Commands.{put_command}
use file_server.Client.Command.{sized_command, range_command}
use file_server.Client.Receive.{finished}
use file_server.Client.Send.Acks.{IsAck, acks}
use file_server.Client.Procedures.{put_proc, write_proc}
use file_server.Client.Procedures.Puts.{Delivers, write_proc_writes}
use file_server.System.Acks.{put_replies}
use file_server.System.Puts.{Takes, put_on_both_sides}
use file_server.Tests.Samples.{notes_list, notes_server, notes_list-IsValid, willing}
use file_server.Tests.Fetching.{served, serves, Enough-many, unused, letters, blanks}

-- The name of the new file is "c".
abbrev fresh_name : List ℕ
fresh_name = 99 ∷ []

new_name : position (sized_command fresh_name [] 10).fi.filename (infos notes_list) ≡ none
unfolding position str_eq
new_name = refl

pub reply-IsAck : (op i : ℕ) → op < 10 → i < 10 → IsAck (data_reply op 0 i)
reply-IsAck op i small few = record {
  sendable = record {
    fields = record {
      hd = data_header-IsHeader op 0 (omega arith) (omega arith);
      sfilefd = omega arith;
      offset = omega arith;
      reqlen = omega arith;
    };
    layout = (refl, refl);
    stream = refl;
    small = omega arith;
  };
  err = refl;
}

abbrev putter : Sock
putter = record unused {
  incoming =
      (send_answers (put_replies 1 1) (
        send_outcome (put_command (sized_command fresh_name [] 10) notes_server).0
          unused)).outgoing;
}

abbrev taker : Sock
taker = record unused {
  incoming = (put_proc (λ k. served) 5 fresh_name [] 10 letters blanks putter).1.outgoing;
}

put_on_both_sides_example :
    ((put_proc (λ k. served) 5 fresh_name [] 10 letters blanks putter).0 ≡ finished)
    × Takes letters fresh_name [] 10 willing notes_server taker (λ xs. xs) blanks 4
put_on_both_sides_example =
    put_on_both_sides letters fresh_name [] 10 willing notes_server notes_list-IsValid new_name
      (omega arith) (omega arith) (omega arith) (record { opens = refl; takes = refl })
      (λ k. served) 5 blanks [] [] 5 5 5 5 taker unused putter (λ xs. xs) blanks 4 refl serves refl
      refl (sym (append-nil putter.incoming)) (sym (append-nil taker.incoming))
      (Enough-many _ (omega arith)) (Enough-many _ (omega arith)) (Enough-many _ (omega arith))
      (Enough-many _ (omega arith)) (λ xs. Permᴰ.refl xs)

abbrev overwritten : Datamsg
overwritten = data_reply op_write_reply 0 0

abbrev writer : Sock
writer = record unused {
  incoming = wire (command (sized_reply op_write_reply 0 10)) ++ (acks (overwritten ∷ []) ++ []);
}

write_proc_writes_example :
    Delivers op_write
      (range_command op_write fresh_name 7 4)
      0
      letters
      7
      7
      3
      []
      1
      writer
      (write_proc fresh_name 7 4 letters writer)
write_proc_writes_example =
    write_proc_writes fresh_name 7 4 letters 0 10 (overwritten ∷ []) [] 5 5 writer (omega arith)
      (omega arith) (omega arith) (omega arith) (omega arith)
      (reply-IsAck op_write_reply 0 (omega arith) (omega arith), tt) refl refl
      (Enough-many _ (omega arith)) (Enough-many _ (omega arith))
