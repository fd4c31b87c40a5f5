-- ===== src/System/Acks.antt =====
-- The answers of the server to a PUT, as they go out on its connection.
use mathlib.Core.List.{append_assoc, append-nil}
use file_server.Base.{
  ℕ, zero, suc, replicate, ap₂, ◌+◌, ◌*◌, ◌<◌, ◌≡◌, refl, ap, sym, ◌∙◌, none, List, [], ◌∷◌, ◌++◌,
  arith, All, length, map,
}
use file_server.Sock.{Sock}
use file_server.Sock.Transfer.{Enough}
use file_server.Msg.{Datamsg, command, transfer, op_put_reply, err_none}
use file_server.Msg.Exchange.{send_msg}
use file_server.Msg.Exchange.Sides.{send_msg-bare}
use file_server.Client.Procedures.Downloads.{sized_reply-IsSendable}
use file_server.Msg.Exchange.Wire.{wire, data_header-IsHeader}
use file_server.Worker.{reply, data_reply}
use file_server.Worker.Commands.{found_reply}
use file_server.Worker.PutRun.{put_transfer}
use file_server.Client.Send.Acks.{IsAck, acks}
use file_server.System.{send_answers, send_outcome}

-- An answer of the server to a data message of a PUT is a reply without an error or a stream.
put_reply-IsAck : (i : ℕ) → i < 1000 → IsAck (data_reply op_put_reply err_none i)
put_reply-IsAck i few = record {
  sendable = record {
    fields = record {
      hd = data_header-IsHeader op_put_reply 0 (omega arith) (omega arith);
      sfilefd = omega arith;
      offset = omega arith;
      reqlen = omega arith;
    };
    layout = (refl, refl);
    stream = refl;
    small = omega arith;
  };
  err = refl;
}

-- The server's answers to the data messages of a PUT of file `i`, of which there are `m`.
abbrev pub put_replies : ℕ → ℕ → List Datamsg
put_replies i m = replicate m (data_reply op_put_reply err_none i)

pub put_replies-IsAck : (i m : ℕ) → i < 1000 → All IsAck (put_replies i m)
put_replies-IsAck i zero few = tt
put_replies-IsAck i (suc m) few = (put_reply-IsAck i few, put_replies-IsAck i m few)

pub answers-put_replies :
    (fd i : ℕ) (ds : List Datamsg)
    → All (λ d. d.sfilefd ≡ i) ds
    → map (λ a. a.answer) (map (put_transfer fd) ds) ≡ put_replies i (length ds)
unfolding put_transfer
answers-put_replies fd i [] h = refl
answers-put_replies fd i (d ∷ ds) h =
    ap₂ (λ f rs. data_reply op_put_reply err_none f ∷ rs) h.0 (answers-put_replies fd i ds h.1)

send_answers-acks :
    (i m spare : ℕ) (s : Sock)
    → i < 1000
    → Enough (m * 32 + spare) s.writes
    → (send_answers (put_replies i m) s).outgoing ≡ s.outgoing ++ acks (put_replies i m)
unfolding send_answers
send_answers-acks i zero spare s few e = sym (append-nil s.outgoing)
send_answers-acks i (suc m) spare s few e =
    let d = transfer (data_reply op_put_reply err_none i) in
    let (_, _, out, left) =
      send_msg-bare d (m * 32 + spare) s (put_reply-IsAck i few).sendable
        (record { positive = e.positive; many = omega (arith, e.many) }) in
    send_answers-acks i m spare (send_msg d none s).2 few left
    ∙ ap (λ o. o ++ acks (put_replies i m)) out
    ∙ append_assoc s.outgoing (wire d) (acks (put_replies i m))

-- What the server sends back on an unused connection: the answer to the command, and the others.
pub answers_on :
    (i m spare : ℕ) (s : Sock)
    → i < 1000
    → s.outgoing ≡ []
    → Enough (436 + (0 + (m * 32 + spare))) s.writes
    → (send_answers
        (put_replies i m)
        (send_outcome (reply (command (found_reply op_put_reply i))) s)).outgoing
      ≡ wire (command (found_reply op_put_reply i)) ++ acks (put_replies i m)
unfolding send_outcome
answers_on i m spare s few empty e =
    let c = command (found_reply op_put_reply i) in
    let (_, _, out, left) =
      send_msg-bare c (m * 32 + spare) s
        (sized_reply-IsSendable op_put_reply i 0 (omega arith) (omega arith) (omega arith)) e in
    send_answers-acks i m spare (send_msg c none s).2 few left
    ∙ ap (λ o. o ++ acks (put_replies i m)) (out ∙ ap (λ o. o ++ wire c) empty)
