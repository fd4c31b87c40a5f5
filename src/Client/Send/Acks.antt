-- ===== src/Client/Send/Acks.antt =====
-- A message of the data whose reply has no error, and the messages of a whole range.
use file_server.Base.{
  ℕ, ◌+◌, ◌-◌, ◌≡◌, refl, ap, ◌∙◌, false, none, some, List, [], ◌∷◌, ◌++◌, arith, ◌==◌,
}
use file_server.Base.Word.{minus_one}
use file_server.Sock.{Sock}
use file_server.Sock.Transfer.{Enough}
use file_server.Msg.{Datamsg, transfer, err_none}
use file_server.Msg.Exchange.{send_msg, recv_msg}
use file_server.Msg.Exchange.Wire.{IsSendable, wire}
use file_server.Msg.Exchange.Recv.{recv_msg-bare}
use file_server.Msg.Exchange.Send.{send_msg-wire}
use file_server.Msg.Exchange.Sides.{send_msg-SameIn, recv_msg-SameOut}
use file_server.Client.{Answer, answer, got_of}
use file_server.Client.Send.{acknowledged, send_part}

-- A reply without a stream and without an error.
pub record IsAck (r : Datamsg) : Type 0 where
  pub sendable : IsSendable (transfer r) []
  pub err : r.hd.err ≡ err_none

-- The replies on the connection, and as many calls of `read` as they have bytes.
abbrev pub acks : List Datamsg → List ℕ
acks [] = []
acks (r ∷ rs) = wire (transfer r) ++ acks rs

abbrev pub ack_cost : List Datamsg → ℕ → ℕ
ack_cost [] spare = spare
ack_cost (r ∷ rs) spare = 20 + (r.hd.msglen - 20 + (r.hd.buflen + ack_cost rs spare))

abbrev ack_answer : Datamsg → Answer
ack_answer r = record {
  err = r.hd.err;
  buflen = r.hd.buflen;
  first = some r.sfilefd;
  second = some r.offset;
  stream = none;
}

-- What a message leaves on the connection once its reply has come.
abbrev pub Acked : Datamsg → List ℕ → List ℕ → ℕ → ℕ → Sock → Sock → Type 0
Acked d bytes rest spare more s s' =
    (s'.outgoing ≡ s.outgoing ++ (wire (transfer d) ++ bytes))
    × (s'.incoming ≡ rest)
    × Enough spare s'.writes
    × Enough more s'.reads

answered-acknowledged :
    (d : Datamsg) (bytes : List ℕ) (s : Sock) (x : Answer)
    → ((send_msg (transfer d) (some bytes) s).0 ≡ 0)
    → got_of (recv_msg false (send_msg (transfer d) (some bytes) s).2).0 ≡ answer x
    → x.err ≡ err_none
    → send_part d bytes s ≡ acknowledged (recv_msg false (send_msg (transfer d) (some bytes) s).2).1
unfolding send_part
answered-acknowledged d bytes s x r g e =
    let sent : ((send_msg (transfer d) (some bytes) s).0 == minus_one) ≡ false =
      ground (arith, r) in
    rw (sent, g, e) refl

pub send_part-Acked :
    (d r : Datamsg) (bytes rest : List ℕ) (spare more : ℕ) (s : Sock)
    → IsSendable (transfer d) bytes
    → IsAck r
    → s.incoming ≡ wire (transfer r) ++ rest
    → Enough (d.hd.msglen + (d.hd.buflen + spare)) s.writes
    → Enough (20 + (r.hd.msglen - 20 + (r.hd.buflen + more))) s.reads
    → (s' : Sock) × (send_part d bytes s ≡ acknowledged s') × Acked d bytes rest spare more s s'
unfolding got_of
send_part-Acked d r bytes rest spare more s v ack i ew er =
    let s1 = (send_msg (transfer d) (some bytes) s).2 in
    let (ret, _, out, left) = send_msg-wire (transfer d) bytes spare s v ew in
    let (same, reads) = send_msg-SameIn (transfer d) (some bytes) s in
    let (got, i', left') =
      recv_msg-bare false (transfer r) rest more s1 ack.sendable (same ∙ i) (rw reads er) in
    let (out', writes) = recv_msg-SameOut false s1 in
    (
      (recv_msg false s1).1,
      answered-acknowledged d bytes s (ack_answer r) ret (ap got_of got) ack.err,
      (out' ∙ out, i', rw writes left, left'),
    )
