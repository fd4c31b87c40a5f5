-- ===== src/Client/Command/Accept.antt =====
-- A command whose reply has no error, and the request behind it.
use file_server.Base.{
  ℕ, zero, suc, ◌+◌, ◌-◌, ◌<◌, ◌≡◌, refl, ap, ◌∙◌, false, none, some, List, [], ◌∷◌, ◌++◌, arith,
  ◌==◌, length, length-replicate,
}
use file_server.Base.Word.{minus_one}
use file_server.Sock.{Sock}
use file_server.Sock.Transfer.{Enough}
use file_server.Msg.{Commsg, Msg, command, transfer, header, err_none, IsWord}
use file_server.Msg.Exchange.{send_msg, recv_msg}
use file_server.Msg.Exchange.Wire.{IsSendable, wire, command_header-IsHeader, data_header-IsHeader}
use file_server.Msg.Exchange.Recv.{recv_msg-bare}
use file_server.Msg.Exchange.Sides.{send_msg-bare, send_msg-SameIn, recv_msg-SameOut}
use file_server.Client.{Answer, answer, got_of}
use file_server.Client.Command.{
  accepted, retry, strncpy, range_command, sized_command, data_request,
}

-- A reply to a command, as the client has it.
abbrev pub command_answer : Commsg → Answer
command_answer c = record {
  err = c.hd.err;
  buflen = c.hd.buflen;
  first = some c.sfilefd;
  second = some c.fi.filesize;
  stream = none;
}

-- What a message without a stream and the reply that may follow leave of the connection.
abbrev pub Passed : Msg → List ℕ → ℕ → ℕ → Sock → Sock → Type 0
Passed m rest spare more s s' =
    (s'.outgoing ≡ s.outgoing ++ wire m)
    × (s'.incoming ≡ rest)
    × Enough spare s'.writes
    × Enough more s'.reads

accepts :
    (op n : ℕ) (m : Msg) (s : Sock) (x : Answer)
    → (send_msg m none s).0 ≡ 0
    → got_of (recv_msg false (send_msg m none s).2).0 ≡ answer x
    → x.err ≡ err_none
    → retry op (suc n) m s ≡ (accepted x, (recv_msg false (send_msg m none s).2).1)
unfolding retry
accepts op n m s x r g e =
    let sent : ((send_msg m none s).0 == minus_one) ≡ false = ground (arith, r) in
    rw (sent, g, e, retry) refl

-- The first attempt is accepted.
pub retry-accepted :
    (op n : ℕ) (m : Msg) (c : Commsg) (rest : List ℕ) (spare more : ℕ) (s : Sock)
    → IsSendable m []
    → IsSendable (command c) []
    → c.hd.err ≡ err_none
    → s.incoming ≡ wire (command c) ++ rest
    → Enough ((header m).msglen + ((header m).buflen + spare)) s.writes
    → Enough (20 + (c.hd.msglen - 20 + (c.hd.buflen + more))) s.reads
    → (s' : Sock) × (retry op (suc n) m s ≡ (accepted (command_answer c), s'))
      × Passed m rest spare more s s'
unfolding got_of
retry-accepted op n m c rest spare more s v vc ok i ew er =
    let s1 = (send_msg m none s).2 in
    let (ret, _, out, left) = send_msg-bare m spare s v ew in
    let (same, reads) = send_msg-SameIn m none s in
    let (got, i', left') =
      recv_msg-bare false (command c) rest more s1 vc (same ∙ i) (rw reads er) in
    let (out', writes) = recv_msg-SameOut false s1 in
    (
      (recv_msg false s1).1,
      accepts op n m s (command_answer c) ret (ap got_of got) ok,
      (out' ∙ out, i', rw writes left, left'),
    )

pub length-strncpy : (n : ℕ) (src : List ℕ) → length (strncpy n src) ≡ n
length-strncpy zero src = refl
length-strncpy (suc n) [] = length-replicate (suc n) 0
length-strncpy (suc n) (zero ∷ src) = length-replicate (suc n) 0
length-strncpy (suc n) (suc c ∷ src) = ap suc (length-strncpy n src)

pub range_command-IsSendable :
    (op : ℕ) (filename : List ℕ) (fileoffset buflen : ℕ)
    → op < 10
    → IsWord fileoffset
    → IsWord buflen
    → IsSendable (command (range_command op filename fileoffset buflen)) []
range_command-IsSendable op filename fileoffset buflen small off_word len_word = record {
  fields = record {
    hd = command_header-IsHeader _ (omega arith);
    sfilefd = omega arith;
    filesize = omega arith;
    filename = length-strncpy 300 filename;
    fileowner = length-replicate {A = ℕ} 100 0;
    offset = off_word;
    reqlen = len_word;
  };
  layout = (refl, refl);
  stream = refl;
  small = omega arith;
}

pub sized_command-IsSendable :
    (filename fileowner : List ℕ) (filesize : ℕ)
    → IsWord filesize
    → IsSendable (command (sized_command filename fileowner filesize)) []
sized_command-IsSendable filename fileowner filesize word = record {
  fields = record {
    hd = command_header-IsHeader _ (omega arith);
    sfilefd = omega arith;
    filesize = word;
    filename = length-strncpy 300 filename;
    fileowner = length-strncpy 100 fileowner;
    offset = omega arith;
    reqlen = omega arith;
  };
  layout = (refl, refl);
  stream = refl;
  small = omega arith;
}

pub data_request-IsSendable :
    (op sfilefd offset reqlen : ℕ)
    → op < 10
    → IsWord sfilefd
    → IsWord offset
    → IsWord reqlen
    → IsSendable (transfer (data_request op sfilefd offset reqlen)) []
data_request-IsSendable op sfilefd offset reqlen small fd_word off_word len_word = record {
  fields = record {
    hd = data_header-IsHeader op 0 (omega arith) (omega arith);
    sfilefd = fd_word;
    offset = off_word;
    reqlen = len_word;
  };
  layout = (refl, refl);
  stream = refl;
  small = omega arith;
}
