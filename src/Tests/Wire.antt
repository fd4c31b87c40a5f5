-- ===== src/Tests/Wire.antt =====
-- Runs on a connection whose kernel moves seven bytes at a time.
use file_server.Base.{
  ℕ, zero, suc, ◌≤◌, ◌<◌, ◌≡◌, refl, true, none, some, List, [], ◌∷◌, ◌++◌, arith, replicate,
  length-replicate, All,
}
use file_server.Base.Word.{minus_one}
use file_server.Sock.{Sock}
use file_server.Sock.Transfer.{Enough}
use file_server.Msg.{Datamsg, transfer, blank_data, op_get_reply}
use file_server.Msg.{IsHeader}
use file_server.Msg.Exchange.{send_msg, recv_msg, received}
use file_server.Msg.Exchange.Wire.{IsSendable, wire}
use file_server.Msg.Exchange.Send.{send_again_fails, exchange}

pub All-replicate : (n c : ℕ) → 0 < c → All (λ k. 0 < k) (replicate n c)
All-replicate zero c h = tt
All-replicate (suc n) c h = (h, All-replicate n c h)

Enough-sevens : (n : ℕ) → n ≤ 90 → Enough n (replicate 90 7)
Enough-sevens n h = record {
  positive = All-replicate 90 7 (omega arith);
  many = omega (arith, length-replicate {A = ℕ} 90 7);
}

abbrev fresh : Sock
fresh = record { incoming = []; outgoing = []; reads = replicate 90 7; writes = replicate 90 7 }

-- Three bytes of file 4, from byte 1000 on.
abbrev three : Datamsg
three = record blank_data {
  hd = record (blank_data.hd) { op = op_get_reply; buflen = 3 };
  sfilefd = 4;
  offset = 1000;
}

abbrev bytes : List ℕ
bytes = 65 ∷ 66 ∷ 67 ∷ []

three-IsSendable : IsSendable (transfer three) bytes
three-IsSendable = record {
  fields = record {
    hd = record {
      msglen = omega arith;
      msgtype = omega arith;
      op = omega arith;
      err = omega arith;
      buflen = omega arith;
    };
    sfilefd = omega arith;
    offset = omega arith;
    reqlen = omega arith;
  };
  layout = (refl, refl);
  stream = refl;
  small = omega arith;
}

send_again_fails_example :
    let (ret, _, s'') = send_msg (send_msg (transfer three) (some bytes) fresh).1 none fresh in
    (ret ≡ minus_one) × (s''.outgoing ≡ [])
send_again_fails_example =
    send_again_fails (transfer three) bytes none 5 fresh fresh three-IsSendable
      (Enough-sevens 40 (omega arith))

abbrev arriving : Sock
arriving = record fresh { incoming = wire (transfer three) ++ (bytes ++ (9 ∷ [])) }

abbrev peer : Sock
peer = record fresh {
  incoming = (send_msg (transfer three) (some bytes) fresh).2.outgoing ++ (9 ∷ []);
}

exchange_example :
    let (r, b') = recv_msg true peer in
    (r ≡ received (transfer three) (some bytes)) × (b'.incoming ≡ 9 ∷ [])
exchange_example =
    exchange (transfer three) bytes (9 ∷ []) 5 5 fresh peer three-IsSendable
      (Enough-sevens 40 (omega arith)) (Enough-sevens 40 (omega arith)) refl refl

three-IsHeader : IsHeader three.hd
three-IsHeader = record {
  msglen = omega arith;
  msgtype = omega arith;
  op = omega arith;
  err = omega arith;
  buflen = omega arith;
}
