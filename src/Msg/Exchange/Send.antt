-- ===== src/Msg/Exchange/Send.antt =====
-- `send_msg`: what goes out on the connection, and a message that was sent before.
use mathlib.Core.List.{append_assoc, append-nil}
use file_server.Base.{
  ℕ, ◌+◌, ◌-◌, ◌^◌, ◌<◌, ◌≤◌, ◌≡◌, refl, ap, sym, ◌∙◌, true, false, Option, some, List, [], ◌∷◌,
  ◌++◌, arith, ◌==◌, length, take,
}
use file_server.Base.Word.{is_positive, minus_one, ge_int}
use file_server.Sock.{Sock, sock_send}
use file_server.Sock.Transfer.{Enough, sock_send-all, sock_send-negative, take_all}
use file_server.Msg.{Msg, command, transfer, header, msgtype_max}
use file_server.Msg.Serialize.{htonl, serialize_msg}
use file_server.Msg.Bytes.{msg_bytes}
use file_server.Msg.Exchange.{send_msg, send_buf, received, recv_msg}
use file_server.Msg.Exchange.Recv.{recv_msg-Arrives}
use file_server.Msg.Exchange.Wire.{
  HasLayout, IsSendable, payload, wire, msg_bytes-wire, msglen_small, length-wire,
}

send_buf_all :
    (buf : List ℕ) (n spare : ℕ) (s : Sock)
    → n ≡ length buf
    → n < 2 ^ 31
    → Enough (n + spare) s.writes
    → let (ret, s') = send_buf (some buf) n s in
      (ret ≡ 0) × (s'.outgoing ≡ s.outgoing ++ buf) × Enough spare s'.writes
unfolding send_buf
send_buf_all [] n spare s l small e =
    let none_left : is_positive n ≡ false = ground arith in
    rw none_left (
      refl,
      sym (append-nil s.outgoing),
      record { positive = e.positive; many = omega (arith, e.many) },
    )
send_buf_all (b ∷ bs) n spare s l small e =
    let some_left : is_positive n ≡ true = ground arith in
    let (sent, out, _, more) = sock_send-all (b ∷ bs) n spare s small (omega arith) e in
    let all : ((sock_send (b ∷ bs) n s).0 == n) ≡ true = ground (arith, sent) in
    rw (some_left, all)
      (refl, out ∙ ap (λ xs. s.outgoing ++ xs) (take_all n (b ∷ bs) (omega arith)), more)

send_msg_ok :
    (m : Msg) (buf : List ℕ) (s : Sock)
    → HasLayout m
    → (sock_send (msg_bytes (serialize_msg m)) (header m).msglen s).0 ≡ (header m).msglen
    → send_msg m (some buf) s ≡ (
        let (ret, s') =
          send_buf
            (some buf)
            (header m).buflen
            (sock_send (msg_bytes (serialize_msg m)) (header m).msglen s).1 in
        (ret, serialize_msg m, s'))
unfolding send_msg
send_msg_ok (command c) buf s (t, l) e = ground arith
send_msg_ok (transfer d) buf s (t, l) e = ground arith

-- On a connection that takes something in each of enough calls, `send_msg` of a well-formed message
-- puts the bytes of the serialized message and then those of its stream on it, returns 0, and
-- leaves the message serialized.
pub send_msg-wire :
    (m : Msg) (buf : List ℕ) (spare : ℕ) (s : Sock)
    → IsSendable m buf
    → Enough ((header m).msglen + ((header m).buflen + spare)) s.writes
    → let (ret, m', s') = send_msg m (some buf) s in
      (ret ≡ 0)
      × (m' ≡ serialize_msg m)
      × (s'.outgoing ≡ s.outgoing ++ (wire m ++ buf))
      × Enough spare s'.writes
send_msg-wire m buf spare s v e =
    let h = header m in
    let (low, small) = msglen_small m v.layout in
    let len : length (msg_bytes (serialize_msg m)) ≡ h.msglen =
      ap length (msg_bytes-wire m) ∙ length-wire m v.fields v.layout in
    let (sent, out, _, more) =
      sock_send-all (msg_bytes (serialize_msg m)) h.msglen (h.buflen + spare) s small (omega arith)
        e in
    let (ret, out', more') =
      send_buf_all buf h.buflen spare (sock_send (msg_bytes (serialize_msg m)) h.msglen s).1
        v.stream (omega (arith, v.stream, v.small)) more in
    let whole : take h.msglen (msg_bytes (serialize_msg m)) ≡ wire m =
      take_all h.msglen (msg_bytes (serialize_msg m)) (omega arith) ∙ msg_bytes-wire m in
    rw (send_msg_ok m buf s v.layout sent) (
      ret,
      refl,
      out'
          ∙ ap (λ xs. xs ++ buf) (out ∙ ap (λ xs. s.outgoing ++ xs) whole)
          ∙ append_assoc s.outgoing (wire m) buf,
      more',
    )

abbrev pub Fails : Sock → ℕ × Msg × Sock → Type 0
Fails s (ret, m, s') = (ret ≡ minus_one) × (s'.outgoing ≡ s.outgoing)

bad_type :
    (m : Msg) (buf : Option (List ℕ)) (s : Sock)
    → ge_int (header m).msgtype msgtype_max ≡ true
    → Fails s (send_msg m buf s)
unfolding send_msg
bad_type m buf s e = ground arith

bad_length :
    (m : Msg) (buf : Option (List ℕ)) (s : Sock)
    → 2 ^ 31 ≤ (header m).msglen
    → Fails s (send_msg m buf s)
unfolding send_msg
bad_length m buf s h =
    ground (arith, sock_send-negative (msg_bytes (serialize_msg m)) (header m).msglen s h)

pub serialized-Fails :
    (m : Msg) (buf : Option (List ℕ)) (s : Sock)
    → HasLayout m
    → Fails s (send_msg (serialize_msg m) buf s)
unfolding serialize_msg htonl
serialized-Fails (command c) buf s (t, l) = bad_length _ buf s (ground arith)
serialized-Fails (transfer d) buf s (t, l) = bad_type _ buf s (ground arith)

-- A well-formed message that was sent on a connection that takes enough cannot be sent again: the
-- next `send_msg` of it, on any connection and with any stream, returns -1 and puts nothing on the
-- connection.
pub send_again_fails :
    (m : Msg) (buf : List ℕ) (buf' : Option (List ℕ)) (spare : ℕ) (s s' : Sock)
    → IsSendable m buf
    → Enough ((header m).msglen + ((header m).buflen + spare)) s.writes
    → let (ret, _, s'') = send_msg (send_msg m (some buf) s).1 buf' s' in
      (ret ≡ minus_one) × (s''.outgoing ≡ s'.outgoing)
send_again_fails m buf buf' spare s s' v e =
    rw ((send_msg-wire m buf spare s v e).1) (serialized-Fails m buf' s' v.layout)

-- A message that `init_send_msg` set up, with fields that are words and a stream of `buflen` bytes
-- below 2 GB, is sent on an unused connection, and the other end's incoming bytes are those that
-- went out, with others behind them. If both kernels move something in each of enough calls, in
-- whatever pieces, then `recv_msg` returns the message and its stream as they were before the
-- sending, and leaves the bytes behind them.
pub exchange :
    (m : Msg) (buf rest : List ℕ) (spare more : ℕ) (a b : Sock)
    → IsSendable m buf
    → Enough ((header m).msglen + ((header m).buflen + spare)) a.writes
    → Enough (20 + ((header m).msglen - 20 + ((header m).buflen + more))) b.reads
    → a.outgoing ≡ []
    → b.incoming ≡ (send_msg m (some buf) a).2.outgoing ++ rest
    → let (r, b') = recv_msg true b in (r ≡ received m (payload buf)) × (b'.incoming ≡ rest)
exchange m buf rest spare more a b v ew er empty joined =
    let (_, _, out, _) = send_msg-wire m buf spare a v ew in
    let (r, left, _) =
      recv_msg-Arrives m buf rest more v b
        (joined
          ∙ ap (λ xs. xs ++ rest) (out ∙ ap (λ xs. xs ++ (wire m ++ buf)) empty)
          ∙ append_assoc (wire m) buf rest)
        er in
    (r, left)
