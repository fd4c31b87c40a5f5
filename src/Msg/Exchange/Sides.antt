-- ===== src/Msg/Exchange/Sides.antt =====
-- `send_msg` leaves what comes in, and `recv_msg` what goes out; and a message without a stream.
use mathlib.Core.List.{append-nil}
use file_server.Base.{
  ℕ, ◌+◌, ◌-◌, ◌≡◌, refl, ap, ◌∙◌, inl, inr, Bool, false, Option, none, some, List, [], ◌++◌, arith,
  ◌==◌, Bool-cases, Option-cases, length,
}
use file_server.Base.Word.{is_positive}
use file_server.Sock.{Sock, sock_send, sock_recv}
use file_server.Sock.Transfer.{Enough}
use file_server.Msg.{Header, Msg, header}
use file_server.Msg.Serialize.{serialize_msg, deserialize_msg_header}
use file_server.Msg.Bytes.{msg_bytes, read_header}
use file_server.Msg.Exchange.{send_buf, send_msg, recv_buf, recv_body, recv_msg}
use file_server.Msg.Exchange.Wire.{IsSendable, wire}
use file_server.Msg.Exchange.Send.{send_msg-wire}

-- The side of the connection that comes in is the same, or the one that goes out.
abbrev pub SameIn : Sock → Sock → Type 0
SameIn s s' = (s'.incoming ≡ s.incoming) × (s'.reads ≡ s.reads)

abbrev pub SameOut : Sock → Sock → Type 0
SameOut s s' = (s'.outgoing ≡ s.outgoing) × (s'.writes ≡ s.writes)

sock_send-SameIn : (buf : List ℕ) (n : ℕ) (s : Sock) → SameIn s (sock_send buf n s).1
unfolding sock_send
sock_send-SameIn buf n s = (refl, refl)

sock_recv-SameOut : (n : ℕ) (s : Sock) → SameOut s (sock_recv n s).1
unfolding sock_recv
sock_recv-SameOut n s = (refl, refl)

send_buf-SameIn : (buf : Option (List ℕ)) (n : ℕ) (s : Sock) → SameIn s (send_buf buf n s).1
unfolding send_buf
send_buf-SameIn none n s = (refl, refl)
send_buf-SameIn (some buf) n s =
    (ground (arith, sock_send-SameIn buf n s), ground (arith, sock_send-SameIn buf n s))

pub send_msg-SameIn : (m : Msg) (buf : Option (List ℕ)) (s : Sock) → SameIn s (send_msg m buf s).2
unfolding send_msg
send_msg-SameIn m buf s =
    let h : Header = header m in
    let (_, s1) = sock_send (msg_bytes (serialize_msg m)) h.msglen s in
    let first = sock_send-SameIn (msg_bytes (serialize_msg m)) h.msglen s in
    let second = send_buf-SameIn buf h.buflen s1 in
    (ground (arith, first, second), ground (arith, first, second))

recv_buf-SameOut :
    (want : Bool) (h : Header) (body : List ℕ) (s : Sock) → SameOut s (recv_buf want h body s).1
unfolding recv_buf
recv_buf-SameOut want h body s =
    let got = sock_recv-SameOut h.buflen s in (ground (arith, got), ground (arith, got))

recv_body-SameOut : (want : Bool) (h : Header) (s : Sock) → SameOut s (recv_body want h s).1
unfolding recv_body
recv_body-SameOut want h s =
    let (body, s') = sock_recv (h.msglen - 20) s in
    let got = sock_recv-SameOut (h.msglen - 20) s in
    let later = recv_buf-SameOut want h body s' in
    (ground (arith, got, later), ground (arith, got, later))

pub recv_msg-SameOut : (want : Bool) (s : Sock) → SameOut s (recv_msg want s).1
unfolding recv_msg
recv_msg-SameOut want s =
    let (got, s') = sock_recv 20 s in
    let first = sock_recv-SameOut 20 s in
    elim (Bool-cases (length got == 20)) [
      | inr short ↦ rw short first
      | inl whole ↦ elim (Option-cases (read_header got)) [
        | inl bad ↦ rw (whole, bad) first
        | inr (h, e) ↦
            let later = recv_body-SameOut want (deserialize_msg_header h) s' in
            rw (whole, e) (later.0 ∙ first.0, later.1 ∙ first.1)
      ]
    ]

send_msg-none :
    (m : Msg) (s : Sock) → (header m).buflen ≡ 0 → send_msg m none s ≡ send_msg m (some []) s
unfolding send_msg send_buf
send_msg-none m s e =
    let none_left : is_positive (header m).buflen ≡ false = ground arith in rw none_left refl

-- `send_msg` of a message without a stream and with no place for one.
pub send_msg-bare :
    (m : Msg) (spare : ℕ) (s : Sock)
    → IsSendable m []
    → Enough ((header m).msglen + ((header m).buflen + spare)) s.writes
    → let (ret, m', s') = send_msg m none s in
      (ret ≡ 0)
      × (m' ≡ serialize_msg m)
      × (s'.outgoing ≡ s.outgoing ++ wire m)
      × Enough spare s'.writes
send_msg-bare m spare s v e = rw (send_msg-none m s v.stream) (
    let (ret, m', out, more) = send_msg-wire m [] spare s v e in
    (ret, m', out ∙ ap (λ xs. s.outgoing ++ xs) (append-nil (wire m)), more))
