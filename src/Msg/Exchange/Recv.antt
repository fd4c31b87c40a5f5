-- ===== src/Msg/Exchange/Recv.antt =====
-- `recv_msg` stage by stage on the bytes of a message.
use mathlib.Core.List.{append_assoc}
use file_server.Base.{
  ℕ, suc, ◌+◌, ◌-◌, ◌^◌, ◌<◌, ◌≤◌, ◌≡◌, refl, ap, sym, ◌∙◌, ◌⊎◌, inl, inr, Bool, true, Option, none,
  some, List, [], ◌∷◌, ◌++◌, arith, length, take, drop, length-append,
}
use file_server.Base.Word.{is_positive}
use file_server.Sock.{Sock, sock_recv}
use file_server.Sock.Transfer.{Enough, sock_recv-all}
use file_server.Msg.{Header, Msg, header}
use file_server.Msg.Serialize.{serialize_msg_header, serialize_msg_body, deserialize_msg_header}
use file_server.Msg.Bytes.{
  header_bytes, body_bytes, read_header, read_header-bytes, length-header_bytes, take-append,
  drop-append,
}
use file_server.Msg.Order.{deserialize-serialize_header}
use file_server.Msg.Exchange.{Received, received, finish, recv_buf, recv_body, recv_msg}
use file_server.Msg.Exchange.Wire.{
  IsSendable, payload, wire, msglen_small, header-IsHeader, serialize-IsHeader, length-body,
  finish-received,
}

-- `xs` at the front of the connection is what a read of its length gets.
abbrev Gets : List ℕ → List ℕ → ℕ → List ℕ × Sock → Type 0
Gets xs rest spare (got, s) = (got ≡ xs) × (s.incoming ≡ rest) × Enough spare s.reads

sock_recv-Gets :
    (n : ℕ) (xs rest : List ℕ) (spare : ℕ) (s : Sock)
    → length xs ≡ n
    → n < 2 ^ 31
    → s.incoming ≡ xs ++ rest
    → Enough (n + spare) s.reads
    → Gets xs rest spare (sock_recv n s)
sock_recv-Gets n xs rest spare s len small i e =
    let (got, left, _, more) =
      sock_recv-all n spare s small (rw i (omega (arith, length-append xs rest))) e in
    (
      got ∙ ap (take n) i ∙ take-append n xs rest len,
      left ∙ ap (drop n) i ∙ drop-append n xs rest len,
      more,
    )

abbrev pub Arrives : Msg → List ℕ → List ℕ → ℕ → Received × Sock → Type 0
Arrives m buf rest spare (r, s) =
    (r ≡ received m (payload buf)) × (s.incoming ≡ rest) × Enough spare s.reads

recv_buf-none :
    (want : Bool) (h : Header) (body : List ℕ) (s : Sock)
    → h.buflen ≡ 0
    → recv_buf want h body s ≡ (finish h body none, s)
unfolding recv_buf
recv_buf-none want h body s e = ground arith

recv_buf-some :
    (h : Header) (body : List ℕ) (s : Sock)
    → is_positive h.buflen ≡ true
    → length (sock_recv h.buflen s).0 ≡ h.buflen
    → recv_buf true h body s
      ≡ (finish h body (some (sock_recv h.buflen s).0), (sock_recv h.buflen s).1)
unfolding recv_buf
recv_buf-some h body s p e = ground arith

recv_body_ok :
    (want : Bool) (h : Header) (s : Sock)
    → 20 ≤ h.msglen
    → h.msglen < 2 ^ 31
    → length (sock_recv (h.msglen - 20) s).0 ≡ h.msglen - 20
    → recv_body want h s
      ≡ recv_buf want h (sock_recv (h.msglen - 20) s).0 (sock_recv (h.msglen - 20) s).1
unfolding recv_body
recv_body_ok want h s low small e = ground arith

recv_msg_ok :
    (want : Bool) (s : Sock) (h : Header)
    → length (sock_recv 20 s).0 ≡ 20
    → read_header (sock_recv 20 s).0 ≡ some h
    → recv_msg want s ≡ recv_body want (deserialize_msg_header h) (sock_recv 20 s).1
unfolding recv_msg
recv_msg_ok want s h e r = ground arith

-- The stages of `recv_msg` for a message `m` and its stream `buf`, the last stage first. There is a
-- place for the stream, or no stream.
module _ (want : Bool) (m : Msg) (buf rest : List ℕ) (spare : ℕ) (v : IsSendable m buf)
    (place : (want ≡ true) ⊎ (buf ≡ [])) where
  abbrev hd : Header
  hd = header m

  abbrev body : List ℕ
  body = body_bytes (serialize_msg_body m)

  stream-Arrives :
      (got : Option (List ℕ)) (s : Sock)
      → got ≡ payload buf
      → s.incoming ≡ rest
      → Enough spare s.reads
      → Arrives m buf rest spare (finish hd body got, s)
  stream-Arrives got s g i e = (rw g (finish-received m (payload buf) v.fields v.layout), i, e)

  wanted : (x : ℕ) (xs : List ℕ) → x ∷ xs ≡ buf → (want ≡ true) ⊎ (buf ≡ []) → want ≡ true
  wanted x xs b (inl w) = w
  wanted x xs b (inr empty) = cc (b, empty)

  recv_buf-Arrives :
      (bs : List ℕ) (s : Sock)
      → bs ≡ buf
      → s.incoming ≡ buf ++ rest
      → Enough (hd.buflen + spare) s.reads
      → Arrives m buf rest spare (recv_buf want hd body s)
  recv_buf-Arrives [] s b i e =
      let none_left : hd.buflen ≡ 0 = v.stream ∙ ap length (sym b) in
      rw (recv_buf-none want hd body s none_left) (
        stream-Arrives none s (ap payload b) (i ∙ ap (λ xs. xs ++ rest) (sym b))
          (record { positive = e.positive; many = omega (arith, e.many) }))
  recv_buf-Arrives (x ∷ xs) s b i e =
      let (got, left, more) =
        sock_recv-Gets hd.buflen buf rest spare s (sym v.stream) (omega (arith, v.stream, v.small))
          i e in
      let len : length buf ≡ suc (length xs) = ap length (sym b) in
      rw
        (
          wanted x xs b place,
          recv_buf-some hd body s (ground (arith, v.stream, v.small, len)) (rw got (sym v.stream)),
        )
        (stream-Arrives (some (sock_recv hd.buflen s).0) (sock_recv hd.buflen s).1
          (ap some (got ∙ sym b) ∙ ap payload b) left more)

  recv_body-Arrives :
      (s : Sock)
      → s.incoming ≡ body ++ (buf ++ rest)
      → Enough (hd.msglen - 20 + (hd.buflen + spare)) s.reads
      → Arrives m buf rest spare (recv_body want hd s)
  recv_body-Arrives s i e =
      let (low, small) = msglen_small m v.layout in
      let len = length-body m v.fields v.layout in
      let (got, left, more) =
        sock_recv-Gets (hd.msglen - 20) body (buf ++ rest) (hd.buflen + spare) s len (omega arith) i
          e in
      rw (recv_body_ok want hd s low small (ap length got ∙ len), got)
        (recv_buf-Arrives buf (sock_recv (hd.msglen - 20) s).1 refl left more)

  recv_msg-of_place :
      (s : Sock)
      → s.incoming ≡ wire m ++ (buf ++ rest)
      → Enough (20 + (hd.msglen - 20 + (hd.buflen + spare))) s.reads
      → Arrives m buf rest spare (recv_msg want s)
  recv_msg-of_place s i e =
      let front = serialize_msg_header hd in
      let len = length-header_bytes front in
      let (got, left, more) =
        sock_recv-Gets 20 (header_bytes front) (body ++ (buf ++ rest))
          (hd.msglen - 20 + (hd.buflen + spare)) s len (omega arith)
          (i ∙ append_assoc (header_bytes front) body (buf ++ rest)) e in
      let parsed = read_header-bytes front (serialize-IsHeader hd (header-IsHeader m v.fields)) in
      rw
        (
          recv_msg_ok want s front (ap length got ∙ len) (ap read_header got ∙ parsed),
          deserialize-serialize_header hd (header-IsHeader m v.fields),
        )
        (recv_body-Arrives (sock_recv 20 s).1 left more)

module _ (m : Msg) (buf rest : List ℕ) (spare : ℕ) (v : IsSendable m buf) where
  -- On a connection that brings a well-formed message and its stream, followed by other bytes, in
  -- whatever non-empty pieces of which there are enough, `recv_msg` returns the message and the
  -- stream and leaves the other bytes.
  pub recv_msg-Arrives :
      (s : Sock)
      → s.incoming ≡ wire m ++ (buf ++ rest)
      → Enough (20 + ((header m).msglen - 20 + ((header m).buflen + spare))) s.reads
      → Arrives m buf rest spare (recv_msg true s)
  recv_msg-Arrives = recv_msg-of_place true m buf rest spare v (inl refl)

-- The same for a message without a stream, also where the caller has no place for one.
pub recv_msg-bare :
    (want : Bool) (m : Msg) (rest : List ℕ) (spare : ℕ) (s : Sock)
    → IsSendable m []
    → s.incoming ≡ wire m ++ rest
    → Enough (20 + ((header m).msglen - 20 + ((header m).buflen + spare))) s.reads
    → Arrives m [] rest spare (recv_msg want s)
recv_msg-bare want m rest spare s v = recv_msg-of_place want m [] rest spare v (inr refl) s
