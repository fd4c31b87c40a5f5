-- ===== src/Client/Receive/Chunks.antt =====
-- What the loops of `get_proc` and `read_proc` make of the replies to a request.
use mathlib.Core.List.{append_assoc}
use file_server.Base.{
  ℕ, zero, suc, ◌+◌, ◌-◌, ◌^◌, ◌≤◌, ◌<◌, ◌≡◌, refl, ap, sym, ◌∙◌, true, false, some, List, [], ◌∷◌,
  ◌++◌, arith, length, All, if◌then◌else◌,
}
use file_server.Base.Word.{is_positive}
use file_server.Base.Reorder.{if_or}
use file_server.Contents.{slice, within, length-slice}
use file_server.Sock.{Sock}
use file_server.Sock.Transfer.{Enough}
use file_server.Msg.{transfer, err_none, file_stripe, IsDatamsg}
use file_server.Msg.Exchange.{recv_msg}
use file_server.Msg.Exchange.Wire.{HasLayout, IsSendable, payload, wire}
use file_server.Msg.Exchange.Recv.{recv_msg-Arrives}
use file_server.Worker.{Aio}
use file_server.Worker.Transfers.Order.{total, covers}
use file_server.Client.{Answer, answer, got_of}
use file_server.Client.Receive.{Ended, finished, Stepped, again, receive_loop}

-- The reply of a finished transfer: no error, and the range of the transfer.
pub record IsAnswer (a : Aio) : Type 0 where
  pub fields : IsDatamsg a.answer
  pub layout : HasLayout (transfer a.answer)
  pub err : a.answer.hd.err ≡ err_none
  pub offset : a.answer.offset ≡ a.offset
  pub buflen : a.answer.hd.buflen ≡ a.len
  pub positive : 0 < a.len
  pub stripe : a.len ≤ file_stripe
  pub fits : a.offset + a.len < 2 ^ 31

-- The replies on the connection, each with its part of the file behind it.
abbrev pub sent_all : (ℕ → ℕ) → List Aio → List ℕ
sent_all content [] = []
sent_all content (a ∷ more) =
    wire (transfer a.answer) ++ (slice content a.offset a.len ++ sent_all content more)

-- As many calls of `read` as their bytes, and `spare` more.
abbrev pub cost : List Aio → ℕ → ℕ
cost [] spare = spare
cost (a ∷ more) spare = 20 + (a.answer.hd.msglen - 20 + (a.answer.hd.buflen + cost more spare))

module _ (content : ℕ → ℕ) where
  pub IsAnswer-IsSendable :
      (a : Aio) → IsAnswer a → IsSendable (transfer a.answer) (slice content a.offset a.len)
  IsAnswer-IsSendable a v = record {
    fields = v.fields;
    layout = v.layout;
    stream = v.buflen ∙ sym (length-slice content a.offset a.len);
    small = omega (arith, length-slice content a.offset a.len, v.stripe);
  }

  -- The reply as the client has it.
  abbrev pub reply_of : Aio → Answer
  reply_of a = record {
    err = a.answer.hd.err;
    buflen = a.answer.hd.buflen;
    first = some a.answer.sfilefd;
    second = some a.answer.offset;
    stream = payload (slice content a.offset a.len);
  }

  -- The byte at `q` of the destination, which is byte `base + q` of the file, after one reply.
  abbrev pub Placed : ℕ → Aio → (ℕ → ℕ) → (ℕ → ℕ) → Type 0
  Placed base a b b' =
      (q : ℕ) → b' q ≡ (if within a.offset a.len (base + q) then content (base + q) else b q)

  -- A round that puts a reply's bytes where they belong.
  abbrev pub Places : ℕ → (ℕ → ℕ → Answer → (ℕ → ℕ) → Stepped) → (Aio → Type 0) → Type 0
  Places base round Fits =
      (k remain : ℕ) (a : Aio) (b : ℕ → ℕ)
      → IsAnswer a
      → Fits a
      → a.len ≤ remain
      → remain < 2 ^ 31
      → (b' : ℕ → ℕ) × (round k remain (reply_of a) b ≡ again (remain - a.len) b')
        × Placed base a b b'

  abbrev pub Fills : ℕ → List Aio → (ℕ → ℕ) → List ℕ → ℕ → Ended × (ℕ → ℕ) × Sock → Type 0
  Fills base xs b rest spare r =
      (r.0 ≡ finished)
      × ((q : ℕ) → r.1 q ≡ (if covers xs (base + q) then content (base + q) else b q))
      × (r.2.incoming ≡ rest)
      × Enough spare r.2.reads

  arrived :
      (a : Aio) (more : List Aio) (rest : List ℕ) (spare : ℕ) (s : Sock)
      → IsAnswer a
      → s.incoming ≡ sent_all content (a ∷ more) ++ rest
      → Enough (cost (a ∷ more) spare) s.reads
      → let (r, s') = recv_msg true s in
        (got_of r ≡ answer (reply_of a))
        × (s'.incoming ≡ sent_all content more ++ rest)
        × Enough (cost more spare) s'.reads
  unfolding got_of
  arrived a more rest spare s v i e =
      let buf = slice content a.offset a.len in
      let (r, left, calls) =
        recv_msg-Arrives (transfer a.answer) buf (sent_all content more ++ rest) (cost more spare)
          (IsAnswer-IsSendable a v) s
          (i
            ∙ append_assoc (wire (transfer a.answer)) (buf ++ sent_all content more) rest
            ∙ ap (λ xs. wire (transfer a.answer) ++ xs)
                (append_assoc buf (sent_all content more) rest))
          e in
      (rw r refl, left, calls)

  pub receive_loop-Fills :
      (base : ℕ) (round : ℕ → ℕ → Answer → (ℕ → ℕ) → Stepped) (Fits : Aio → Type 0) (xs : List Aio)
      (fuel k remain : ℕ) (b : ℕ → ℕ) (rest : List ℕ) (spare : ℕ) (s : Sock)
      → Places base round Fits
      → All IsAnswer xs
      → All Fits xs
      → total xs ≡ remain
      → remain < 2 ^ 31
      → length xs < fuel
      → s.incoming ≡ sent_all content xs ++ rest
      → Enough (cost xs spare) s.reads
      → Fills base xs b rest spare (receive_loop round fuel k remain b s)
  unfolding receive_loop
  receive_loop-Fills base round Fits xs zero k remain b rest spare s places v f t small fuel i e =
      absurd (omega arith)
  receive_loop-Fills base round Fits [] (suc n) k remain b rest spare s places v f t small fuel i
        e =
      let none_left : is_positive remain ≡ false = ground arith in
      rw none_left (refl, λ q. refl, i, e)
  receive_loop-Fills base round Fits (a ∷ more) (suc n) k remain b rest spare s places v f t small
        fuel i e =
      let (got, left, calls) = arrived a more rest spare s v.0 i e in
      let (b', stepped, placed) = places k remain a b v.0 f.0 (omega arith) small in
      let some_left : is_positive remain ≡ true = ground (arith, v.0.positive) in
      let (done, filled, i', e') =
        receive_loop-Fills base round Fits more n (k + 1) (remain - a.len) b' rest spare
          (recv_msg true s).1 places v.1 f.1 (omega arith) (omega arith) (omega arith) left calls in
      rw (some_left, got, stepped)
        (done, λ q. filled q ∙ if_or _ (covers more (base + q)) _ (b q) _ (placed q), i', e')
