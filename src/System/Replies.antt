-- ===== src/System/Replies.antt =====
-- The replies of a read transfer on the connection.
use mathlib.Core.List.{append_assoc, append-nil}
use file_server.Base.{
  ℕ, ◌+◌, ◌-◌, ◌^◌, ◌≤◌, ◌<◌, ◌≡◌, refl, ap, sym, subst, ◌∙◌, none, some, List, [], ◌∷◌, ◌++◌,
  arith, All,
}
use file_server.Contents.{slice}
use file_server.Sock.{Sock}
use file_server.Sock.Transfer.{Enough}
use file_server.Msg.{command, transfer, file_stripe, IsWord}
use file_server.Msg.Exchange.{send_msg}
use file_server.Msg.Exchange.Wire.{wire, data_header-IsHeader}
use file_server.Msg.Exchange.Send.{send_msg-wire}
use file_server.Worker.{Aio, Outcome, reply}
use file_server.Worker.Transfers.{stripe}
use file_server.Worker.Transfers.Stripes.{Tiles, IsRead}
use file_server.Client.Receive.Chunks.{IsAnswer, IsAnswer-IsSendable, sent_all}
use file_server.Worker.Commands.{sized_reply}
use file_server.Client.Procedures.Downloads.{sized_reply-IsSendable}
use file_server.Msg.Exchange.Sides.{send_msg-bare}
use file_server.System.{send_outcome, send_msg_to_client, send_replies}

-- As many calls of `write` as the replies have bytes, and `spare` more.
abbrev pub reply_cost : List Aio → ℕ → ℕ
reply_cost [] spare = spare
reply_cost (a ∷ more) spare = a.answer.hd.msglen + (a.answer.hd.buflen + reply_cost more spare)

pub send_replies-sent_all :
    (content : ℕ → ℕ) (xs : List Aio) (spare : ℕ) (s : Sock)
    → All IsAnswer xs
    → Enough (reply_cost xs spare) s.writes
    → (send_replies content xs s).outgoing ≡ s.outgoing ++ sent_all content xs
unfolding send_replies send_msg_to_client
send_replies-sent_all content [] spare s v e = sym (append-nil s.outgoing)
send_replies-sent_all content (a ∷ more) spare s v e =
    let bytes = slice content a.offset a.len in
    let (_, _, out, left) =
      send_msg-wire (transfer a.answer) bytes (reply_cost more spare) s
        (IsAnswer-IsSendable content a v.0) e in
    send_replies-sent_all content more spare (send_msg (transfer a.answer) (some bytes) s).2 v.1
      left
    ∙ ap (λ xs. xs ++ sent_all content more) out
    ∙ append_assoc s.outgoing (wire (transfer a.answer) ++ bytes) (sent_all content more)
    ∙ ap (λ xs. s.outgoing ++ xs)
        (append_assoc (wire (transfer a.answer)) bytes (sent_all content more))

stripe-IsAnswer :
    (op sfilefd fd offset len : ℕ)
    → IsWord op
    → IsWord sfilefd
    → 0 < len
    → len ≤ file_stripe
    → offset + len < 2 ^ 31
    → IsAnswer (stripe op sfilefd fd offset len)
stripe-IsAnswer op sfilefd fd offset len op_word word p le fits = record {
  fields = record {
    hd = data_header-IsHeader op len op_word (omega arith);
    sfilefd = word;
    offset = omega arith;
    reqlen = omega arith;
  };
  layout = (refl, refl);
  err = refl;
  offset = refl;
  buflen = refl;
  positive = p;
  stripe = le;
  fits = fits;
}

-- The transfers of a handler have replies that the client understands.
pub IsAnswer-of_IsRead :
    (op sfilefd fd offset remain : ℕ) (ts : List Aio)
    → IsWord op
    → IsWord sfilefd
    → offset + remain < 2 ^ 31
    → Tiles offset remain ts
    → All (IsRead op sfilefd fd) ts
    → All IsAnswer ts
IsAnswer-of_IsRead op sfilefd fd offset remain [] op_word word fits t r = tt
IsAnswer-of_IsRead op sfilefd fd offset remain (a ∷ more) op_word word fits
      (at, p, le, within, _, _, tiles) r =
    (
      subst IsAnswer (sym r.0)
          (stripe-IsAnswer op sfilefd fd a.offset a.len op_word word p le (omega arith)),
      IsAnswer-of_IsRead op sfilefd fd (offset + a.len) (remain - a.len) more op_word word
          (omega arith) tiles r.1,
    )

-- What the server puts on an unused connection: its reply to the command, and those of the data.
pub replies_on :
    (op : ℕ) (content : ℕ → ℕ) (i n : ℕ) (o : Outcome) (ys : List Aio) (spare : ℕ) (a : Sock)
    → o ≡ reply (command (sized_reply op i n))
    → op < 2 ^ 32
    → i < 2 ^ 32
    → n < 2 ^ 32
    → All IsAnswer ys
    → a.outgoing ≡ []
    → Enough (436 + (0 + reply_cost ys spare)) a.writes
    → (send_replies content ys (send_outcome o a)).outgoing
      ≡ wire (command (sized_reply op i n)) ++ sent_all content ys
unfolding send_outcome
replies_on op content i n o ys spare a answered op_word word small v empty e =
    let c = command (sized_reply op i n) in
    let (_, _, out, left) =
      send_msg-bare c (reply_cost ys spare) a (sized_reply-IsSendable op i n op_word word small)
        e in
    ap (λ x. (send_replies content ys (send_outcome x a)).outgoing) answered
    ∙ send_replies-sent_all content ys spare (send_msg c none a).2 v left
    ∙ ap (λ xs. xs ++ sent_all content ys) (out ∙ ap (λ xs. xs ++ wire c) empty)
