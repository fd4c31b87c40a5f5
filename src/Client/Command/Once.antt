-- ===== src/Client/Command/Once.antt =====
-- The loop over the attempts sends the command once.
use file_server.Base.{
  ℕ, zero, suc, ◌+◌, ◌≡◌, refl, subst, sym, ◌∙◌, true, false, none, [], ◌++◌, arith, ◌==◌,
}
use file_server.Base.Word.{minus_one}
use file_server.Sock.{Sock}
use file_server.Sock.Transfer.{Enough}
use file_server.Msg.{Msg, header}
use file_server.Msg.Serialize.{serialize_msg}
use file_server.Msg.Exchange.{send_msg, recv_msg}
use file_server.Msg.Exchange.Wire.{IsSendable, HasLayout, wire}
use file_server.Msg.Exchange.Send.{serialized-Fails}
use file_server.Msg.Exchange.Sides.{send_msg-bare, recv_msg-SameOut}
use file_server.Client.{Got, null, answer, fault, got_of}
use file_server.Client.Command.{Tried, gave_up, bad_pointer, judged, retry}

-- With a message that was sent before, the loop gives up and sends nothing.
retry-serialized :
    (op n : ℕ) (m : Msg) (s : Sock)
    → HasLayout m
    → ((retry op n (serialize_msg m) s).0 ≡ gave_up)
      × ((retry op n (serialize_msg m) s).1.outgoing ≡ s.outgoing)
unfolding retry
retry-serialized op zero m s lay = (refl, refl)
retry-serialized op (suc n) m s lay =
    let (ret, out) = serialized-Fails m none s lay in
    let failed : ((send_msg (serialize_msg m) none s).0 == minus_one) ≡ true =
      ground (arith, ret) in
    rw failed (refl, out)

-- One attempt: no loop, and an error for which there would be a next attempt gives up.
abbrev pub once : ℕ → Msg → Sock → Tried
once op m s = elim (got_of (recv_msg false (send_msg m none s).2).0) [
  | null ↦ gave_up
  | fault ↦ bad_pointer
  | answer x ↦ (judged op x s (gave_up, s)).0
]

-- The retry loop does not retry. For a well-formed command without a stream on a connection that
-- takes enough, with at least one attempt, and whatever arrives, the loop ends as one attempt does
-- whose error replies other than the ones with a branch of their own give up, and the command goes
-- out once and nothing else.
pub retry-once :
    (op n spare : ℕ) (m : Msg) (s : Sock)
    → IsSendable m []
    → Enough ((header m).msglen + ((header m).buflen + spare)) s.writes
    → let (t, s') = retry op (suc n) m s in (t ≡ once op m s) × (s'.outgoing ≡ s.outgoing ++ wire m)
unfolding retry
retry-once op n spare m s v e =
    let (ret, m', out, _) = send_msg-bare m spare s v e in
    let s1 = (send_msg m none s).2 in
    let sent : ((send_msg m none s).0 == minus_one) ≡ false = ground (arith, ret) in
    let (after, _) = recv_msg-SameOut false s1 in
    rw sent (
      by_reply (send_msg m none s).1 m' (got_of (recv_msg false s1).0) (recv_msg false s1).1
        (after ∙ out))
  where
    by_reply :
        (m' : Msg)
        → m' ≡ serialize_msg m
        → (g : Got) (s2 : Sock) → s2.outgoing ≡ s.outgoing ++ wire m
        → let r : Tried × Sock = elim g [
          | null ↦ (gave_up, s2)
          | fault ↦ (bad_pointer, s2)
          | answer x ↦ judged op x s2 (retry op n m' s2)
        ] in
          (r.0 ≡ elim g [
            | null ↦ gave_up
            | fault ↦ bad_pointer
            | answer x ↦ (judged op x s (gave_up, s)).0
          ])
          × (r.1.outgoing ≡ s.outgoing ++ wire m)
    by_reply m' same null s2 o = (refl, o)
    by_reply m' same fault s2 o = (refl, o)
    by_reply m' same (answer x) s2 o =
        let (again, quiet) =
          subst
            (λ mm. ((retry op n mm s2).0 ≡ gave_up) × ((retry op n mm s2).1.outgoing ≡ s2.outgoing))
            (sym same) (retry-serialized op n m s2 v.layout) in
        (ground (arith, again), ground (arith, quiet, o))
