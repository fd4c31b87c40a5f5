-- ===== src/Client/Send/Uploads.antt =====
-- The messages that `put_proc` and `write_proc` send where every reply comes without an error.
use mathlib.Core.List.{append_assoc}
use file_server.Base.{
  ℕ, suc, ◌+◌, ◌-◌, ◌^◌, ◌≤◌, ◌<◌, ◌≡◌, refl, ap, sym, ◌∙◌, List, [], ◌∷◌, ◌++◌, arith, length,
}
use file_server.Contents.{slice}
use file_server.Sock.{Sock}
use file_server.Msg.{Datamsg, transfer, file_stripe, IsWord}
use file_server.Msg.Exchange.Wire.{IsSendable, wire, data_header-IsHeader}
use file_server.Client.Receive.{Ended, finished}
use file_server.Client.Send.{part}

-- The messages bring `remain` bytes for the file from `offset` on, without gap or overlap, each
-- with at least one byte and at most a stripe.
abbrev pub Parts : ℕ → ℕ → ℕ → ℕ → List Datamsg → Type 0
Parts op remote_fd offset remain [] = remain ≡ 0
Parts op remote_fd offset remain (d ∷ more) =
    (d ≡ part op remote_fd offset d.hd.buflen)
    × (0 < d.hd.buflen)
    × (d.hd.buflen ≤ file_stripe)
    × (d.hd.buflen ≤ remain)
    × Parts op remote_fd (offset + d.hd.buflen) (remain - d.hd.buflen) more

-- The messages on the connection, each with its bytes: `content` has the byte for the file's
-- position `base` first.
abbrev pub uploaded : (ℕ → ℕ) → ℕ → List Datamsg → List ℕ
uploaded content base [] = []
uploaded content base (d ∷ more) =
    wire (transfer d) ++ (slice content (d.offset - base) d.hd.buflen ++ uploaded content base more)

pub part-IsSendable :
    (op remote_fd offset len : ℕ) (bytes : List ℕ)
    → op < 10
    → IsWord remote_fd
    → offset < 2 ^ 31
    → length bytes ≡ len
    → len ≤ file_stripe
    → IsSendable (transfer (part op remote_fd offset len)) bytes
part-IsSendable op remote_fd offset len bytes small word off l stripe = record {
  fields = record {
    hd = data_header-IsHeader op len (omega arith) (omega arith);
    sfilefd = word;
    offset = omega arith;
    reqlen = omega arith;
  };
  layout = (refl, refl);
  stream = sym l;
  small = omega arith;
}

-- The loop sends the parts, gets the replies, and ends at its test.
abbrev pub Uploads : ℕ → ℕ → (ℕ → ℕ) → ℕ → ℕ → ℕ → List ℕ → ℕ → Sock → Ended × Sock → Type 0
Uploads op remote_fd content base offset remain rest n s (e, s') =
    (ds : List Datamsg) × (e ≡ finished)
    × Parts op remote_fd offset remain ds
    × (length ds ≡ n)
    × (s'.outgoing ≡ s.outgoing ++ uploaded content base ds)
    × (s'.incoming ≡ rest)

-- One part more in front.
pub Uploads-cons :
    (op remote_fd : ℕ) (content : ℕ → ℕ) (base offset remain len n : ℕ) (rest : List ℕ)
    (s s1 : Sock) (r : Ended × Sock)
    → 0 < len
    → len ≤ file_stripe
    → len ≤ remain
    → s1.outgoing
      ≡ s.outgoing
        ++ (wire (transfer (part op remote_fd offset len)) ++ slice content (offset - base) len)
    → Uploads op remote_fd content base (offset + len) (remain - len) rest n s1 r
    → Uploads op remote_fd content base offset remain rest (suc n) s r
Uploads-cons op remote_fd content base offset remain len n rest s s1 r p stripe le out
      (ds, e, parts, l, out', i) =
    let d = part op remote_fd offset len in
    let bytes = slice content (offset - base) len in
    (
      d ∷ ds,
      e,
      (refl, p, stripe, le, parts),
      ap suc l,
      out'
          ∙ ap (λ xs. xs ++ uploaded content base ds) out
          ∙ append_assoc s.outgoing (wire (transfer d) ++ bytes) (uploaded content base ds)
          ∙ ap (λ xs. s.outgoing ++ xs)
              (append_assoc (wire (transfer d)) bytes (uploaded content base ds)),
      i,
    )
