-- ===== src/System/Put.antt =====
-- A PUT on both sides: what the client sends, what the server receives, its transfers in whatever
-- order they are carried out, and the server's file.
use mathlib.Core.List.{Permᴰ, append_assoc}
use file_server.Base.{
  ℕ, ◌+◌, ◌-◌, ◌^◌, ◌≤◌, ◌<◌, ◌≡◌, refl, ap, ap₂, subst, sym, ◌∙◌, true, false, not, ◌&&◌, ◌==◌,
  List, [], ◌∷◌, ◌++◌, Bool, Bool-cases, arith, All, if◌then◌else◌, length, map, take, ◌⊎◌, inl,
  inr,
}
use file_server.Base.Reorder.{if_or, any, Perm-any, Perm-All}
use file_server.Contents.{slice, store, within, length-slice, slice-copied, copied}
use file_server.Sock.{Sock}
use file_server.Sock.Transfer.{Enough, take_all}
use file_server.Msg.{Datamsg, transfer, IsWord}
use file_server.Msg.Exchange.{Received, received, recv_msg}
use file_server.Msg.Exchange.Wire.{IsSendable, wire, payload}
use file_server.Msg.Exchange.Recv.{recv_msg-Arrives}
use file_server.Client.Send.Uploads.{Parts, uploaded, part-IsSendable}
use file_server.Worker.PutRun.{put_transfer}
use file_server.System.{recv_all, Incoming, Store, stores, written}

-- What the server has of a part: `content` has the byte for the file's position `base` first.
abbrev pub incoming_of : (ℕ → ℕ) → ℕ → Datamsg → Incoming
incoming_of content base d = record {
  message = d;
  stream = slice content (d.offset - base) d.hd.buflen;
}

abbrev pub received_part : Incoming → Received
received_part x = received (transfer x.message) (payload x.stream)

abbrev pub part_cost : List Datamsg → ℕ → ℕ
part_cost [] spare = spare
part_cost (d ∷ more) spare = 20 + (d.hd.msglen - 20 + (d.hd.buflen + part_cost more spare))

pub recv_all-Parts :
    (content : ℕ → ℕ) (base op fd offset remain : ℕ) (ds : List Datamsg) (rest : List ℕ) (spare : ℕ)
    (s : Sock)
    → op < 10
    → IsWord fd
    → offset + remain < 2 ^ 31
    → Parts op fd offset remain ds
    → s.incoming ≡ uploaded content base ds ++ rest
    → Enough (part_cost ds spare) s.reads
    → ((recv_all (length ds) s).0 ≡ map (λ d. received_part (incoming_of content base d)) ds)
      × ((recv_all (length ds) s).1.incoming ≡ rest)
unfolding recv_all
recv_all-Parts content base op fd offset remain [] rest spare s small word fits parts i e =
    (refl, i)
recv_all-Parts content base op fd offset remain (d ∷ more) rest spare s small word fits
      (same, p, stripe, le, parts) i e =
    let bytes = slice content (d.offset - base) d.hd.buflen in
    let sendable : IsSendable (transfer d) bytes =
      subst (λ x. IsSendable (transfer x) bytes) (sym same)
        (part-IsSendable op fd offset d.hd.buflen bytes small word (omega arith)
          (length-slice content (d.offset - base) d.hd.buflen) stripe) in
    let (r, left, calls) =
      recv_msg-Arrives (transfer d) bytes (uploaded content base more ++ rest)
        (part_cost more spare) sendable s
        (i
          ∙ append_assoc (wire (transfer d)) (bytes ++ uploaded content base more) rest
          ∙ ap (λ xs. wire (transfer d) ++ xs)
              (append_assoc bytes (uploaded content base more) rest))
        e in
    let (rs, end) =
      recv_all-Parts content base op fd (offset + d.hd.buflen) (remain - d.hd.buflen) more rest
        spare (recv_msg true s).1 small word (omega arith) parts left calls in
    (ap₂ (λ x xs. x ∷ xs) r rs, end)

-- The write of a part, with the part's bytes.
abbrev pub store_of : ℕ → (ℕ → ℕ) → ℕ → Datamsg → Store
store_of fd content base d = record {
  transfer = put_transfer fd d;
  stream = slice content (d.offset - base) d.hd.buflen;
}

pub stores-Parts :
    (fd : ℕ) (content : ℕ → ℕ) (base : ℕ) (ds : List Datamsg)
    → stores (map (put_transfer fd) ds) (map (λ d. slice content (d.offset - base) d.hd.buflen) ds)
      ≡ map (store_of fd content base) ds
stores-Parts fd content base [] = refl
stores-Parts fd content base (d ∷ ds) =
    ap (λ xs. store_of fd content base d ∷ xs) (stores-Parts fd content base ds)

-- One of them writes the byte at `q`.
abbrev reaches : List Store → ℕ → Bool
reaches xs q = any (λ x. within x.transfer.offset x.transfer.len q) xs

-- A write to `fd` of the part of `content` that belongs where it is written.
record IsPart (fd : ℕ) (content : ℕ → ℕ) (base : ℕ) (x : Store) : Type 0 where
  stream : x.stream ≡ slice content (x.transfer.offset - base) x.transfer.len
  base_le : base ≤ x.transfer.offset
  writes : x.transfer.reads ≡ false
  to : x.transfer.fd ≡ fd

write_part :
    (fd : ℕ) (content : ℕ → ℕ) (base : ℕ) (x : Store) (file : ℕ → ℕ) (q : ℕ)
    → IsPart fd content base x
    → store x.transfer.offset (take x.transfer.len x.stream) file q
      ≡ (if within x.transfer.offset x.transfer.len q then content (q - base) else file q)
write_part fd content base x file q v =
    let off = x.transfer.offset in
    let n = x.transfer.len in
    let bytes = slice content (off - base) n in
    let le = v.base_le in
    ap (λ xs. store off (take n xs) file q) v.stream
    ∙ ap (λ xs. store off xs file q)
        (take_all n bytes (omega (arith, length-slice content (off - base) n)))
    ∙ slice-copied content (off - base) off n file q
    ∙ by_place (Bool-cases (within off n q))
  where
    by_place :
        ((within x.transfer.offset x.transfer.len q ≡ true)
          ⊎ (within x.transfer.offset x.transfer.len q ≡ false))
        → copied content (x.transfer.offset - base) x.transfer.offset x.transfer.len file q
          ≡ (if within x.transfer.offset x.transfer.len q then content (q - base) else file q)
    by_place (inl inside) = rw inside (ap content (ground (arith, v.base_le)))
    by_place (inr outside) = rw outside refl

written-reaches :
    (fd : ℕ) (content : ℕ → ℕ) (base : ℕ) (xs : List Store) (file : ℕ → ℕ) (q : ℕ)
    → All (IsPart fd content base) xs
    → written fd xs file q ≡ (if reaches xs q then content (q - base) else file q)
unfolding written
written-reaches fd content base [] file q h = refl
written-reaches fd content base (x ∷ more) file q h =
    let here : (not x.transfer.reads && x.transfer.fd == fd) ≡ true =
      ground (arith, h.0.writes, h.0.to) in
    rw here (
      written-reaches fd content base more _ q h.1
      ∙ if_or _ (reaches more q) _ (file q) _ (write_part fd content base x file q h.0))

Parts-reaches :
    (store_fd : ℕ) (content : ℕ → ℕ) (base op fd offset remain : ℕ) (ds : List Datamsg) (q : ℕ)
    → Parts op fd offset remain ds
    → reaches (map (store_of store_fd content base) ds) q ≡ within offset remain q
unfolding put_transfer
Parts-reaches store_fd content base op fd offset remain [] q h = ground arith
Parts-reaches store_fd content base op fd offset remain (d ∷ more) q (same, p, stripe, le, parts) =
    let at : d.offset ≡ offset = ap (λ x. x.offset) same in
    ground (
      arith,
      Parts-reaches store_fd content base op fd (offset + d.hd.buflen) (remain - d.hd.buflen) more q
          parts,
    )

Parts-IsPart :
    (store_fd : ℕ) (content : ℕ → ℕ) (base op fd offset remain : ℕ) (ds : List Datamsg)
    → base ≤ offset
    → Parts op fd offset remain ds
    → All (IsPart store_fd content base) (map (store_of store_fd content base) ds)
unfolding put_transfer
Parts-IsPart store_fd content base op fd offset remain [] le h = tt
Parts-IsPart store_fd content base op fd offset remain (d ∷ more) le
      (same, p, stripe, within_it, parts) =
    let at : d.offset ≡ offset = ap (λ x. x.offset) same in
    (
      record { stream = refl; base_le = omega arith; writes = refl; to = refl },
      Parts-IsPart store_fd content base op fd (offset + d.hd.buflen) (remain - d.hd.buflen) more
          (omega arith) parts,
    )

-- The writes of the parts of a range of `content`, in whatever order they are carried out, give the
-- range and leave the rest of the file.
pub written-Parts :
    (store_fd : ℕ) (content : ℕ → ℕ) (base op fd offset remain : ℕ) (ds : List Datamsg)
    (xs : List Store) (file : ℕ → ℕ) (q : ℕ)
    → base ≤ offset
    → Parts op fd offset remain ds
    → Permᴰ (map (store_of store_fd content base) ds) xs
    → written store_fd xs file q ≡ (if within offset remain q then content (q - base) else file q)
written-Parts store_fd content base op fd offset remain ds xs file q le parts order =
    written-reaches store_fd content base xs file q (
      Perm-All (IsPart store_fd content base) order
        (Parts-IsPart store_fd content base op fd offset remain ds le parts))
    ∙ ap (λ z. if z then content (q - base) else file q)
        (sym (Perm-any (λ x. within x.transfer.offset x.transfer.len q) order)
          ∙ Parts-reaches store_fd content base op fd offset remain ds q parts)
