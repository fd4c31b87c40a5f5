-- ===== src/Client/Fileio/Moves.antt =====
-- What `read_file` and `write_file` move, where the kernel takes the transfers and reports them.
use file_server.Base.{
  ℕ, zero, suc, ◌+◌, ◌-◌, ◌*◌, ◌^◌, ◌≤◌, ◌<◌, ◌≡◌, refl, ap, ◌∙◌, ◌⊎◌, ◌↔◌, true, false, ◌&&◌, List,
  [], ◌∷◌, arith, ◌==◌, ltb, length, take, drop,
}
use file_server.Base.Word.{add_word, sub_word, is_positive, is_negative, lt_int}
use file_server.Contents.{slice, store, byte_at, copied, copied_split, store-copied, slice-copied}
use file_server.Sock.Transfer.{take_all}
use file_server.Client.Fileio.{
  aio_stripe, max_aio_submit, num_iocb, pieces, AioCalls, done, wait_events, submits_all,
  taken_pieces, write_pieces, read_pieces, write_file, read_file,
}

-- `n` is how many `iocb`s `remain` bytes make.
abbrev Fills : ℕ → ℕ → Type 0
Fills n remain = (remain ≤ n * aio_stripe) × (n * aio_stripe < remain + aio_stripe)

-- The first of at least two pieces.
more_pieces :
    (n at off remain : ℕ)
    → Fills (suc (suc n)) remain
    → off + remain < 2 ^ 31
    → pieces (suc (suc n)) at off remain
      ≡ record { at = at; offset = off; len = aio_stripe }
        ∷ pieces (suc n) (at + aio_stripe) (off + aio_stripe) (remain - aio_stripe)
unfolding pieces
more_pieces n at off remain fills small =
    let len : ltb aio_stripe remain ≡ true = ground arith in
    let next : add_word off aio_stripe ≡ off + aio_stripe = ground arith in
    let less : sub_word remain aio_stripe ≡ remain - aio_stripe = ground arith in
    rw (len, next, less) refl

last_piece :
    (at off remain : ℕ)
    → Fills 1 remain
    → pieces 1 at off remain ≡ record { at = at; offset = off; len = remain } ∷ []
unfolding pieces
last_piece at off remain fills =
    let len : ltb aio_stripe remain ≡ false = ground arith in rw len refl

Fills-less : (n remain : ℕ) → Fills (suc (suc n)) remain → Fills (suc n) (remain - aio_stripe)
Fills-less n remain fills = (omega arith, omega arith)

write_pieces-copied :
    (n at off remain : ℕ) (buf : List ℕ) (file : ℕ → ℕ) (q : ℕ)
    → Fills (suc n) remain
    → at + remain ≤ length buf
    → off + remain < 2 ^ 31
    → write_pieces (pieces (suc n) at off remain) buf file q
      ≡ copied (byte_at buf) at off remain file q
write_pieces-copied zero at off remain buf file q fills fits small =
    rw (last_piece at off remain fills) (store-copied buf at off remain file q fits)
write_pieces-copied (suc n) at off remain buf file q fills fits small =
    rw (more_pieces n at off remain fills small) (
      write_pieces-copied n (at + aio_stripe) (off + aio_stripe) (remain - aio_stripe) buf
        (store off (take aio_stripe (drop at buf)) file) q (Fills-less n remain fills) (omega arith)
        (omega arith)
      ∙ copied_split (byte_at buf) at off aio_stripe remain file
          (store off (take aio_stripe (drop at buf)) file) q (omega arith)
          (store-copied buf at off aio_stripe file q (omega arith)))

read_pieces-copied :
    (n at off remain : ℕ) (file buf : ℕ → ℕ) (q : ℕ)
    → Fills (suc n) remain
    → off + remain < 2 ^ 31
    → read_pieces (pieces (suc n) at off remain) file buf q ≡ copied file off at remain buf q
read_pieces-copied zero at off remain file buf q fills small =
    rw (last_piece at off remain fills) (slice-copied file off at remain buf q)
read_pieces-copied (suc n) at off remain file buf q fills small =
    rw (more_pieces n at off remain fills small) (
      read_pieces-copied n (at + aio_stripe) (off + aio_stripe) (remain - aio_stripe) file
        (store at (slice file off aio_stripe) buf) q (Fills-less n remain fills) (omega arith)
      ∙ copied_split file off at aio_stripe remain buf (store at (slice file off aio_stripe) buf) q
          (omega arith) (slice-copied file off at aio_stripe buf q))

-- The kernel takes every transfer of a call, and one of the three waits reports all of them.
pub record IsServed (size : ℕ) (calls : AioCalls) : Type 0 where
  pub setup : calls.setup ≡ true
  pub submitted : calls.submitted (num_iocb size) ≡ num_iocb size
  pub reported :
      (calls.events (num_iocb size) 0 ≡ num_iocb size)
      ⊎ (calls.events (num_iocb size) 1 ≡ num_iocb size)
      ⊎ (calls.events (num_iocb size) 2 ≡ num_iocb size)

-- Of all 32-bit sizes, the asserts of `read_file` and `write_file` let exactly those from 1 byte to
-- fifteen stripes of 128 KB through.
pub asserts_bounds :
    (size : ℕ)
    → size < 2 ^ 32
    → ((lt_int (num_iocb size) max_aio_submit && is_positive (num_iocb size)) ≡ true)
      ↔ ((0 < size) × (size ≤ 15 * aio_stripe))
asserts_bounds size word = ground arith

Fills-num :
    (size : ℕ)
    → 0 < size
    → size ≤ 15 * aio_stripe
    → (n : ℕ) × (num_iocb size ≡ suc n) × Fills (suc n) size
Fills-num size p few = (num_iocb size - 1, ground arith, (ground arith, ground arith))

events_done :
    (num : ℕ) (events : ℕ → ℕ)
    → (events 0 ≡ num) ⊎ (events 1 ≡ num) ⊎ (events 2 ≡ num)
    → wait_events num events 3 0 ≡ done
unfolding wait_events
events_done num events h = ground arith

IsServed-done :
    (size : ℕ) (calls : AioCalls)
    → 0 < size
    → size ≤ 15 * aio_stripe
    → IsServed size calls
    → submits_all calls size ≡ done
unfolding submits_all
IsServed-done size calls p few served =
    let ok = (asserts_bounds size (omega arith)).1 (p, few) in
    let took : (calls.submitted (num_iocb size) == num_iocb size) ≡ true =
      ground (arith, served.submitted) in
    rw (ok, served.setup, took)
      (events_done (num_iocb size) (calls.events (num_iocb size)) served.reported)

length-pieces : (n at off remain : ℕ) → length (pieces n at off remain) ≡ n
unfolding pieces
length-pieces zero at off remain = refl
length-pieces (suc n) at off remain =
    ap suc
      (length-pieces n (at + aio_stripe) (add_word off aio_stripe) (sub_word remain aio_stripe))

IsServed-taken :
    (size offset : ℕ) (calls : AioCalls)
    → 0 < size
    → size ≤ 15 * aio_stripe
    → IsServed size calls
    → taken_pieces calls size offset ≡ pieces (num_iocb size) 0 offset size
unfolding taken_pieces
IsServed-taken size offset calls p few served =
    let ok = (asserts_bounds size (omega arith)).1 (p, few) in
    let counted : is_negative (num_iocb size) ≡ false = ground arith in
    rw (ok, served.setup, served.submitted, counted)
      (take_all (num_iocb size) (pieces (num_iocb size) 0 offset size)
        (omega (arith, length-pieces (num_iocb size) 0 offset size)))

-- For 1 to 1,966,080 bytes that are in the buffer, an end of the range below 2 GB, and a kernel
-- that takes all transfers and reports all of them in one of the three waits, `write_file` returns
-- 0, and then the file has the first `size` bytes of the buffer from `offset` on and is as before
-- everywhere else.
pub write_file-copied :
    (calls : AioCalls) (buf : List ℕ) (size offset : ℕ) (file : ℕ → ℕ) (q : ℕ)
    → 0 < size
    → size ≤ 15 * aio_stripe
    → size ≤ length buf
    → offset + size < 2 ^ 31
    → IsServed size calls
    → let (e, file') = write_file calls buf size offset file in
      (e ≡ done) × (file' q ≡ copied (byte_at buf) 0 offset size file q)
unfolding write_file
write_file-copied calls buf size offset file q p few fits small served =
    let (n, num, fills) = Fills-num size p few in
    (
      IsServed-done size calls p few served,
      ap (λ ps. write_pieces ps buf file q)
            (IsServed-taken size offset calls p few served ∙ ap (λ k. pieces k 0 offset size) num)
          ∙ write_pieces-copied n 0 offset size buf file q fills (omega arith) small,
    )

-- For 1 to 1,966,080 bytes, an end of the range below 2 GB, and a kernel that takes all transfers
-- and reports all of them in one of the three waits, `read_file` returns 0, and then the buffer has
-- the file's bytes from `offset` on as its first `size` ones, and is as before behind them.
pub read_file-copied :
    (calls : AioCalls) (file : ℕ → ℕ) (size offset : ℕ) (buf : ℕ → ℕ) (q : ℕ)
    → 0 < size
    → size ≤ 15 * aio_stripe
    → offset + size < 2 ^ 31
    → IsServed size calls
    → let (e, buf') = read_file calls file size offset buf in
      (e ≡ done) × (buf' q ≡ copied file offset 0 size buf q)
unfolding read_file
read_file-copied calls file size offset buf q p few small served =
    let (n, num, fills) = Fills-num size p few in
    (
      IsServed-done size calls p few served,
      ap (λ ps. read_pieces ps file buf q)
            (IsServed-taken size offset calls p few served ∙ ap (λ k. pieces k 0 offset size) num)
          ∙ read_pieces-copied n 0 offset size file buf q fills small,
    )
