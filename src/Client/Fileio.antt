-- ===== src/Client/Fileio.antt =====
-- file_server/src/client/fileio.c: `read_file` and `write_file`, which move a range of a local file
-- by several asynchronous transfers at once.
pub mod Moves
use file_server.Base.{
  ℕ, zero, suc, ◌+◌, ◌-◌, Bool, true, false, not, ◌&&◌, ◌||◌, List, [], ◌∷◌, ◌==◌, ltb,
  if◌then◌else◌, take, drop, length,
}
use file_server.Base.Word.{add_word, sub_word, div_int, is_positive, is_negative, lt_int}
use file_server.Contents.{slice, store}

-- `AIO_STRIPE`, 128 KB, and `MAX_AIO_SUBMIT`
abbrev pub aio_stripe : ℕ
aio_stripe = 131_072

abbrev pub max_aio_submit : ℕ
max_aio_submit = 16

-- `(size + AIO_STRIPE - 1)/AIO_STRIPE` on `int`s
abbrev pub num_iocb : ℕ → ℕ
num_iocb size = div_int (sub_word (add_word size aio_stripe) 1) aio_stripe

-- One `iocb`: `len` bytes between the buffer from `at` on and the file from `offset` on.
pub record Piece : Type 0 where
  pub at : ℕ
  pub offset : ℕ
  pub len : ℕ

-- The loop over the `iocb`s, for `n` more of them. The length is compared as a `size_t`.
unfoldable pub pieces : ℕ → ℕ → ℕ → ℕ → List Piece
pieces zero at offset remain = []
pieces (suc n) at offset remain =
    record { at = at; offset = offset; len = if ltb aio_stripe remain then aio_stripe else remain }
    ∷ pieces n (at + aio_stripe) (add_word offset aio_stripe) (sub_word remain aio_stripe)

-- What the kernel answers during one call: whether `io_setup` returns 0, and, of `num` transfers, how
-- many `io_submit` says it took and how many the `k`-th `io_getevents` reports.
pub record AioCalls : Type 0 where
  pub setup : Bool
  pub submitted : ℕ → ℕ
  pub events : ℕ → ℕ → ℕ

-- How a call ends: an `assert` that fails, the value -1, or the value 0.
pub data FileEnd : Type 0 where
  aborted : FileEnd
  failed : FileEnd
  done : FileEnd

-- `while(1)` from its `k`-th round on, for `n` rounds more, after which `cnt` is 3.
unfoldable pub wait_events : ℕ → (ℕ → ℕ) → ℕ → ℕ → FileEnd
wait_events num events zero k = failed
wait_events num events (suc n) k =
    let later : FileEnd = wait_events num events n (k + 1) in
    if events k == num then done else later

-- The asserts, and the calls up to the submission.
unfoldable pub submits_all : AioCalls → ℕ → FileEnd
unfolding wait_events
submits_all calls size =
    let num : ℕ = num_iocb size in
    if not (lt_int num max_aio_submit && is_positive num)
    then aborted
    else if not calls.setup
    then failed
    else if not (calls.submitted num == num)
    then failed
    else wait_events num (calls.events num) 3 0

-- The transfers that the kernel took: none where it did not come to `io_submit`.
unfoldable pub taken_pieces : AioCalls → ℕ → ℕ → List Piece
unfolding pieces
taken_pieces calls size offset =
    let num : ℕ = num_iocb size in
    if not (lt_int num max_aio_submit && is_positive num)
    then []
    else if not calls.setup
    then []
    else take (if is_negative (calls.submitted num) then 0 else calls.submitted num)
        (pieces num 0 offset size)

-- What the transfers do, in the order of their submission: to the file, and to the buffer.
abbrev pub write_pieces : List Piece → List ℕ → (ℕ → ℕ) → ℕ → ℕ
write_pieces [] buf file = file
write_pieces (p ∷ ps) buf file =
    write_pieces ps buf (store p.offset (take p.len (drop p.at buf)) file)

abbrev pub read_pieces : List Piece → (ℕ → ℕ) → (ℕ → ℕ) → ℕ → ℕ
read_pieces [] file buf = buf
read_pieces (p ∷ ps) file buf = read_pieces ps file (store p.at (slice file p.offset p.len) buf)

-- `write_file`: its end and the file.
unfoldable pub write_file : AioCalls → List ℕ → ℕ → ℕ → (ℕ → ℕ) → FileEnd × (ℕ → ℕ)
unfolding submits_all taken_pieces
write_file calls buf size offset file =
    (submits_all calls size, write_pieces (taken_pieces calls size offset) buf file)

-- `read_file`: its end and the buffer.
unfoldable pub read_file : AioCalls → (ℕ → ℕ) → ℕ → ℕ → (ℕ → ℕ) → FileEnd × (ℕ → ℕ)
unfolding submits_all taken_pieces
read_file calls file size offset buf =
    (submits_all calls size, read_pieces (taken_pieces calls size offset) file buf)
