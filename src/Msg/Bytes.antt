-- ===== src/Msg/Bytes.antt =====
-- The structures of msg.h as the bytes of their memory, and read back from such bytes.
use file_server.Base.{
  ℕ, ◌≡◌, refl, ap, Option, none, some, List, [], ◌∷◌, ◌++◌, arith, leb, if◌then◌else◌, length,
  take, drop, length-append,
}
use file_server.Msg.{
  Header, Commsg, Datamsg, Msg, command, transfer, header, IsWord, IsHeader, IsCommsg, IsDatamsg,
}
use file_server.Msg.Serialize.{word_bytes, word_of, with_header}

unfoldable pub header_bytes : Header → List ℕ
header_bytes h =
    word_bytes h.msglen
    ++ (word_bytes h.msgtype ++ (word_bytes h.op ++ (word_bytes h.err ++ word_bytes h.buflen)))

-- What stands behind the header.
unfoldable pub body_bytes : Msg → List ℕ
body_bytes (command c) =
    word_bytes c.sfilefd
    ++ (word_bytes c.fi.filesize
        ++ (c.fi.filename ++ (c.fi.fileowner ++ (word_bytes c.offset ++ word_bytes c.reqlen))))
body_bytes (transfer d) = word_bytes d.sfilefd ++ (word_bytes d.offset ++ word_bytes d.reqlen)

unfoldable pub msg_bytes : Msg → List ℕ
msg_bytes m = header_bytes (header m) ++ body_bytes m

infixl 5 ◌>>=◌
abbrev ◌>>=◌ : {A B : Type 0} → Option A → (A → Option B) → Option B
none >>= f = none
some a >>= f = f a

-- The word at the front.
unfoldable pub read_word : List ℕ → Option (ℕ × List ℕ)
read_word (a ∷ b ∷ c ∷ d ∷ rest) = some (word_of a b c d, rest)
read_word _ = none

-- The array of `n` bytes at the front.
unfoldable pub read_array : ℕ → List ℕ → Option (List ℕ × List ℕ)
read_array n bytes = if leb n (length bytes) then some (take n bytes, drop n bytes) else none

unfoldable pub read_header : List ℕ → Option Header
unfolding read_word
read_header bytes = do
  (msglen, b1) ← read_word bytes
  (msgtype, b2) ← read_word b1
  (op, b3) ← read_word b2
  (err, b4) ← read_word b3
  (buflen, b5) ← read_word b4
  some (record { msglen = msglen; msgtype = msgtype; op = op; err = err; buflen = buflen })

unfoldable pub read_command : Header → List ℕ → Option Msg
unfolding read_word read_array
read_command h bytes = do
  (sfilefd, b1) ← read_word bytes
  (filesize, b2) ← read_word b1
  (filename, b3) ← read_array 300 b2
  (fileowner, b4) ← read_array 100 b3
  (offset, b5) ← read_word b4
  (reqlen, b6) ← read_word b5
  some (
      command (record {
        hd = h;
        sfilefd = sfilefd;
        fi = record { filesize = filesize; filename = filename; fileowner = fileowner };
        offset = offset;
        reqlen = reqlen;
      }))

unfoldable pub read_transfer : Header → List ℕ → Option Msg
unfolding read_word
read_transfer h bytes = do
  (sfilefd, b1) ← read_word bytes
  (offset, b2) ← read_word b1
  (reqlen, b3) ← read_word b2
  some (transfer (record { hd = h; sfilefd = sfilefd; offset = offset; reqlen = reqlen }))

pub read_word-bytes :
    (w : ℕ) (rest : List ℕ) → IsWord w → read_word (word_bytes w ++ rest) ≡ some (w, rest)
unfolding read_word
read_word-bytes w rest h = ap (λ n. some (n, rest)) (omega arith)

-- the same with nothing behind the word
pub read_word-end : (w : ℕ) → IsWord w → read_word (word_bytes w) ≡ some (w, [])
unfolding read_word
read_word-end w h = ap (λ n. some (n, [])) (omega arith)

take_front : (xs ys : List ℕ) → take (length xs) (xs ++ ys) ≡ xs
take_front [] ys = refl
take_front (x ∷ xs) ys = ap (λ zs. x ∷ zs) (take_front xs ys)

drop_front : (xs ys : List ℕ) → drop (length xs) (xs ++ ys) ≡ ys
drop_front [] ys = refl
drop_front (x ∷ xs) ys = drop_front xs ys

pub take-append : (n : ℕ) (xs ys : List ℕ) → length xs ≡ n → take n (xs ++ ys) ≡ xs
take-append n xs ys e = rw (← e) (take_front xs ys)

pub drop-append : (n : ℕ) (xs ys : List ℕ) → length xs ≡ n → drop n (xs ++ ys) ≡ ys
drop-append n xs ys e = rw (← e) (drop_front xs ys)

pub read_array-append :
    (n : ℕ) (xs ys : List ℕ) → length xs ≡ n → read_array n (xs ++ ys) ≡ some (xs, ys)
unfolding read_array
read_array-append n xs ys e =
    ground (arith, length-append xs ys, take-append n xs ys e, drop-append n xs ys e)

pub read_header-bytes : (h : Header) → IsHeader h → read_header (header_bytes h) ≡ some h
unfolding read_header header_bytes
read_header-bytes h v = ground arith

pub read_command-bytes :
    (h : Header) (c : Commsg)
    → IsCommsg c
    → read_command h (body_bytes (command c)) ≡ some (with_header h (command c))
unfolding read_command body_bytes
read_command-bytes h c v =
    rw
      (
        read_array-append 300 c.fi.filename _ v.filename,
        read_array-append 100 c.fi.fileowner (word_bytes c.offset ++ word_bytes c.reqlen)
            v.fileowner,
      )
      (ground arith)

pub read_transfer-bytes :
    (h : Header) (d : Datamsg)
    → IsDatamsg d
    → read_transfer h (body_bytes (transfer d)) ≡ some (with_header h (transfer d))
unfolding read_transfer body_bytes
read_transfer-bytes h d v = ground arith

pub length-header_bytes : (h : Header) → length (header_bytes h) ≡ 20
unfolding header_bytes
length-header_bytes h = refl

pub length-body_bytes_command : (c : Commsg) → IsCommsg c → length (body_bytes (command c)) ≡ 416
unfolding body_bytes
length-body_bytes_command c v =
    omega
      (arith, length-append c.fi.filename, length-append c.fi.fileowner, v.filename, v.fileowner)

pub length-body_bytes_transfer : (d : Datamsg) → length (body_bytes (transfer d)) ≡ 12
unfolding body_bytes
length-body_bytes_transfer d = refl
