-- ===== src/Client/Receive/Places.antt =====
-- The rounds of `get_proc` and `read_proc` put each reply's bytes where they belong, so that their
-- loops give the file, or the range that was asked for.
use file_server.Base.{
  ℕ, ◌+◌, ◌-◌, ◌^◌, ◌≤◌, ◌<◌, ◌≡◌, refl, ap, ◌∙◌, ◌⊎◌, inl, inr, true, false, List, [], ◌∷◌, arith,
  Bool-cases, if◌then◌else◌,
}
use file_server.Base.Word.{sub_word}
use file_server.Contents.{
  slice, store, within, length-slice, byte_at, byte_at-slice, copied, slice-copied,
}
use file_server.Msg.Exchange.Wire.{payload}
use file_server.Worker.{Aio}
use file_server.Client.Fileio.{AioCalls, FileEnd, done, write_file}
use file_server.Client.Fileio.Moves.{IsServed, write_file-copied}
use file_server.Client.Receive.{
  again, stream_bytes, after_write, get_round, read_round, copy_in, read_buf_size,
}
use file_server.Client.Receive.Chunks.{IsAnswer, reply_of, Places}

stream_bytes-payload : (bs : List ℕ) → stream_bytes (payload bs) ≡ bs
stream_bytes-payload [] = refl
stream_bytes-payload (b ∷ bs) = refl

after_write-done :
    (remain : ℕ) (w : FileEnd × (ℕ → ℕ)) → w.0 ≡ done → after_write remain w ≡ again remain w.1
after_write-done remain (e, f) d = rw d refl

-- `write_file` and its kernel for every round and size.
abbrev pub Serves : (ℕ → AioCalls) → Type 0
Serves calls = (k size : ℕ) → IsServed size (calls k)

abbrev pub Always : Aio → Type 0
Always a = Unit

-- The reply's bytes stay within the buffer for the range from `fileoffset` on.
abbrev pub InBuffer : ℕ → Aio → Type 0
InBuffer fileoffset a = (fileoffset ≤ a.offset) × (a.offset - fileoffset + a.len ≤ read_buf_size)

module _ (content : ℕ → ℕ) where
  get_round-write :
      (calls : ℕ → AioCalls) (k remain : ℕ) (a : Aio) (b : ℕ → ℕ)
      → IsAnswer a
      → get_round calls k remain (reply_of content a) b
        ≡ after_write
            (sub_word remain a.len)
            (write_file (calls k) (slice content a.offset a.len) a.len a.offset b)
  unfolding get_round
  get_round-write calls k remain a b v =
      rw (v.err, v.buflen, v.offset, stream_bytes-payload (slice content a.offset a.len)) refl

  get_write :
      (calls : AioCalls) (a : Aio) (b : ℕ → ℕ) (q : ℕ)
      → IsAnswer a
      → IsServed a.len calls
      → let (e, b') = write_file calls (slice content a.offset a.len) a.len a.offset b in
        (e ≡ done) × (b' q ≡ (if within a.offset a.len (0 + q) then content (0 + q) else b q))
  get_write calls a b q v served =
      let (e, there) =
        write_file-copied calls (slice content a.offset a.len) a.len a.offset b q v.positive
          (omega (arith, v.stripe)) (omega (arith, length-slice content a.offset a.len)) v.fits
          served in
      (e, there ∙ by_place (Bool-cases (within a.offset a.len (0 + q))))
    where
      by_place :
          ((within a.offset a.len (0 + q) ≡ true) ⊎ (within a.offset a.len (0 + q) ≡ false))
          → copied (byte_at (slice content a.offset a.len)) 0 a.offset a.len b q
            ≡ (if within a.offset a.len (0 + q) then content (0 + q) else b q)
      by_place (inl inside) =
          let inside' : within a.offset a.len q ≡ true = ground arith in
          rw (inside, inside')
            (byte_at-slice content a.offset a.len (0 + (q - a.offset)) (ground arith)
              ∙ ap content (ground arith))
      by_place (inr outside) =
          let outside' : within a.offset a.len q ≡ false = ground arith in
          rw (outside, outside') refl

  pub get_round-Places :
      (calls : ℕ → AioCalls) → Serves calls → Places content 0 (get_round calls) Always
  get_round-Places calls serves k remain a b v f le small =
      let bs = slice content a.offset a.len in
      let less : sub_word remain a.len ≡ remain - a.len = ground arith in
      (
        (write_file (calls k) bs a.len a.offset b).1,
        get_round-write calls k remain a b v
            ∙ after_write-done (sub_word remain a.len) (write_file (calls k) bs a.len a.offset b)
                (get_write (calls k) a b 0 v (serves k a.len)).0
            ∙ ap (λ r. again r (write_file (calls k) bs a.len a.offset b).1) less,
        λ q. (get_write (calls k) a b q v (serves k a.len)).1,
      )

  copy_in-stores :
      (remain at len : ℕ) (bytes : List ℕ) (buf : ℕ → ℕ)
      → 0 < len
      → at + len ≤ read_buf_size
      → copy_in remain at len bytes buf ≡ again (sub_word remain len) (store at bytes buf)
  unfolding copy_in
  copy_in-stores remain at len bytes buf p fits = ground arith

  read_round-copy :
      (fileoffset k remain : ℕ) (a : Aio) (b : ℕ → ℕ)
      → IsAnswer a
      → InBuffer fileoffset a
      → a.len ≤ remain
      → remain < 2 ^ 31
      → read_round fileoffset k remain (reply_of content a) b
        ≡ again (remain - a.len) (store (a.offset - fileoffset) (slice content a.offset a.len) b)
  unfolding read_round
  read_round-copy fileoffset k remain a b v f le small =
      let less : sub_word remain a.len ≡ remain - a.len = ground arith in
      let at : sub_word a.offset fileoffset ≡ a.offset - fileoffset = ground (arith, v.fits) in
      rw (v.err, v.buflen, v.offset, stream_bytes-payload (slice content a.offset a.len), at)
        (copy_in-stores remain (a.offset - fileoffset) a.len (slice content a.offset a.len) b
            v.positive f.1
          ∙ ap (λ r. again r (store (a.offset - fileoffset) (slice content a.offset a.len) b)) less)

  pub read_round-Places :
      (fileoffset : ℕ) → Places content fileoffset (read_round fileoffset) (InBuffer fileoffset)
  read_round-Places fileoffset k remain a b v f le small = (
    store (a.offset - fileoffset) (slice content a.offset a.len) b,
    read_round-copy fileoffset k remain a b v f le small,
    λ q.
        slice-copied content a.offset (a.offset - fileoffset) a.len b q
        ∙ by_place q (Bool-cases (within a.offset a.len (fileoffset + q))),
  )
    where
      by_place :
          (q : ℕ)
          → ((within a.offset a.len (fileoffset + q) ≡ true)
              ⊎ (within a.offset a.len (fileoffset + q) ≡ false))
          → copied content a.offset (a.offset - fileoffset) a.len b q
            ≡ (if within a.offset a.len (fileoffset + q) then content (fileoffset + q) else b q)
      by_place q (inl inside) =
          let inside' : within (a.offset - fileoffset) a.len q ≡ true = ground arith in
          rw (inside, inside') (ap content (ground arith))
      by_place q (inr outside) =
          let outside' : within (a.offset - fileoffset) a.len q ≡ false = ground arith in
          rw (outside, outside') refl
