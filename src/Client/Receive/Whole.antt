-- ===== src/Client/Receive/Whole.antt =====
-- The whole file of a GET, and the whole range of a READ, whatever order the replies come in.
use mathlib.Core.List.{Permᴰ}
use file_server.Base.{
  ℕ, suc, ◌+◌, ◌-◌, ◌^◌, ◌≤◌, ◌<◌, ◌≡◌, refl, ap, sym, ◌∙◌, List, [], ◌∷◌, ◌++◌, arith, length,
  length-append, All, if◌then◌else◌, ltb,
}
use file_server.Base.Reorder.{Perm-any, Perm-All}
use file_server.Contents.{slice, within}
use file_server.Sock.{Sock}
use file_server.Sock.Transfer.{Enough}
use file_server.Msg.{transfer}
use file_server.Msg.Exchange.Wire.{wire, length-wire, msglen_small}
use file_server.Worker.{Aio}
use file_server.Worker.Transfers.Stripes.{Tiles}
use file_server.Worker.Transfers.Order.{covers, Tiles-total, Tiles-covers, Perm-total}
use file_server.Client.Fileio.{AioCalls}
use file_server.Client.{Answer}
use file_server.Client.Receive.{
  finished, Stepped, get_round, read_round, read_buf_size, receive_loop,
}
use file_server.Client.Receive.Chunks.{IsAnswer, sent_all, cost, Places, Fills, receive_loop-Fills}
use file_server.Client.Receive.Places.{
  Serves, Always, InBuffer, get_round-Places, read_round-Places,
}

All-Always : (xs : List Aio) → All Always xs
All-Always [] = tt
All-Always (a ∷ more) = (tt, All-Always more)

Tiles-InBuffer :
    (base offset remain : ℕ) (xs : List Aio)
    → Tiles offset remain xs
    → base ≤ offset
    → offset - base + remain ≤ read_buf_size
    → All (InBuffer base) xs
Tiles-InBuffer base offset remain [] t le fits = tt
Tiles-InBuffer base offset remain (a ∷ more) (at, p, stripe, le', _, _, tiles) le fits = (
  (omega arith, omega arith),
  Tiles-InBuffer base (offset + a.len) (remain - a.len) more tiles (omega arith) (omega arith),
)

module _ (content : ℕ → ℕ) where
  length-sent_all : (xs : List Aio) → All IsAnswer xs → length xs ≤ length (sent_all content xs)
  length-sent_all [] v = omega arith
  length-sent_all (a ∷ more) v = omega (
    arith,
    length-append (wire (transfer a.answer))
        (slice content a.offset a.len ++ sent_all content more),
    length-append (slice content a.offset a.len) (sent_all content more),
    length-wire (transfer a.answer) v.0.fields v.0.layout,
    msglen_small (transfer a.answer) v.0.layout,
    length-sent_all more v.1,
  )

  -- The loop on replies whose transfers tile a range, in whatever order they come.
  loop-Fills :
      (base : ℕ) (round : ℕ → ℕ → Answer → (ℕ → ℕ) → Stepped) (Fits : Aio → Type 0)
      (offset remain : ℕ) (xs ys : List Aio) (old : ℕ → ℕ) (rest : List ℕ) (spare : ℕ) (s : Sock)
      → Places content base round Fits
      → Permᴰ xs ys
      → Tiles offset remain xs
      → All IsAnswer xs
      → All Fits xs
      → remain < 2 ^ 31
      → s.incoming ≡ sent_all content ys ++ rest
      → Enough (cost ys spare) s.reads
      → Fills content base ys old rest spare
          (receive_loop round (suc (length s.incoming)) 0 remain old s)
  loop-Fills base round Fits offset remain xs ys old rest spare s places order tiles v f small i e =
      let v' = Perm-All IsAnswer order v in
      receive_loop-Fills content base round Fits ys (suc (length s.incoming)) 0 remain old rest
        spare s places v' (Perm-All Fits order f)
        (sym (Perm-total order) ∙ Tiles-total offset remain xs tiles) small
        (omega
          (arith, ap length i, length-append (sent_all content ys) rest, length-sent_all ys v'))
        i e

  covered :
      (offset remain : ℕ) (xs ys : List Aio) (q : ℕ)
      → Permᴰ xs ys
      → Tiles offset remain xs
      → covers ys q ≡ within offset remain q
  covered offset remain xs ys q order tiles =
      sym (Perm-any (λ a. within a.offset a.len q) order) ∙ Tiles-covers offset remain xs q tiles

  pub get_receives :
      (calls : ℕ → AioCalls) (n : ℕ) (xs ys : List Aio) (old : ℕ → ℕ) (rest : List ℕ) (spare : ℕ)
      (s : Sock) (q : ℕ)
      → Serves calls
      → Permᴰ xs ys
      → Tiles 0 n xs
      → All IsAnswer xs
      → n < 2 ^ 31
      → s.incoming ≡ sent_all content ys ++ rest
      → Enough (cost ys spare) s.reads
      → let (e, file, s') = receive_loop (get_round calls) (suc (length s.incoming)) 0 n old s in
        (e ≡ finished)
        × (file q ≡ (if ltb q n then content q else old q))
        × (s'.incoming ≡ rest)
        × Enough spare s'.reads
  get_receives calls n xs ys old rest spare s q serves order tiles v small i e =
      let (done, filled, left, more) =
        loop-Fills 0 (get_round calls) Always 0 n xs ys old rest spare s
          (get_round-Places content calls serves) order tiles v (All-Always xs) small i e in
      let inside : covers ys (0 + q) ≡ ltb q n =
        covered 0 n xs ys (0 + q) order tiles ∙ ground arith in
      (
        done,
        filled q ∙ rw inside (ap (λ p. if ltb q n then content p else old q) (omega arith)),
        left,
        more,
      )

  pub read_receives :
      (fileoffset remain : ℕ) (xs ys : List Aio) (old : ℕ → ℕ) (rest : List ℕ) (spare : ℕ)
      (s : Sock) (q : ℕ)
      → Permᴰ xs ys
      → Tiles fileoffset remain xs
      → All IsAnswer xs
      → remain ≤ read_buf_size
      → s.incoming ≡ sent_all content ys ++ rest
      → Enough (cost ys spare) s.reads
      → let (e, buf, s') =
          receive_loop (read_round fileoffset) (suc (length s.incoming)) 0 remain old s in
        (e ≡ finished)
        × (buf q ≡ (if ltb q remain then content (fileoffset + q) else old q))
        × (s'.incoming ≡ rest)
        × Enough spare s'.reads
  read_receives fileoffset remain xs ys old rest spare s q order tiles v fits i e =
      let (done, filled, left, more) =
        loop-Fills fileoffset (read_round fileoffset) (InBuffer fileoffset) fileoffset remain xs ys
          old rest spare s (read_round-Places content fileoffset) order tiles v
          (Tiles-InBuffer fileoffset fileoffset remain xs tiles (omega arith) (omega arith))
          (omega arith) i e in
      let inside : covers ys (fileoffset + q) ≡ ltb q remain =
        covered fileoffset remain xs ys (fileoffset + q) order tiles ∙ ground arith in
      (done, filled q ∙ rw inside refl, left, more)
