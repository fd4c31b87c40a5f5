-- ===== src/Client/Procedures/Typing.antt =====
-- file_server/src/client/client_proc.c: the bytes that are typed in for a WRITE.
use file_server.Base.{
  ℕ, ◌+◌, ◌≤◌, ◌<◌, ◌≡◌, ◌≢◌, refl, ap, sym, ◌∙◌, Bool, true, false, List, [], ◌∷◌, ◌++◌, arith,
  ◌==◌, ltb, if◌then◌else◌, length, All, length-append,
}
use mathlib.Core.List.{append_assoc, append-nil}
use file_server.Client.Procedures.{max_buf_size}

abbrev pub newline : ℕ
newline = 10

abbrev pub quote : ℕ
quote = 34

-- The bytes in the buffer at the end of the line, the refusal of the input, or a loop that has no
-- end: at the end of the input `getc` returns `EOF` for ever, which is no newline.
pub data Typed : Type 0 where
  typed : List ℕ → Typed
  refused : Typed
  endless : Typed

-- What one character does: the loops end, or go on, outside or inside of quotes.
pub data Scanned : Type 0 where
  ends : Typed → Scanned
  goes_on : Bool → List ℕ → Scanned

unfoldable pub scan_char : Bool → ℕ → List ℕ → Scanned
scan_char false c buf =
    if c == newline
    then ends (typed buf)
    else if c == quote
    then goes_on true buf
    else goes_on false buf
scan_char true c buf =
    if c == newline
    then ends refused
    else if c == quote
    then (if length buf == 0 then ends refused else goes_on false buf)
    else if ltb (length buf) max_buf_size
    then goes_on true (buf ++ (c ∷ []))
    else goes_on false buf

-- The two loops over the input, with the bytes so far. The flag is whether quotes are open.
unfoldable pub scan : Bool → List ℕ → List ℕ → Typed
unfolding scan_char
scan quoted [] buf = endless
scan quoted (c ∷ cs) buf = elim (scan_char quoted c buf) [
  | ends t ↦ t
  | goes_on quoted' buf' ↦ scan quoted' cs buf'
]

-- A character that is neither a newline nor a quote.
abbrev pub IsPlain : ℕ → Type 0
IsPlain c = (c ≢ newline) × (c ≢ quote)

scan-plain :
    (front rest buf : List ℕ)
    → All IsPlain front
    → scan false (front ++ rest) buf ≡ scan false rest buf
unfolding scan scan_char
scan-plain [] rest buf h = refl
scan-plain (c ∷ cs) rest buf h =
    let no_end : (c == newline) ≡ false = ground (arith, h.0.0) in
    let no_quote : (c == quote) ≡ false = ground (arith, h.0.1) in
    rw (no_end, no_quote, scan) (scan-plain cs rest buf h.1)

scan-quoted :
    (text rest buf : List ℕ)
    → All IsPlain text
    → length buf + length text ≤ max_buf_size
    → scan true (text ++ rest) buf ≡ scan true rest (buf ++ text)
unfolding scan scan_char
scan-quoted [] rest buf h room = ap (scan true rest) (sym (append-nil buf))
scan-quoted (c ∷ cs) rest buf h room =
    let no_end : (c == newline) ≡ false = ground (arith, h.0.0) in
    let no_quote : (c == quote) ≡ false = ground (arith, h.0.1) in
    let fits : ltb (length buf) max_buf_size ≡ true = ground arith in
    rw (no_end, no_quote, fits, scan)
      (scan-quoted cs rest (buf ++ (c ∷ [])) h.1 (omega (arith, length-append buf (c ∷ [])))
        ∙ ap (scan true rest) (append_assoc buf (c ∷ []) cs))

-- A line with a text in quotes, of at least one and at most 100,000 characters that are neither
-- newlines nor quotes, and with such characters around it, gives the text.
pub scan-text :
    (front text back rest : List ℕ)
    → All IsPlain front
    → All IsPlain text
    → All IsPlain back
    → 0 < length text
    → length text ≤ max_buf_size
    → scan false (front ++ (quote ∷ (text ++ (quote ∷ (back ++ (newline ∷ rest)))))) [] ≡ typed text
unfolding scan scan_char
scan-text front text back rest f t b p room =
    scan-plain front _ [] f
    ∙ scan-quoted text (quote ∷ (back ++ (newline ∷ rest))) [] t (omega arith)
    ∙ closes
  where
    closes : scan true (quote ∷ (back ++ (newline ∷ rest))) text ≡ typed text
    closes =
        let some_text : (length text == 0) ≡ false = ground arith in
        rw (some_text, scan) (scan-plain back (newline ∷ rest) text b)
