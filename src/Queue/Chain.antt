-- ===== src/Queue/Chain.antt =====
-- The nodes of the queue as a chain of cells, each with its address and its data.
use file_server.Base.{
  ℕ, ◌≡◌, refl, sym, ◌∙◌, ap, true, false, Option, none, some, List, [], ◌∷◌, ◌++◌, ◌==◌, ==_iff,
  arith, All, Bool-cases, inl, inr, ◌⊎◌,
}
use file_server.Queue.{Node, Heap, write, free}

abbrev pub Cell : Type 0
Cell = ℕ × ℕ

abbrev pub first : List Cell → Option ℕ
first [] = none
first (c ∷ cs) = some c.0

abbrev pub last : Cell → List Cell → ℕ
last c [] = c.0
last c (c2 ∷ cs) = last c2 cs

-- Each cell is allocated, and points to the next one.
abbrev pub Chain : Heap → List Cell → Type 0
Chain h [] = Unit
Chain h (c ∷ cs) = (h c.0 ≡ some (record { next = first cs; payload = c.1 })) × Chain h cs

abbrev pub Apart : ℕ → List Cell → Type 0
Apart p cs = All (λ c. (c.0 == p) ≡ false) cs

abbrev pub Distinct : List Cell → Type 0
Distinct [] = Unit
Distinct (c ∷ cs) = Apart c.0 cs × Distinct cs

pub Chain-write :
    (h : Heap) (p : ℕ) (n : Node) (cs : List Cell)
    → Apart p cs
    → Chain h cs
    → Chain (write h p n) cs
Chain-write h p n [] a ch = tt
Chain-write h p n (c ∷ cs) a ch = (rw (a.0) (ch.0), Chain-write h p n cs a.1 ch.1)

pub Chain-free : (h : Heap) (p : ℕ) (cs : List Cell) → Apart p cs → Chain h cs → Chain (free h p) cs
Chain-free h p [] a ch = tt
Chain-free h p (c ∷ cs) a ch = (rw (a.0) (ch.0), Chain-free h p cs a.1 ch.1)

-- An address that is not allocated is not in the chain.
pub fresh-Apart : (h : Heap) (p : ℕ) (cs : List Cell) → h p ≡ none → Chain h cs → Apart p cs
fresh-Apart h p [] e ch = tt
fresh-Apart h p (c ∷ cs) e ch = (differs (Bool-cases (c.0 == p)), fresh-Apart h p cs e ch.1)
  where
    differs : ((c.0 == p) ≡ true) ⊎ ((c.0 == p) ≡ false) → (c.0 == p) ≡ false
    differs (inr f) = f
    differs (inl t) =
        let same : c.0 ≡ p = (==_iff c.0 p).0 t in absurd (cc (sym (ch.0) ∙ ap h same ∙ e))

Apart-last : (p : ℕ) (c : Cell) (cs : List Cell) → Apart p (c ∷ cs) → (p == last c cs) ≡ false
Apart-last p c [] a = ground (arith, a.0)
Apart-last p c (c2 ∷ cs) a = Apart-last p c2 cs a.1

pub Distinct-append :
    (cs : List Cell) (p d : ℕ) → Distinct cs → Apart p cs → Distinct (cs ++ ((p, d) ∷ []))
Distinct-append [] p d dis a = (tt, tt)
Distinct-append (c ∷ cs) p d dis a = (joined cs dis.0, Distinct-append cs p d dis.1 a.1)
  where
    joined : (ds : List Cell) → Apart c.0 ds → Apart c.0 (ds ++ ((p, d) ∷ []))
    joined [] h = (ground (arith, a.0), tt)
    joined (x ∷ ds) h = (h.0, joined ds h.1)

-- Linking an allocated cell behind the last one makes the chain longer.
pub link :
    (h : Heap) (c : Cell) (cs : List Cell) (p d : ℕ)
    → Chain h (c ∷ cs)
    → Distinct (c ∷ cs)
    → Apart p (c ∷ cs)
    → h p ≡ some (record { next = none; payload = d })
    → (n : Node) × (h (last c cs) ≡ some n)
      × Chain (write h (last c cs) (record n { next = some p })) ((c ∷ cs) ++ ((p, d) ∷ []))
link h c [] p d ch dis a e = (_, ch.0, (rw (same c.0) refl, (rw (differs) e, tt)))
  where
    same : (q : ℕ) → (q == q) ≡ true
    same q = ground arith

    differs : (p == c.0) ≡ false
    differs = ground (arith, a.0)
link h c (c2 ∷ cs) p d ch dis a e =
    let (n, at, chain) = link h c2 cs p d ch.1 dis.1 a.1 e in
    (n, at, (rw (Apart-last c.0 c2 cs dis.0) (ch.0), chain))
