-- ===== src/Jobs/Copies.antt =====
-- The copies of the messages that wait, one for each node of the queue.
use file_server.Base.{
  ℕ, ◌≡◌, refl, sym, ◌∙◌, ap, ◌⊎◌, inl, inr, true, false, Option, none, some, List, [], ◌∷◌, ◌++◌,
  map, ◌==◌, ==_iff, Bool-cases, arith, All,
}
use file_server.Queue.Chain.{Cell}
use file_server.Jobs.{IpcMsg, with_copy}

-- No cell of these brings that copy.
abbrev pub NoCopy : ℕ → List Cell → Type 0
NoCopy p cs = All (λ c. (c.1 == p) ≡ false) cs

abbrev pub OwnCopies : List Cell → Type 0
OwnCopies [] = Unit
OwnCopies (c ∷ cs) = NoCopy c.1 cs × OwnCopies cs

abbrev pub copied : (ℕ → Option IpcMsg) → List Cell → List (Option IpcMsg)
copied copies cs = map (λ c. copies c.1) cs

pub copied-with :
    (copies : ℕ → Option IpcMsg) (p : ℕ) (m : Option IpcMsg) (cs : List Cell)
    → NoCopy p cs
    → copied (with_copy copies p m) cs ≡ copied copies cs
copied-with copies p m [] a = refl
copied-with copies p m (c ∷ cs) a = rw (a.0, copied-with copies p m cs a.1) refl

pub NoCopy-fresh :
    (copies : ℕ → Option IpcMsg) (p : ℕ) (cs : List Cell) (ms : List IpcMsg)
    → copies p ≡ none
    → copied copies cs ≡ map some ms
    → NoCopy p cs
NoCopy-fresh copies p [] ms e q = tt
NoCopy-fresh copies p (c ∷ cs) [] e q = cc
NoCopy-fresh copies p (c ∷ cs) (m ∷ ms) e q =
    (differs (Bool-cases (c.1 == p)), NoCopy-fresh copies p cs ms e (tail_eq q))
  where
    head_eq : copies c.1 ∷ copied copies cs ≡ some m ∷ map some ms → copies c.1 ≡ some m
    head_eq q = cc

    tail_eq : copies c.1 ∷ copied copies cs ≡ some m ∷ map some ms → copied copies cs ≡ map some ms
    tail_eq q = cc

    differs : ((c.1 == p) ≡ true) ⊎ ((c.1 == p) ≡ false) → (c.1 == p) ≡ false
    differs (inr f) = f
    differs (inl t) = absurd (cc (sym (head_eq q) ∙ ap copies ((==_iff c.1 p).0 t) ∙ e))

pub copied-append :
    (copies : ℕ → Option IpcMsg) (cs : List Cell) (ms : List IpcMsg) (c : Cell) (m : IpcMsg)
    → copied copies cs ≡ map some ms
    → copies c.1 ≡ some m
    → copied copies (cs ++ (c ∷ [])) ≡ map some (ms ++ (m ∷ []))
copied-append copies [] [] c m e at = rw at refl
copied-append copies [] (x ∷ ms) c m e at = cc
copied-append copies (y ∷ cs) [] c m e at = cc
copied-append copies (y ∷ cs) (x ∷ ms) c m e at =
    let here : copies y.1 ≡ some x = cc in
    let rest : copied copies cs ≡ map some ms = cc in
    λ i. here i ∷ copied-append copies cs ms c m rest at i

pub OwnCopies-append :
    (cs : List Cell) (c : Cell) → OwnCopies cs → NoCopy c.1 cs → OwnCopies (cs ++ (c ∷ []))
OwnCopies-append [] c own a = (tt, tt)
OwnCopies-append (x ∷ cs) c own a = (joined cs own.0, OwnCopies-append cs c own.1 a.1)
  where
    joined : (ds : List Cell) → NoCopy x.1 ds → NoCopy x.1 (ds ++ (c ∷ []))
    joined [] h = (ground (arith, a.0), tt)
    joined (y ∷ ds) h = (h.0, joined ds h.1)
