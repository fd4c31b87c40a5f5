-- ===== src/Worker/Events/Release.antt =====
-- The event thread's round over the transfers of one file.
use mathlib.Core.List.{append_assoc, append-nil}
use file_server.Base.{
  ℕ, zero, suc, ◌^◌, ◌<◌, ◌≡◌, refl, ap, ap₂, sym, ◌∙◌, Bool, false, Option, some, List, [], ◌∷◌,
  ◌++◌, map, arith, length, All, get_elem?, set, get_elem?-set_self,
}
use file_server.Base.Word.{ge_int, is_negative}
use file_server.Filemeta.{WaitJob, FileMeta, FileList}
use file_server.Filemeta.Lock.{release, decrease_lock_cnt}
use file_server.Filemeta.Lock.Units.{release_many, with_counter, release_many-all}
use file_server.Msg.{Datamsg}
use file_server.Worker.{Aio}
use file_server.Worker.Events.{Round, events_loop}

-- A transfer of that direction for that file.
abbrev pub IsFor : ℕ → Bool → Aio → Type 0
IsFor fidx read a = (a.answer.sfilefd ≡ fidx) × (a.reads ≡ read)

pub lt_of_get :
    (xs : List FileMeta) (i : ℕ) (m : FileMeta) → get_elem? xs i ≡ some m → i < length xs
lt_of_get [] i m e = cc
lt_of_get (x ∷ xs) zero m e = omega arith
lt_of_get (x ∷ xs) (suc i) m e = omega (arith, lt_of_get xs i m e)

set_same : (xs : List FileMeta) (i : ℕ) (m : FileMeta) → get_elem? xs i ≡ some m → set xs i m ≡ xs
set_same [] i m e = refl
set_same (x ∷ xs) zero m e = ground arith
set_same (x ∷ xs) (suc i) m e = ap (λ ys. x ∷ ys) (set_same xs i m e)

set-set : (xs : List FileMeta) (i : ℕ) (m n : FileMeta) → set (set xs i m) i n ≡ set xs i n
set-set [] i m n = refl
set-set (x ∷ xs) zero m n = refl
set-set (x ∷ xs) (suc i) m n = ap (λ ys. x ∷ ys) (set-set xs i m n)

decrease-release :
    (fidx : ℕ) (read : Bool) (l : FileList) (m : FileMeta)
    → fidx < l.cnt
    → l.cnt < 2 ^ 31
    → get_elem? l.filearr fidx ≡ some m
    → decrease_lock_cnt fidx read l
      ≡ some (record l { filearr = set l.filearr fidx (release read m).0 }, (release read m).1)
unfolding decrease_lock_cnt
decrease-release fidx read l m i small e =
    let inside : ge_int fidx l.cnt ≡ false = ground arith in
    let counted : is_negative fidx ≡ false = ground arith in rw (inside, counted, e) refl

abbrev round_of : FileList → List FileMeta → List Datamsg → List WaitJob → Option Round
round_of l arr ds ws = some (record { list = record l { filearr = arr }; replies = ds; woken = ws })

rebuilt :
    (l : FileList) {arr arr' : List FileMeta} {ds ds' : List Datamsg} {ws ws' : List WaitJob}
    → arr ≡ arr'
    → ds ≡ ds'
    → ws ≡ ws'
    → round_of l arr ds ws ≡ round_of l arr' ds' ws'
rebuilt l p q w = λ i. round_of l (p i) (q i) (w i)

-- A round of the event thread over transfers of one file of the list, all of one direction, is that
-- many releases of its lock, and hands on their answers in order.
pub events_loop-releases :
    (fidx : ℕ) (read : Bool) (ts : List Aio) (r : Round) (m : FileMeta)
    → All (IsFor fidx read) ts
    → fidx < r.list.cnt
    → r.list.cnt < 2 ^ 31
    → get_elem? r.list.filearr fidx ≡ some m
    → let (m', woken) = release_many (length ts) read m in
      events_loop ts r
      ≡ some (record {
        list = record (r.list) { filearr = set r.list.filearr fidx m' };
        replies = r.replies ++ map (λ a. a.answer) ts;
        woken = r.woken ++ woken;
      })
unfolding events_loop release_many
events_loop-releases fidx read [] r m all i small e =
    sym (
      rebuilt r.list (set_same r.list.filearr fidx m e) (append-nil r.replies) (append-nil r.woken))
events_loop-releases fidx read (a ∷ ts) r m all i small e =
    let taken =
      ap₂ (λ i b. decrease_lock_cnt i b r.list) all.0.0 all.0.1
      ∙ decrease-release fidx read r.list m i small e in
    let at = get_elem?-set_self r.list.filearr fidx m' (lt_of_get r.list.filearr fidx m e) in
    rw (taken, events_loop)
      (events_loop-releases fidx read ts r' m' all.1 i small at
        ∙ rebuilt r.list (set-set r.list.filearr fidx m' (release_many (length ts) read m').0)
            (append_assoc r.replies (a.answer ∷ []) (map (λ a. a.answer) ts))
            (append_assoc r.woken (release read m).1 (release_many (length ts) read m').1))
  where
    m' : FileMeta
    m' = (release read m).0

    r' : Round
    r' = record {
      list = record (r.list) { filearr = set r.list.filearr fidx m' };
      replies = r.replies ++ (a.answer ∷ []);
      woken = r.woken ++ (release read m).1;
    }

-- The state in which the event thread begins.
abbrev pub begin : FileList → Round
begin l = record { list = l; replies = []; woken = [] }

-- Where all transfers of a round are for one file and one direction, the file's lock is held for as
-- many units as there are transfers, and nobody waits, the round hands on all answers in order,
-- signals nobody, and leaves no unit held on that side.
pub events_loop-frees :
    (fidx : ℕ) (read : Bool) (ts : List Aio) (l : FileList) (m : FileMeta) (n : ℕ)
    → All (IsFor fidx read) ts
    → fidx < l.cnt
    → l.cnt < 2 ^ 31
    → get_elem? l.filearr fidx ≡ some m
    → length ts ≡ suc n
    → n < 2 ^ 31
    → m ≡ with_counter read (suc n) m
    → m.jobs ≡ []
    → events_loop ts (begin l)
      ≡ some (record {
        list = record l { filearr = set l.filearr fidx (with_counter read 0 m) };
        replies = map (λ a. a.answer) ts;
        woken = [];
      })
events_loop-frees fidx read ts l m n all i small e len few held nobody =
    events_loop-releases fidx read ts (begin l) m all i small e
    ∙ rebuilt l (ap (λ r. set l.filearr fidx r.0) released) refl (ap (λ r. r.1) released)
  where
    released : release_many (length ts) read m ≡ (with_counter read 0 m, [])
    released = ap₂ (λ k x. release_many k read x) len held ∙ release_many-all read n m few nobody
