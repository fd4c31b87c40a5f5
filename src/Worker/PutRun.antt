-- ===== src/Worker/PutRun.antt =====
-- The data phase of PUT and its transfers.
use file_server.Base.{
  ℕ, suc, ◌^◌, ◌<◌, ◌≡◌, refl, sym, ap, subst, ◌∙◌, true, false, some, List, [], ◌∷◌, ◌++◌, map,
  arith, length, All, get_elem?, get_elem?-set_self,
}
use mathlib.Core.List.{append_assoc, append-nil}
use file_server.Base.Word.{is_negative}
use file_server.Filemeta.{FileMeta}
use file_server.Filemeta.Lock.{open_fd}
use file_server.Filemeta.Lock.Units.{with_counter}
use file_server.Msg.{Datamsg, err_none, op_put_reply}
use file_server.Worker.{Aio, Server, Kernel, no_reply, data_reply}
use file_server.Worker.Cycle.{IsIdle}
use file_server.Worker.Transfers.{put_data, store_data}
use file_server.Worker.Transfers.Whole.{get_fd-known, opened_list}
use file_server.Worker.Events.{Round, events_loop}
use file_server.Worker.Events.Release.{IsFor, begin, events_loop-frees, lt_of_get}

-- The messages in their order, each handled by a worker.
unfoldable pub put_all : Kernel → List Datamsg → Server → Server
put_all k [] s = s
put_all k (d ∷ ds) s = put_all k ds (put_data k d s).1

-- A kernel that opens a file and takes its first transfer.
pub record IsWilling (k : Kernel) : Type 0 where
  pub opens : is_negative k.opened ≡ false
  pub takes : k.submits 0 ≡ true

unfoldable pub put_transfer : ℕ → Datamsg → Aio
put_transfer fd d = record {
  reads = false;
  fd = fd;
  len = d.hd.buflen;
  offset = d.offset;
  answer = data_reply op_put_reply err_none d.sfilefd;
}

open_fd-opens :
    (k : Kernel) (m : FileMeta) → IsWilling k → is_negative (open_fd false k.opened m).0 ≡ false
unfolding open_fd
open_fd-opens k m w = ground (arith, w.opens)

open_fd-keeps :
    (opened : ℕ) (m : FileMeta)
    → let m' = (open_fd false opened m).1 in
      (m'.rcnt ≡ m.rcnt) × (m'.wcnt ≡ m.wcnt) × (m'.jobs ≡ m.jobs)
unfolding open_fd
open_fd-keeps opened m = (ground arith, ground arith, ground arith)

put_data-stores :
    (k : Kernel) (d : Datamsg) (s : Server) (m : FileMeta)
    → IsWilling k
    → d.sfilefd < s.list.cnt
    → s.list.cnt < 2 ^ 31
    → get_elem? s.list.filearr d.sfilefd ≡ some m
    → put_data k d s ≡ (
      no_reply,
      record s {
        list = opened_list d.sfilefd false k.opened m s.list;
        aios = s.aios ++ (put_transfer (open_fd false k.opened m).0 d ∷ []);
      },
    )
unfolding put_data store_data put_transfer
put_data-stores k d s m w h small e =
    let got = get_fd-known d.sfilefd k.opened false s.list m h small e in
    ground (arith, got, open_fd-opens k m w, w.takes)

abbrev after_put : Kernel → ℕ → Datamsg → FileMeta → Server → Server
after_put k i d m s = record s {
  list = opened_list i false k.opened m s.list;
  aios = s.aios ++ (put_transfer (open_fd false k.opened m).0 d ∷ []);
}

put_data-after :
    (k : Kernel) (i : ℕ) (d : Datamsg) (s : Server) (m : FileMeta)
    → IsWilling k
    → d.sfilefd ≡ i
    → i < s.list.cnt
    → s.list.cnt < 2 ^ 31
    → get_elem? s.list.filearr i ≡ some m
    → (put_data k d s).1 ≡ after_put k i d m s
put_data-after k i d s m w for_i =
    subst
      (λ j.
        j < s.list.cnt
        → s.list.cnt < 2 ^ 31
        → get_elem? s.list.filearr j ≡ some m
        → (put_data k d s).1 ≡ after_put k j d m s)
      for_i (λ h small e. ap (λ r. r.1) (put_data-stores k d s m w h small e))

put_transfer-IsFor : (i fd : ℕ) (d : Datamsg) → d.sfilefd ≡ i → IsFor i false (put_transfer fd d)
unfolding put_transfer
put_transfer-IsFor i fd d e = (e, refl)

-- What the messages for file `i` leave: one write each, and the file as it was but for its descriptor.
abbrev pub Stored : ℕ → ℕ → FileMeta → Server → Server → Type 0
Stored i n m s s' =
    (taken : List Aio) × (m' : FileMeta) × (s'.aios ≡ s.aios ++ taken)
    × All (IsFor i false) taken
    × (length taken ≡ n)
    × (s'.list.cnt ≡ s.list.cnt)
    × (get_elem? s'.list.filearr i ≡ some m')
    × (m'.rcnt ≡ m.rcnt)
    × (m'.wcnt ≡ m.wcnt)
    × (m'.jobs ≡ m.jobs)

pub put_all-Stored :
    (k : Kernel) (i : ℕ) (ds : List Datamsg) (s : Server) (m : FileMeta)
    → IsWilling k
    → All (λ d. d.sfilefd ≡ i) ds
    → i < s.list.cnt
    → s.list.cnt < 2 ^ 31
    → get_elem? s.list.filearr i ≡ some m
    → Stored i (length ds) m s (put_all k ds s)
unfolding put_all
put_all-Stored k i [] s m w all h small e =
    ([], m, sym (append-nil s.aios), tt, refl, refl, e, refl, refl, refl)
put_all-Stored k i (d ∷ ds) s m w all h small e =
    let inside = lt_of_get s.list.filearr i m e in
    let (rcnt, wcnt, jobs) = open_fd-keeps k.opened m in
    let (taken, m', aios, for_i, len, cnt, at, r, wc, js) =
      put_all-Stored k i ds (after_put k i d m s) (open_fd false k.opened m).1 w all.1 h small
        (get_elem?-set_self s.list.filearr i (open_fd false k.opened m).1 inside) in
    subst (λ z. Stored i (suc (length ds)) m s (put_all k ds z))
      (sym (put_data-after k i d s m w all.0 h small e))
      (
        put_transfer (open_fd false k.opened m).0 d ∷ taken,
        m',
        aios ∙ append_assoc s.aios (put_transfer (open_fd false k.opened m).0 d ∷ []) taken,
        (put_transfer-IsFor i _ d all.0, for_i),
        ap suc len,
        cnt,
        at,
        r ∙ rcnt,
        wc ∙ wcnt,
        js ∙ jobs,
      )

open_fd-again :
    (opened : ℕ) (m : FileMeta)
    → is_negative opened ≡ false
    → (open_fd false opened (open_fd false opened m).1).0 ≡ (open_fd false opened m).0
unfolding open_fd
open_fd-again opened m ok = ground arith

-- The messages for file `i` submit their writes in order, all to one descriptor.
pub put_all-aios :
    (k : Kernel) (i fd : ℕ) (ds : List Datamsg) (s : Server) (m : FileMeta)
    → IsWilling k
    → All (λ d. d.sfilefd ≡ i) ds
    → i < s.list.cnt
    → s.list.cnt < 2 ^ 31
    → get_elem? s.list.filearr i ≡ some m
    → (open_fd false k.opened m).0 ≡ fd
    → (put_all k ds s).aios ≡ s.aios ++ map (put_transfer fd) ds
unfolding put_all
put_all-aios k i fd [] s m w all h small e at = sym (append-nil s.aios)
put_all-aios k i fd (d ∷ ds) s m w all h small e at =
    let inside = lt_of_get s.list.filearr i m e in
    ap (λ z. (put_all k ds z).aios) (put_data-after k i d s m w all.0 h small e)
    ∙ put_all-aios k i fd ds (after_put k i d m s) (open_fd false k.opened m).1 w all.1 h small
        (get_elem?-set_self s.list.filearr i (open_fd false k.opened m).1 inside)
        (open_fd-again k.opened m w.opens ∙ at)
    ∙ ap (λ x. (s.aios ++ (put_transfer x d ∷ [])) ++ map (put_transfer fd) ds) at
    ∙ append_assoc s.aios (put_transfer fd d ∷ []) (map (put_transfer fd) ds)

-- The transfers that were added, and the event thread's round over them, which ends with an idle file.
abbrev pub Frees : ℕ → ℕ → Server → Server → Type 0
Frees i n s s' =
    (taken : List Aio) × (r : Round) × (m' : FileMeta) × (s'.aios ≡ s.aios ++ taken)
    × (length taken ≡ n)
    × (events_loop taken (begin s'.list) ≡ some r)
    × (r.replies ≡ map (λ a. a.answer) taken)
    × (r.woken ≡ [])
    × (get_elem? r.list.filearr i ≡ some m')
    × IsIdle m'

pub Stored-Frees :
    (i n q : ℕ) (m : FileMeta) (s s' : Server)
    → Stored i n m s s'
    → i < s.list.cnt
    → s.list.cnt < 2 ^ 31
    → n ≡ suc q
    → q < 2 ^ 31
    → m.wcnt ≡ n
    → m.rcnt ≡ 0
    → m.jobs ≡ []
    → Frees i n s s'
Stored-Frees i n q m s s' (taken, m', aios, for_i, len, cnt, at, r, wc, js) inside small one few
      held no_reader nobody =
    (
      taken,
      _,
      with_counter false 0 m',
      aios,
      len,
      events_loop-frees i false taken s'.list m' q for_i (omega (arith, cnt)) (omega (arith, cnt))
          at (len ∙ one) few (ap (λ u. with_counter false u m') (wc ∙ held ∙ one)) (js ∙ nobody),
      refl,
      refl,
      get_elem?-set_self s'.list.filearr i (with_counter false 0 m')
          (lt_of_get s'.list.filearr i m' at),
      record { rcnt = r ∙ no_reader; wcnt = refl; jobs = js ∙ nobody },
    )
