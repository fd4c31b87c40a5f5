-- ===== src/Worker/Commands/Locking.antt =====
-- What a command does to the lock of the file that it names.
use file_server.Base.{
  ℕ, ◌+◌, ◌*◌, ◌^◌, ◌≤◌, ◌<◌, ◌≡◌, refl, ◌⊎◌, inl, inr, Bool, true, false, some, arith, Bool-cases,
  get_elem?, set,
}
use file_server.Base.Word.{ge_int, is_negative, is_positive}
use file_server.Filemeta.{WaitJob, FileMeta, FileList}
use file_server.Filemeta.Index.{get_filemeta_by_idx}
use file_server.Filemeta.Lock.{wait_lock, enter, entered, must_wait, take_lock, park}
use file_server.Msg.{Commsg, command, file_stripe}
use file_server.Worker.{Server, Outcome, reply, sleeping, lock_units}
use file_server.Worker.Commands.{lock_range}

pub get_filemeta-known :
    (i : ℕ) (l : FileList) (m : FileMeta)
    → i < l.cnt
    → l.cnt < 2 ^ 31
    → get_elem? l.filearr i ≡ some m
    → get_filemeta_by_idx i l ≡ some (some m)
unfolding get_filemeta_by_idx
get_filemeta-known i l m h small e = ground arith

wait_lock-known :
    (i n : ℕ) (read : Bool) (l : FileList) (m : FileMeta)
    → i < l.cnt
    → l.cnt < 2 ^ 31
    → get_elem? l.filearr i ≡ some m
    → wait_lock i n read l ≡ entered l i (enter (record { read = read; cnt = n }) m)
unfolding wait_lock
wait_lock-known i n read l m h small e =
    let inside : ge_int i l.cnt ≡ false = ground arith in
    let counted : is_negative i ≡ false = ground arith in rw (inside, counted, e) refl

-- As many units as there are stripes of 1 MB in `n` bytes, the last of which may be shorter.
abbrev pub IsUnits : ℕ → ℕ → Type 0
IsUnits n u = (n ≤ u * file_stripe) × (u * file_stripe < n + file_stripe)

-- A range of at most 2 GB less a stripe takes one unit for each stripe.
pub lock_units-IsUnits : (n : ℕ) → n + file_stripe ≤ 2 ^ 31 → IsUnits n (lock_units n)
lock_units-IsUnits n small = (ground arith, ground arith)

-- What a lock request for a range of a known file comes to.
abbrev pub Locks : ℕ → Bool → ℕ → FileMeta → Commsg → Server → Outcome × Server → Type 0
Locks i read remain m ok s r =
    let j : WaitJob = record { read = read; cnt = lock_units remain } in
    (must_wait read m ≡ false)
      × (r ≡ (
        reply (command ok),
        record s { list = record (s.list) { filearr = set s.list.filearr i (take_lock j m) } },
      ))
    ⊎ (must_wait read m ≡ true)
      × (r ≡ (
        sleeping (command ok),
        record s { list = record (s.list) { filearr = set s.list.filearr i (park j m) } },
      ))

pub lock_range-Locks :
    (op i remain : ℕ) (read : Bool) (ok : Commsg) (s : Server) (m : FileMeta)
    → i < s.list.cnt
    → s.list.cnt < 2 ^ 31
    → get_elem? s.list.filearr i ≡ some m
    → is_positive remain ≡ true
    → Locks i read remain m ok s (lock_range op i remain read ok s)
unfolding lock_range enter
lock_range-Locks op i remain read ok s m h small e p = elim (Bool-cases (must_wait read m)) [
  | inl busy ↦
      inr (busy, rw (p, wait_lock-known i (lock_units remain) read s.list m h small e, busy) refl)
  | inr free ↦
      inl (free, rw (p, wait_lock-known i (lock_units remain) read s.list m h small e, free) refl)
]

pub Locks-free :
    (i remain : ℕ) (read : Bool) (m : FileMeta) (ok : Commsg) (s : Server) (r : Outcome × Server)
    → must_wait read m ≡ false
    → Locks i read remain m ok s r
    → r ≡ (
      reply (command ok),
      record s {
        list = record (s.list) {
          filearr =
              set s.list.filearr i (take_lock (record { read = read; cnt = lock_units remain }) m);
        };
      },
    )
Locks-free i remain read m ok s r free (inl (_, e)) = e
Locks-free i remain read m ok s r free (inr (busy, _)) = cc

pub take_lock-fi : (j : WaitJob) (m : FileMeta) → (take_lock j m).fi ≡ m.fi
unfolding take_lock
take_lock-fi j m = ground arith

pub park-fi : (j : WaitJob) (m : FileMeta) → (park j m).fi ≡ m.fi
unfolding park
park-fi j m = refl
