-- ===== src/Filemeta/Lock/Units.antt =====
-- A lock is taken in units, one for each transfer that follows, and given back one at a time.
use file_server.Base.{ℕ, zero, suc, ◌^◌, ◌<◌, ◌≡◌, ◌∙◌, Bool, true, false, List, [], ◌++◌, arith}
use mathlib.Core.List.{append-nil}
use file_server.Filemeta.{WaitJob, FileMeta}
use file_server.Filemeta.Lock.{release}

abbrev pub with_counter : Bool → ℕ → FileMeta → FileMeta
with_counter true n m = record m { rcnt = n }
with_counter false n m = record m { wcnt = n }

-- Several releases in a row, with all the jobs that they signal.
unfoldable pub release_many : ℕ → Bool → FileMeta → FileMeta × List WaitJob
release_many zero read m = (m, [])
release_many (suc k) read m =
    let (m', woken) = release read m in
    let (m'', more) = release_many k read m' in (m'', woken ++ more)

release-early :
    (read : Bool) (n : ℕ) (m : FileMeta)
    → n < 2 ^ 31
    → release read (with_counter read (suc (suc n)) m) ≡ (with_counter read (suc n) m, [])
unfolding release
release-early true n m h = ground arith
release-early false n m h = ground arith

-- As long as units are left a release only counts down: of as many releases as there are units, up
-- to 2 GB, all but the last signal nobody, and the last one does what a release does on a single
-- unit.
pub release_many-last :
    (read : Bool) (n : ℕ) (m : FileMeta)
    → n < 2 ^ 31
    → release_many (suc n) read (with_counter read (suc n) m) ≡ release read (with_counter read 1 m)
unfolding release_many
release_many-last read zero m h =
    ground (arith, append-nil (release read (with_counter read 1 m)).1)
release_many-last read (suc n) m h =
    rw (release-early read n m (omega arith)) (release_many-last read n m (omega arith))

-- Nobody waits: after all releases the counter is 0 and nobody was signalled.
pub release_many-all :
    (read : Bool) (n : ℕ) (m : FileMeta)
    → n < 2 ^ 31
    → m.jobs ≡ []
    → release_many (suc n) read (with_counter read (suc n) m) ≡ (with_counter read 0 m, [])
unfolding release
release_many-all true n m h none = release_many-last true n m h ∙ ground arith
release_many-all false n m h none = release_many-last false n m h ∙ ground arith
