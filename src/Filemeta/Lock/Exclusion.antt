-- ===== src/Filemeta/Lock/Exclusion.antt =====
-- Readers and a writer at one file: the two counters under the orders of the threads' steps.
use file_server.Base.{ℕ, ◌^◌, ◌<◌, ◌≡◌, refl, sym, ◌∙◌, ◌⊎◌, inl, inr, true, false, [], arith}
use file_server.Filemeta.{FileInfo, WaitJob}
use file_server.Filemeta.Lock.{must_wait, park, take_lock, release}
use file_server.Filemeta.Lock.System.{
  Sys, grant, wait, give_back, resume, Run, start, step, idle, Held,
}
use file_server.Filemeta.Lock.Orderly.{PromptRun, IsOrderly-Excludes, PromptRun-Orderly}

-- If from an unused file on every signalled job runs before any other thread takes the file's
-- mutex, each request is for at least one unit, what is held on a side fits an `int`, and each unit
-- that is given back was taken, then the two counters are the units that readers and that writers
-- hold, and never are both held: one of the two is 0.
pub prompt_exclusion :
    (info : FileInfo) (now : ℕ) {s : Sys} {h : Held}
    → PromptRun (idle info now) s h
    → (s.file.rcnt ≡ h.readers) × (s.file.wcnt ≡ h.writers) × ((h.readers ≡ 0) ⊎ (h.writers ≡ 0))
prompt_exclusion info now {s} {h} r =
    let o = PromptRun-Orderly info now r in
    let x = IsOrderly-Excludes s.file s.woken o.orderly in
    (
      o.inv.rcnt,
      o.exact,
      elim x [ inl a ↦ inl (sym o.inv.rcnt ∙ a) | inr b ↦ inr (sym o.exact ∙ b) ],
    )

abbrev reader : ℕ → WaitJob
reader n = record { read = true; cnt = n }

abbrev writer : ℕ → WaitJob
writer n = record { read = false; cnt = n }

-- In general readers and a writer do not exclude each other: for any two positive numbers of units
-- below 2 GB there is an order of steps from an unused file, of callers that give back only what
-- they took, after which readers hold the first and a writer holds the second, since a signalled
-- writer takes the lock without a new test.
pub barging_breaks_exclusion :
    (info : FileInfo) (now n k : ℕ)
    → 0 < n
    → n < 2 ^ 31
    → 0 < k
    → k < 2 ^ 31
    → (s : Sys) × (h : Held) × Run (idle info now) s h
      × (s.file.rcnt ≡ n)
      × (s.file.wcnt ≡ k)
      × (h.readers ≡ n)
      × (h.writers ≡ k)
unfolding must_wait take_lock park release
barging_breaks_exclusion info now n k n0 n1 k0 k1 = (
  s5,
  _,
  step
      (step
        (step
          (step
            (step start (grant (reader 1) refl refl) ((omega arith, omega arith), omega arith) refl)
            (wait (writer k) refl refl) (k0, k1) refl)
          (give_back true refl) (omega arith) refl)
        (grant (reader n) refl refl) ((n0, n1), omega arith) refl)
      (resume [] [] (writer k) refl refl) (omega arith) refl,
  omega arith,
  refl,
  omega arith,
  omega arith,
)
  where
    s1 : Sys
    s1 = record { file = take_lock (reader 1) (idle info now).file; woken = [] }

    s2 : Sys
    s2 = record { file = park (writer k) s1.file; woken = [] }

    s3 : Sys
    s3 = record { file = (release true s2.file).0; woken = (release true s2.file).1 }

    s4 : Sys
    s4 = record { file = take_lock (reader n) s3.file; woken = s3.woken }

    s5 : Sys
    s5 = record { file = take_lock (writer k) s4.file; woken = [] }
