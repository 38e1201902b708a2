-- ===== src/Diagnostics/Frequency/Window.antt =====
-- The window that a frequency task looks back on:
-- rosrust_diagnostics/src/tasks/frequency_status.rs.
use rosrust.Prelude.{
  ℕ, zero, suc, ◌+◌, ◌%◌, ◌<◌, ◌≡◌, refl, ap, sym, ◌∙◌, List, [], ◌∷◌, ◌++◌, append_assoc,
  append-nil, length, arith,
}
use rosrust.Time.{Time, since}
use rosrust.Time.Seconds.{Floats, duration_seconds}
use rosrust.Diagnostics.{Status, usize_mod, default_status}
use rosrust.Diagnostics.Frequency.{
  HistoryEntry, Tracker, FrequencyStatus, minus_usize, tick, next_entry, report, frequency_run,
}

abbrev pub ticks : ℕ → Tracker → Tracker
ticks zero t = t
ticks (suc n) t = ticks n (tick t)

-- So many ticks, and then a run at this time.
abbrev pub Pass : Type 0
Pass = ℕ × Time

abbrev pub total : List Pass → ℕ
total [] = 0
total ((n, _) ∷ passes) = n + total passes

-- The entries that the runs leave in the history.
abbrev entries : ℕ → List Pass → List HistoryEntry
entries c [] = []
entries c ((n, now) ∷ passes) =
    record { count = (c + n) % usize_mod; time = now } ∷ entries ((c + n) % usize_mod) passes

ticks-count :
    (n : ℕ) (t : Tracker)
    → t.count < usize_mod
    → ticks n t ≡ record t { count = (t.count + n) % usize_mod }
unfolding tick
ticks-count zero t h = ap (λ (c : ℕ). record t { count = c }) (omega arith)
ticks-count (suc n) t h =
    ticks-count n (tick t) (omega arith) ∙ ap (λ (c : ℕ). record t { count = c }) (omega arith)

minus-events :
    (c n r m : ℕ)
    → minus_usize (((c + (n + r)) % usize_mod + m) % usize_mod) ((c + n) % usize_mod)
      ≡ (r + m) % usize_mod
minus-events c n r m = omega arith

module _ (f : Floats) where
  abbrev pub after_ticks : ℕ → FrequencyStatus (f.F) → FrequencyStatus (f.F)
  after_ticks n task = record task { tracker = ticks n task.tracker }

  abbrev pub pass_each : List Pass → FrequencyStatus (f.F) → FrequencyStatus (f.F)
  pass_each [] task = task
  pass_each ((n, now) ∷ passes) task =
      pass_each passes (frequency_run f now (after_ticks n task) default_status).1

  -- The task with this count and history.
  abbrev with_history : FrequencyStatus (f.F) → ℕ → List HistoryEntry → FrequencyStatus (f.F)
  with_history task c history = record task {
    tracker = record (task.tracker) { count = c; history = history };
  }

  run-with :
      (n : ℕ) (now : Time) (s : Status) (c : ℕ) (start : HistoryEntry) (history : List HistoryEntry)
      (task : FrequencyStatus (f.F))
      → c < usize_mod
      → frequency_run f now (after_ticks n (with_history task c (start ∷ history))) s ≡ (
        report f task
            (minus_usize ((c + n) % usize_mod) start.count)
            ((c + n) % usize_mod)
            (duration_seconds f (since now start.time))
            s,
        with_history task
            ((c + n) % usize_mod)
            (history ++ (record { count = (c + n) % usize_mod; time = now } ∷ [])),
      )
  unfolding frequency_run next_entry report
  run-with n now s c start history task h =
      rw (ticks-count n (with_history task c (start ∷ history)).tracker h) refl

  pass_each-history :
      (passes : List Pass) (c : ℕ) (front back : List HistoryEntry) (task : FrequencyStatus (f.F))
      → c < usize_mod
      → length front ≡ length passes
      → pass_each passes (with_history task c (front ++ back))
        ≡ with_history task ((c + total passes) % usize_mod) (back ++ entries c passes)
  pass_each-history [] c [] back task h e =
      rw (append-nil back) (ap (λ (k : ℕ). with_history task k back) (omega arith))
  pass_each-history [] c (_ ∷ front) back task h e = absurd (omega arith)
  pass_each-history ((n, now) ∷ passes) c [] back task h e = absurd (omega arith)
  pass_each-history ((n, now) ∷ passes) c (start ∷ front) back task h e =
      ap (λ (r : Status × FrequencyStatus (f.F)). pass_each passes r.1)
        (run-with n now default_status c start (front ++ back) task h)
      ∙ ap (λ (l : List HistoryEntry). pass_each passes (with_history task ((c + n) % usize_mod) l))
          (append_assoc front back _)
      ∙ pass_each-history passes ((c + n) % usize_mod) front _ task (omega arith) (omega arith)
      ∙ ap
          (λ (l : List HistoryEntry).
            with_history task (((c + n) % usize_mod + total passes) % usize_mod) l)
          (append_assoc back _ _)
      ∙ ap (λ (k : ℕ). with_history task k (back ++ entries c ((n, now) ∷ passes))) (omega arith)

  -- A run reports on the time since the run so many runs before it as the history has entries: on all
  -- the ticks since that run, counted modulo 2 ^ 64, and on the time that has passed since then.
  pub run-window :
      (n : ℕ) (at_ : Time) (passes : List Pass) (m : ℕ) (now : Time) (s : Status)
      (task : FrequencyStatus (f.F))
      → task.tracker.count < usize_mod
      → length task.tracker.history ≡ suc (length passes)
      → (frequency_run f now (after_ticks m (pass_each ((n, at_) ∷ passes) task)) s).0
        ≡ report f task
            ((total passes + m) % usize_mod)
            ((task.tracker.count + (n + total passes) + m) % usize_mod)
            (duration_seconds f (since now at_))
            s
  run-window n at_ passes m now s task h e =
      ap (λ (q : FrequencyStatus (f.F)). (frequency_run f now (after_ticks m q) s).0)
        (ap
            (λ (l : List HistoryEntry).
              pass_each ((n, at_) ∷ passes) (with_history task task.tracker.count l))
            (sym (append-nil task.tracker.history))
          ∙ pass_each-history ((n, at_) ∷ passes) task.tracker.count task.tracker.history [] task h
              e)
      ∙ ap (λ (r : Status × FrequencyStatus (f.F)). r.0)
          (run-with m now s ((task.tracker.count + (n + total passes)) % usize_mod)
            (record { count = (task.tracker.count + n) % usize_mod; time = at_ })
            (entries ((task.tracker.count + n) % usize_mod) passes) task (omega arith))
      ∙ rw (minus-events task.tracker.count n (total passes) m) (
          ap
            (λ (k : ℕ).
              report f task ((total passes + m) % usize_mod) k (duration_seconds f (since now at_))
                s)
            (omega arith))
