-- ===== src/Diagnostics/Composite/Reports.antt =====
-- What a composite task makes of the reports of its tasks: rosrust_diagnostics/src/composite_task.rs.
use rosrust.Prelude.{
  ◌≡◌, refl, ap, sym, ◌∙◌, Bool, true, false, ◌||◌, Bool-cases, inl, inr, List, [], ◌∷◌,
  if◌then◌else◌, Bytes,
}
use rosrust.Prelude.Int.{ℤ}
use rosrust.Diagnostics.{Level, Status, set_summary, copy_summary}
use rosrust.Diagnostics.Summaries.{
  Rising, max, glue, glue-nil, tell, tell_by, is_bad, is_bad-max, max_assoc, tell_assoc,
  merge_summary_with-tell,
}
use rosrust.Diagnostics.Composite.{
  Task, CompositeTaskRunner, runner_new, runner_run, apply_summary, run_each, composite_run,
}

-- The statuses that the tasks leave, one after the other, when each starts with this level and message.
abbrev pub reports : Level → Bytes → List Task → Status → List Status
reports level message [] s = []
reports level message (task ∷ tasks) s =
    let report = task.run (record s { level = level; message = message }) in
    report ∷ reports level message tasks report

-- The last of them, or the status itself.
abbrev pub last : Status → List Status → Status
last s [] = s
last s (r ∷ rs) = last r rs

abbrev pub worst : List Status → Level
worst [] = Level.ok
worst (r ∷ rs) = max r.level (worst rs)

-- The messages with separators, the empty ones left out.
abbrev pub joined : List Bytes → Bytes
joined [] = []
joined (m ∷ ms) = glue m (joined ms)

abbrev pub messages : List Status → List Bytes
messages [] = []
messages (r ∷ rs) = r.message ∷ messages rs

abbrev pub bad_messages : List Status → List Bytes
bad_messages [] = []
bad_messages (r ∷ rs) =
    let later = bad_messages rs in if is_bad r.level then r.message ∷ later else later

-- The message of several reports: those of the bad ones, or of all if none is bad.
abbrev pub verdict : List Status → Bytes
verdict rs = if is_bad (worst rs) then joined (bad_messages rs) else joined (messages rs)

-- The level and the message of the combination once it has taken in the reports.
abbrev pub told : List Status → Level → Bytes → Bytes
told [] a l = l
told (r ∷ rs) a l = told rs (max a r.level) (tell a l r.level r.message)

bad_messages-nil : (rs : List Status) → is_bad (worst rs) ≡ false → bad_messages rs ≡ []
bad_messages-nil [] h = refl
bad_messages-nil (r ∷ rs) h = elim (Bool-cases (is_bad r.level)) [
  | inl bad ↦ cc (h, bad, is_bad-max r.level (worst rs))
  | inr fine ↦ rw fine (bad_messages-nil rs (cc (h, fine, is_bad-max r.level (worst rs))))
]

verdict_by :
    (b w : Bool) (m : Bytes) (bad every : List Bytes)
    → (w ≡ false → bad ≡ [])
    → tell_by b m w (if w then joined bad else joined every)
      ≡ (if b || w then joined (if b then m ∷ bad else bad) else glue m (joined every))
verdict_by false false m bad every h = refl
verdict_by false true m bad every h = refl
verdict_by true false m bad every h = rw (h refl) (sym (glue-nil m))
verdict_by true true m bad every h = refl

pub max-ok : (a : Level) → max a Level.ok ≡ a
max-ok Level.ok = refl
max-ok Level.warn = refl
max-ok Level.error = refl

pub tell-nil : (a : Level) (l : Bytes) → tell a l Level.ok [] ≡ l
tell-nil Level.ok l = glue-nil l
tell-nil Level.warn l = refl
tell-nil Level.error l = refl

tell_quiet : (a : Level) (m : Bytes) → tell Level.ok [] a m ≡ m
tell_quiet Level.ok m = refl
tell_quiet Level.warn m = refl
tell_quiet Level.error m = refl

tell-verdict :
    (rs : List Status) (r : Status)
    → tell r.level r.message (worst rs) (verdict rs) ≡ verdict (r ∷ rs)
tell-verdict rs r =
    verdict_by (is_bad r.level) (is_bad (worst rs)) r.message (bad_messages rs) (messages rs)
      (bad_messages-nil rs)
    ∙ rw (is_bad-max r.level (worst rs)) refl

pub told-verdict :
    (rs : List Status) (a : Level) (l : Bytes) → told rs a l ≡ tell a l (worst rs) (verdict rs)
told-verdict [] a l = sym (tell-nil a l)
told-verdict (r ∷ rs) a l = rw (told-verdict rs (max a r.level) (tell a l r.level r.message)) (
    tell_assoc a l r.level r.message (worst rs) (verdict rs)
    ∙ ap (λ (m : Bytes). tell a l (max r.level (worst rs)) m) (tell-verdict rs r))

pub run_each-told :
    (number : Level → ℤ) (tasks : List Task) (r : CompositeTaskRunner)
    → Rising number
    → (run_each number tasks r) ≡ record r {
      target = last r.target (reports r.level r.message tasks r.target);
      combination = record (r.combination) {
        level = max r.combination.level (worst (reports r.level r.message tasks r.target));
        message =
            told
              (reports r.level r.message tasks r.target)
              r.combination.level
              r.combination.message;
      };
    }
unfolding run_each runner_run set_summary
run_each-told number [] r h =
    ap (λ (l : Level). record r { combination = record (r.combination) { level = l } })
      (sym (max-ok r.combination.level))
run_each-told number (task ∷ tasks) r h =
    run_each-told number tasks (runner_run number task r) h
    ∙ rw (merge_summary_with-tell number _ r.combination h, max_assoc) refl

-- The status that a composite task leaves has the worst level of its tasks' reports, each of which
-- started from the level and message given; the messages of the bad reports, or of all if none is bad,
-- separated by semicolons; and all else as the last task left it, if the numbers of the levels rise.
pub composite_run-reports :
    (number : Level → ℤ) (tasks : List Task) (s : Status)
    → Rising number
    → composite_run number tasks s ≡ record (last s (reports s.level s.message tasks s)) {
      level = worst (reports s.level s.message tasks s);
      message = verdict (reports s.level s.message tasks s);
    }
unfolding composite_run apply_summary copy_summary runner_new set_summary
composite_run-reports number tasks s h =
    ap (λ (r : CompositeTaskRunner). (apply_summary r).target)
      (run_each-told number tasks (runner_new s) h)
    ∙ ap
        (λ (m : Bytes). record (last s (reports s.level s.message tasks s)) {
          level = worst (reports s.level s.message tasks s);
          message = m;
        })
        (told-verdict (reports s.level s.message tasks s) Level.ok []
          ∙ tell_quiet (worst (reports s.level s.message tasks s)) _)
