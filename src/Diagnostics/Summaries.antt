-- ===== src/Diagnostics/Summaries.antt =====
-- The summary of a status, its level and its message, and what merging makes of it:
-- rosrust_diagnostics/src/status.rs.
use rosrust.Prelude.{
  ◌+◌, ◌<◌, ◌≡◌, refl, ap, sym, ◌∙◌, [], ◌∷◌, ◌++◌, append_assoc, Bytes, codes, arith,
  if◌then◌else◌, ℕ, Bool, true, false, ◌||◌,
}
use rosrust.Prelude.Int.{ℤ, pos_part, neg_part, ltb_ℤ}
use rosrust.Diagnostics.{
  Level, Status, is_empty, merge_messages, merge_by, raise, merge_summary, merge_summary_with,
}

-- The numbers of the message package rise with the levels.
abbrev pub Rising : (Level → ℤ) → Type 0
Rising number =
    (pos_part (number Level.ok) + neg_part (number Level.warn)
      < pos_part (number Level.warn) + neg_part (number Level.ok))
    × (pos_part (number Level.warn) + neg_part (number Level.error)
        < pos_part (number Level.error) + neg_part (number Level.warn))

abbrev pub max : Level → Level → Level
max Level.ok level = level
max Level.warn Level.error = Level.error
max Level.warn _ = Level.warn
max Level.error _ = Level.error

-- Two messages with a separator between them, which an empty message does not need.
abbrev pub glue : Bytes → Bytes → Bytes
glue [] m = m
glue (c ∷ l) [] = c ∷ l
glue (c ∷ l) (d ∷ m) = (c ∷ l) ++ (codes "; " ++ (d ∷ m))

abbrev pub is_bad : Level → Bool
is_bad Level.ok = false
is_bad _ = true

abbrev pub tell_by : Bool → Bytes → Bool → Bytes → Bytes
tell_by false l true m = m
tell_by true l false m = l
tell_by _ l _ m = glue l m

-- The message of two reports together: only the bad ones speak, if there are any.
abbrev pub tell : Level → Bytes → Level → Bytes → Bytes
tell a l b m = tell_by (is_bad a) l (is_bad b) m

pub glue-nil : (l : Bytes) → glue l [] ≡ l
glue-nil [] = refl
glue-nil (c ∷ l) = refl

pub glue_assoc : (k l m : Bytes) → glue (glue k l) m ≡ glue k (glue l m)
glue_assoc [] l m = refl
glue_assoc (b ∷ k) [] m = refl
glue_assoc (b ∷ k) (c ∷ l) [] = refl
glue_assoc (b ∷ k) (c ∷ l) (d ∷ m) = ap (λ (w : Bytes). b ∷ w) (append_assoc k _ _)

raised :
    (number : Level → ℤ) (a b : Level)
    → Rising number
    → (if ltb_ℤ (number a) (number b) then b else a) ≡ max a b
raised number Level.ok Level.ok h = ground arith
raised number Level.ok Level.warn h = ground (arith, h.0)
raised number Level.ok Level.error h = ground (arith, h.0, h.1)
raised number Level.warn Level.ok h = ground (arith, h.0)
raised number Level.warn Level.warn h = ground arith
raised number Level.warn Level.error h = ground (arith, h.1)
raised number Level.error Level.ok h = ground (arith, h.0, h.1)
raised number Level.error Level.warn h = ground (arith, h.1)
raised number Level.error Level.error h = ground arith

level-if :
    (c : Bool) (level : Level) (s : Status)
    → (if c then record s { level = level } else s)
      ≡ record s { level = if c then level else s.level }
level-if true level s = refl
level-if false level s = refl

raise-max :
    (number : Level → ℤ) (level : Level) (s : Status)
    → Rising number
    → raise number level s ≡ record s { level = max s.level level }
unfolding raise
raise-max number level s h =
    level-if (ltb_ℤ (number s.level) (number level)) level s
    ∙ ap (λ (l : Level). record s { level = l }) (raised number s.level level h)

glue-if :
    (l : Bytes) (d : ℕ) (m : Bytes)
    → (if is_empty l then d ∷ m else l ++ (codes "; " ++ (d ∷ m))) ≡ glue l (d ∷ m)
glue-if [] d m = refl
glue-if (c ∷ l) d m = refl

merge_messages-glue :
    (m : Bytes) (s : Status) → merge_messages m s ≡ record s { message = glue s.message m }
unfolding merge_messages
merge_messages-glue [] s = ap (λ (l : Bytes). record s { message = l }) (sym (glue-nil s.message))
merge_messages-glue (d ∷ m) s = ap (λ (l : Bytes). record s { message = l }) (glue-if s.message d m)

merge_by-tell :
    (low level : Level) (message : Bytes) (s : Status)
    → merge_by low level message s ≡ record s { message = tell low s.message level message }
unfolding merge_by
merge_by-tell Level.ok Level.ok message s = merge_messages-glue message s
merge_by-tell Level.ok Level.warn message s = refl
merge_by-tell Level.ok Level.error message s = refl
merge_by-tell Level.warn Level.ok message s = refl
merge_by-tell Level.error Level.ok message s = refl
merge_by-tell Level.warn Level.warn message s = merge_messages-glue message s
merge_by-tell Level.warn Level.error message s = merge_messages-glue message s
merge_by-tell Level.error Level.warn message s = merge_messages-glue message s
merge_by-tell Level.error Level.error message s = merge_messages-glue message s

pub merge_summary-tell :
    (number : Level → ℤ) (level : Level) (message : Bytes) (s : Status)
    → Rising number
    → merge_summary number level message s
      ≡ record s { level = max s.level level; message = tell s.level s.message level message }
unfolding merge_summary
merge_summary-tell number level message s h =
    rw (merge_by-tell s.level level message s) (raise-max number level _ h)

pub max_assoc : (a b c : Level) → max (max a b) c ≡ max a (max b c)
max_assoc Level.ok b c = refl
max_assoc Level.warn Level.ok c = refl
max_assoc Level.warn Level.warn Level.ok = refl
max_assoc Level.warn Level.warn Level.warn = refl
max_assoc Level.warn Level.warn Level.error = refl
max_assoc Level.warn Level.error c = refl
max_assoc Level.error b c = refl

pub is_bad-max : (a b : Level) → is_bad (max a b) ≡ (is_bad a || is_bad b)
is_bad-max Level.ok b = refl
is_bad-max Level.warn Level.ok = refl
is_bad-max Level.warn Level.warn = refl
is_bad-max Level.warn Level.error = refl
is_bad-max Level.error b = refl

tell_by_assoc :
    (a : Bool) (k : Bytes) (b : Bool) (l : Bytes) (c : Bool) (m : Bytes)
    → tell_by (a || b) (tell_by a k b l) c m ≡ tell_by a k (b || c) (tell_by b l c m)
tell_by_assoc false k false l false m = glue_assoc k l m
tell_by_assoc false k false l true m = refl
tell_by_assoc false k true l false m = refl
tell_by_assoc false k true l true m = refl
tell_by_assoc true k false l false m = refl
tell_by_assoc true k false l true m = refl
tell_by_assoc true k true l false m = refl
tell_by_assoc true k true l true m = glue_assoc k l m

pub tell_assoc :
    (a : Level) (k : Bytes) (b : Level) (l : Bytes) (c : Level) (m : Bytes)
    → tell (max a b) (tell a k b l) c m ≡ tell a k (max b c) (tell b l c m)
tell_assoc a k b l c m =
    rw (is_bad-max a b, is_bad-max b c) (tell_by_assoc (is_bad a) k (is_bad b) l (is_bad c) m)

pub merge_summary_with-tell :
    (number : Level → ℤ) (other s : Status)
    → Rising number
    → merge_summary_with number other s ≡ record s {
      level = max s.level other.level;
      message = tell s.level s.message other.level other.message;
    }
unfolding merge_summary_with
merge_summary_with-tell number other s h = merge_summary-tell number other.level other.message s h

-- Merging is associative: a status that takes in two others one after the other is the one that takes
-- in the two already merged, if the numbers of the levels rise.
pub merge_summary_with_assoc :
    (number : Level → ℤ) (a b c : Status)
    → Rising number
    → merge_summary_with number c (merge_summary_with number b a)
      ≡ merge_summary_with number (merge_summary_with number c b) a
merge_summary_with_assoc number a b c h =
    rw
      (
        merge_summary_with-tell number b a h,
        merge_summary_with-tell number c b h,
        merge_summary_with-tell number _ a h,
        merge_summary_with-tell number c _ h,
        max_assoc a.level b.level c.level,
        tell_assoc a.level a.message b.level b.message c.level c.message,
      )
      refl
