-- ===== src/Naming/Path/Parse.antt =====
-- What `Buffer::from_str` accepts, against the written form of a chain.
use mathlib.Core.Path.{subst}
use rosrust.Prelude.{
  ℕ, true, ◌≡◌, ◌≢◌, ◌↔◌, inl, inr, refl, sym, ap, ◌∙◌, List, [], ◌∷◌, ◌++◌, arith, ◌==◌, ==_iff,
  Bool-cases, All, Bytes,
}
use rosrust.Naming.Path.{
  ok, Buffer, display, is_legal_char, is_legal_first_char, all_legal, process_name, process_all,
  cons_trimmed, trim_end, push_front, split_slash, after_leading, parse_words, from_str, >>=-eq-ok,
}

abbrev pub NoSlash : Bytes → Type 0
NoSlash = All (λ c. c ≢ b'/')

-- A word of a name: legal bytes, at least one of them, and no slash.
pub record IsWord (w : Bytes) : Type 0 where
  pub ne_nil : w ≢ []
  pub no_slash : NoSlash w
  pub legal : All (λ c. is_legal_char c ≡ true) w

abbrev pub IsValid : List Bytes → Type 0
IsValid = All IsWord

-- A first word with the others behind it.
abbrev pub joined : List Bytes → Bytes
joined [] = []
joined (w ∷ ws) = w ++ display ws

joined-push_front : (c : ℕ) (ws : List Bytes) → joined (push_front c ws) ≡ c ∷ joined ws
unfolding push_front display
joined-push_front c [] = refl
joined-push_front c (w ∷ ws) = refl

split_slash-ne-nil : (s : Bytes) → split_slash s ≢ []
unfolding split_slash push_front
split_slash-ne-nil [] = ground arith
split_slash-ne-nil (c ∷ cs) = ground arith

pub display-joined : (ws : List Bytes) → ws ≢ [] → display ws ≡ b'/' ∷ joined ws
unfolding display
display-joined [] h = absurd (h refl)
display-joined (w ∷ ws) h = refl

-- The words of a text, put together again, are the text.
joined-split_slash : (s : Bytes) → joined (split_slash s) ≡ s
unfolding split_slash
joined-split_slash [] = unfold display in refl
joined-split_slash (c ∷ cs) = elim (Bool-cases (c == b'/')) [
  | inl e ↦ rw e (
      display-joined (split_slash cs) (split_slash-ne-nil cs)
      ∙ ap (◌∷◌ b'/') (joined-split_slash cs)
      ∙ ap (λ d. d ∷ cs) (sym ((==_iff c b'/').0 e)))
  | inr e ↦ rw e (joined-push_front c (split_slash cs) ∙ ap (◌∷◌ c) (joined-split_slash cs))
]

push_front-NoSlash :
    (c : ℕ) (ws : List Bytes) → (c ≢ b'/') → All NoSlash ws → All NoSlash (push_front c ws)
unfolding push_front
push_front-NoSlash c [] n h = ((n, tt), tt)
push_front-NoSlash c (w ∷ ws) n h = ((n, h.0), h.1)

split_slash-NoSlash : (s : Bytes) → All NoSlash (split_slash s)
unfolding split_slash
split_slash-NoSlash [] = (tt, tt)
split_slash-NoSlash (c ∷ cs) = elim (Bool-cases (c == b'/')) [
  | inl e ↦ rw e (tt, split_slash-NoSlash cs)
  | inr e ↦ rw e (push_front-NoSlash c _ (ground arith) (split_slash-NoSlash cs))
]

-- Splitting what is written gives the words back.
split_slash-joined :
    (ws : List Bytes) (w : Bytes)
    → NoSlash w
    → All NoSlash ws
    → split_slash (w ++ display ws) ≡ w ∷ ws
unfolding split_slash push_front display
split_slash-joined [] [] h hs = refl
split_slash-joined (v ∷ ws) [] h hs = ap (◌∷◌ []) (split_slash-joined ws v hs.0 hs.1)
split_slash-joined ws (c ∷ cs) h hs = ground (arith, split_slash-joined ws cs h.1 hs, h.0)

all_legal_iff : (w : Bytes) → (all_legal w ≡ true) ↔ All (λ c. is_legal_char c ≡ true) w
unfolding all_legal
all_legal_iff [] = (λ _. tt, λ _. refl)
all_legal_iff (c ∷ cs) = (
  λ h. (ground arith, (all_legal_iff cs).0 (ground arith)),
  λ h. rw (h.0, (all_legal_iff cs).1 h.1),
)

-- A word is taken as it stands.
process_name-IsWord : {w : Bytes} → IsWord w → process_name w ≡ ok w
unfolding process_name
process_name-IsWord {w = []} h = absurd (h.ne_nil refl)
process_name-IsWord {w = c ∷ cs} h = rw ((all_legal_iff (c ∷ cs)).1 h.legal)

process_name-ok : (w : Bytes) {v : Bytes} → NoSlash w → process_name w ≡ ok v → (v ≡ w) × IsWord w
unfolding process_name
process_name-ok [] n h = cc
process_name-ok (c ∷ cs) n h = elim (Bool-cases (all_legal (c ∷ cs))) [
  | inl e ↦ (
    ground arith,
    record { ne_nil = λ e. cc; no_slash = n; legal = (all_legal_iff (c ∷ cs)).0 e },
  )
  | inr e ↦ absurd (ground arith)
]

process_all-IsValid : (ws : List Bytes) → IsValid ws → process_all ws ≡ ok ws
unfolding process_all
process_all-IsValid [] h = refl
process_all-IsValid (w ∷ ws) h = rw (process_name-IsWord h.0, process_all-IsValid ws h.1)

process_all-ok :
    (ws : List Bytes) {vs : List Bytes}
    → All NoSlash ws
    → process_all ws ≡ ok vs
    → (vs ≡ ws) × IsValid ws
unfolding process_all
process_all-ok [] n h = ground arith
process_all-ok (w ∷ ws) n h =
    let (v, named, rest) = >>=-eq-ok (process_name w) _ h in
    let (us, others, last) = >>=-eq-ok (process_all ws) _ rest in
    let (e, word) = process_name-ok w n.0 named in
    let (es, words) = process_all-ok ws n.1 others in (cc, (word, words))

IsValid-NoSlash : (ws : List Bytes) → IsValid ws → All NoSlash ws
IsValid-NoSlash [] h = tt
IsValid-NoSlash (w ∷ ws) h = (h.0.no_slash, IsValid-NoSlash ws h.1)

parse_words-display : (ws : List Bytes) → IsValid ws → parse_words (display ws) ≡ ok ws
unfolding parse_words display
parse_words-display [] h = refl
parse_words-display (w ∷ ws) h =
    rw (split_slash-joined ws w h.0.no_slash (IsValid-NoSlash ws h.1))
      (process_all-IsValid (w ∷ ws) h)

after_leading-ok :
    (s : Bytes) (ws : List Bytes) {vs : List Bytes}
    → after_leading s ws ≡ ok vs
    → (us : List Bytes) × (ws ≡ [] ∷ us) × (process_all us ≡ ok vs)
unfolding after_leading
after_leading-ok s [] h = cc
after_leading-ok s ([] ∷ us) h = (us, refl, h)
after_leading-ok s ((c ∷ w) ∷ us) h = cc

parse_words-ok :
    (s : Bytes) {ws : List Bytes} → parse_words s ≡ ok ws → IsValid ws × (display ws ≡ s)
unfolding parse_words
parse_words-ok [] {ws} h = let e : ws ≡ [] = ground arith in rw e (tt, unfold display in refl)
parse_words-ok (c ∷ cs) {ws} h = elim (Bool-cases (is_legal_first_char c)) [
  | inl first ↦
      let (us, split, named) = after_leading-ok (c ∷ cs) (split_slash (c ∷ cs)) (rw first at h) in
      let parts = subst (All NoSlash) split (split_slash-NoSlash (c ∷ cs)) in
      let (e, words) = process_all-ok us parts.1 named in
      rw e (words, rw split at (joined-split_slash (c ∷ cs)))
  | inr bad ↦ absurd (ground arith)
]

from_str-ok :
    (s : Bytes) {b : Buffer} → from_str s ≡ ok b → IsValid b.chain × (display b.chain ≡ trim_end s)
unfolding from_str
from_str-ok s {b} h =
    let (ws, parsed, e) = >>=-eq-ok (parse_words (trim_end s)) _ h in
    let same : ws ≡ b.chain = ground arith in rw (← same) (parse_words-ok (trim_end s) parsed)

from_str-display :
    (s : Bytes) (b : Buffer) → IsValid b.chain → display b.chain ≡ trim_end s → from_str s ≡ ok b
unfolding from_str
from_str-display s b h e = rw (← e, parse_words-display b.chain h)

-- A text parses to a chain exactly when the chain's words are legal and its written form is the
-- text without the slashes at its end.
pub from_str_iff :
    (s : Bytes) (b : Buffer)
    → (from_str s ≡ ok b) ↔ (IsValid b.chain × (display b.chain ≡ trim_end s))
from_str_iff s b = (from_str-ok s, λ h. from_str-display s b h.0 h.1)

trim_end-cons : (c : ℕ) (t : Bytes) → trim_end t ≡ t → c ≢ b'/' → trim_end (c ∷ t) ≡ c ∷ t
unfolding trim_end
trim_end-cons c [] e n = ground arith
trim_end-cons c (d ∷ t) e n = rw (e, cons_trimmed)

trim_end-append : (w t : Bytes) → NoSlash w → trim_end t ≡ t → trim_end (w ++ t) ≡ w ++ t
trim_end-append [] t h e = e
trim_end-append (c ∷ w) t h e = trim_end-cons c (w ++ t) (trim_end-append w t h.1 e) h.0

trim_end-slash : (t : Bytes) → trim_end t ≡ t → t ≢ [] → trim_end (b'/' ∷ t) ≡ b'/' ∷ t
unfolding trim_end
trim_end-slash [] e n = absurd (n refl)
trim_end-slash (d ∷ t) e n = rw (e, cons_trimmed)

trim_end-display : (ws : List Bytes) → IsValid ws → trim_end (display ws) ≡ display ws
unfolding display
trim_end-display [] h = unfold trim_end in refl
trim_end-display ([] ∷ ws) h = absurd (h.0.ne_nil refl)
trim_end-display ((c ∷ w) ∷ ws) h =
    trim_end-slash _ (trim_end-append (c ∷ w) _ h.0.no_slash (trim_end-display ws h.1)) (λ e. cc)

-- A chain of legal words is read back from its written form.
pub from_str-display_valid : (b : Buffer) → IsValid b.chain → from_str (display b.chain) ≡ ok b
from_str-display_valid b h = from_str-display _ b h (sym (trim_end-display b.chain h))
