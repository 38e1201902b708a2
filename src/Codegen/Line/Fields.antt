-- ===== src/Codegen/Line/Fields.antt =====
-- A line that describes a field is read as that field.
use rosrust.Prelude.{
  none, some, ℕ, ◌≡◌, refl, sym, ap, ◌∙◌, Bool, false, [], ◌∷◌, ◌++◌, All, Bool-cases, inl, inr,
  ◌==◌, codes, equal, append_assoc, append-nil,
}
use rosrust.Codegen.Scan.{
  Text, ◌>>=◌, symbol, is_space, is_type, is_name, trim, trim_end, before, field_name,
}
use rosrust.Codegen.Scan.Laws.{Stops, AllOf, after_run-append}
use rosrust.Codegen.Field.{unit}
use rosrust.Codegen.Line.{
  line, new, match_field, match_const_string, word, matches, match_stripped, match_line,
  strip_useless,
}
use rosrust.Codegen.Line.Reads.{
  Word, IsName, IsComment, type_taken, spaces_taken, any_taken, name_taken, space_apart,
  letter_apart, hash_apart, space_no_hash, type_no_space, space_no_name, name_is_type,
  letter_is_type, All-weaken, before-append, trim_end-no_space, trim_end-append, trim_end-spaces,
}

name-AllOf : (n : Text) → IsName n → AllOf is_type n
name-AllOf [] h = elim h [ ]
name-AllOf (c ∷ n) h = (letter_is_type c h.0, All-weaken n name_is_type h.1)

Word-AllOf : (class : ℕ → Bool) (t : Text) → Word class t → AllOf class t
Word-AllOf class [] h = elim h [ ]
Word-AllOf class (c ∷ t) h = h

no_hash : (t : Text) → AllOf is_type t → All (λ c. (c == b'#') ≡ false) t
no_hash t h = All-weaken t hash_apart h

space-Stops : (t rest : Text) → Word is_space t → Stops is_type (t ++ rest)
space-Stops [] rest h = elim h [ ]
space-Stops (c ∷ t) rest h = space_apart c h.0

name-Stops : (n rest : Text) → IsName n → Stops is_space (n ++ rest)
name-Stops [] rest h = elim h [ ]
name-Stops (c ∷ n) rest h = letter_apart c h.0

type-Stops : (t rest : Text) → Word is_type t → Stops is_space (t ++ rest)
type-Stops [] rest h = elim h [ ]
type-Stops (c ∷ t) rest h = type_no_space c h.0

comment_space : (c : ℕ) → c ≡ b'#' → is_space c ≡ false
unfolding is_space
comment_space c h = rw h refl

comment_name : (c : ℕ) → c ≡ b'#' → is_name c ≡ false
comment_name c h = rw h (unfold is_name in refl)

comment-Stops : (co : Text) → IsComment co → Stops is_space co
comment-Stops [] h = tt
comment-Stops (c ∷ co) h = comment_space c h

tail-Stops : (gap co : Text) → AllOf is_space gap → IsComment co → Stops is_name (gap ++ co)
tail-Stops [] [] h k = tt
tail-Stops [] (c ∷ co) h k = comment_name c k
tail-Stops (c ∷ gap) co h k = space_no_name c h.0

before_comment : (co : Text) → IsComment co → before b'#' co ≡ []
unfolding before
before_comment [] h = refl
before_comment (c ∷ co) h = rw (before, h) refl

-- What trimming leaves of the spaces and the comment at the end of a line.
trim_tail :
    (gap co : Text)
    → AllOf is_space gap
    → IsComment co
    → (gap' co' : Text) × (trim_end (gap ++ co) ≡ gap' ++ co') × AllOf is_space gap' × IsComment co'
trim_tail gap [] h k = ([], [], ap trim_end (append-nil gap) ∙ trim_end-spaces gap h, tt, tt)
trim_tail gap (c ∷ co) h k =
    (gap, c ∷ trim_end co, trim_end-append gap c co (comment_space c k), h, k)

trim_name :
    (xs n rest : Text) → IsName n → trim_end (xs ++ (n ++ rest)) ≡ xs ++ (n ++ trim_end rest)
trim_name xs [] rest h = elim h [ ]
trim_name xs (c ∷ n) rest h =
    trim_end-append xs c (n ++ rest) (letter_apart c h.0)
    ∙ ap (λ m. xs ++ (c ∷ m))
        (trim_end-no_space n rest (All-weaken n (λ d g. type_no_space d (name_is_type d g)) h.1))

no_sign : (co : Text) → IsComment co → symbol b'=' co ≡ none
no_sign [] h = refl
no_sign (c ∷ co) h = rw h refl

module _ (t sp n : Text) (ht : Word is_type t) (hs : Word is_space sp) (hn : IsName n) where
  body : Text → Text
  body rest = t ++ (sp ++ (n ++ rest))

  trim_body : (rest : Text) → trim_end (body rest) ≡ body (trim_end rest)
  unfolding body
  trim_body rest =
      ap trim_end (sym (append_assoc t sp (n ++ rest)))
      ∙ (trim_name (t ++ sp) n rest hn ∙ append_assoc t sp (n ++ trim_end rest))

  trim_line :
      (lead rest : Text) → AllOf is_space lead → trim (lead ++ body rest) ≡ body (trim_end rest)
  unfolding trim body
  trim_line lead rest h =
      ap trim_end
        (after_run-append is_space lead (body rest) h (type-Stops t (sp ++ (n ++ rest)) ht))
      ∙ trim_body rest

  no_const :
      (gap co : Text)
      → AllOf is_space gap
      → IsComment co
      → match_const_string (body (gap ++ co)) ≡ none
  unfolding match_const_string body word
  no_const gap co h k =
      let one = type_taken t (sp ++ (n ++ (gap ++ co))) ht (space-Stops sp (n ++ (gap ++ co)) hs) in
      let two = spaces_taken sp (n ++ (gap ++ co)) hs (name-Stops n (gap ++ co) hn) in
      let three = name_taken n (gap ++ co) hn (tail-Stops gap co h k) in
      let four = any_taken gap co h (comment-Stops co k) in
      elim (Bool-cases (equal t (codes "string"))) [
        | inr e ↦ rw (match_const_string, matches, word, ◌>>=◌, one, e) refl
        | inl e ↦
            rw (match_const_string, matches, word, ◌>>=◌, one, e, two, three, four, no_sign co k)
              refl
      ]

  match_field_body : match_field (t ++ (sp ++ n)) ≡ some (line t n)
  unfolding match_field
  match_field_body =
      let one = type_taken t (sp ++ n) ht (space-Stops sp n hs) in
      let two = spaces_taken sp n hs (nil-Stops (name-Stops n [] hn)) in
      let three = ap field_name (sym (append-nil n)) ∙ name_taken n [] hn tt in
      rw (match_field, matches, ◌>>=◌, one, two, three) refl
    where
      nil-Stops : Stops is_space (n ++ []) → Stops is_space n
      nil-Stops h = rw (append-nil n) at h

  strip_body :
      (lead gap co : Text)
      → AllOf is_space lead
      → AllOf is_space gap
      → IsComment co
      → strip_useless (lead ++ body (gap ++ co)) ≡ t ++ (sp ++ n)
  unfolding strip_useless body
  strip_body lead gap co hl h k =
      let cut : before b'#' (lead ++ body (gap ++ co)) ≡ lead ++ body gap =
        before-append b'#' lead _ (All-weaken lead space_no_hash hl)
        ∙ ap (◌++◌ lead) (
            before-append b'#' t _ (no_hash t (Word-AllOf is_type t ht))
            ∙ ap (◌++◌ t) (
                before-append b'#' sp _ (All-weaken sp space_no_hash (Word-AllOf is_space sp hs))
                ∙ ap (◌++◌ sp) (
                    before-append b'#' n _ (no_hash n (name-AllOf n hn))
                    ∙ ap (◌++◌ n) (
                        before-append b'#' gap co (All-weaken gap space_no_hash h)
                        ∙ (ap (◌++◌ gap) (before_comment co k) ∙ append-nil gap))))) in
      ap trim cut
      ∙ (trim_line lead gap hl
          ∙ (ap body (trim_end-spaces gap h) ∙ ap (λ m. t ++ (sp ++ m)) (append-nil n)))

  stripped : match_stripped (t ++ (sp ++ n)) ≡ some (new t n unit)
  unfolding match_stripped
  stripped = go t ht match_field_body
    where
      go :
          (u : Text)
          → Word is_type u
          → match_field (u ++ (sp ++ n)) ≡ some (line t n)
          → match_stripped (u ++ (sp ++ n)) ≡ some (new t n unit)
      go [] h m = elim h [ ]
      go (c ∷ u) h m = rw (match_stripped, m) refl

  -- A line that names a type and a field is read as that field, whatever spaces stand before, between
  -- and after the two and whatever comment ends it.
  pub match_line-unit :
      (lead gap co : Text)
      → AllOf is_space lead
      → AllOf is_space gap
      → IsComment co
      → match_line (lead ++ (t ++ (sp ++ (n ++ (gap ++ co))))) ≡ some (new t n unit)
  unfolding match_line body
  match_line-unit lead gap co hl h k =
      let tail = trim_tail gap co h k in
      let const : match_const_string (trim (lead ++ body (gap ++ co))) ≡ none =
        ap match_const_string (trim_line lead (gap ++ co) hl ∙ ap body tail.2)
        ∙ no_const tail.0 tail.1 tail.3 tail.4 in
      rw (match_line, const, strip_body lead gap co hl h k) stripped
