-- ===== src/Privacy/Bodies.antt =====
-- src/sanitizer.rs: the removal of function bodies. Offsets count bytes.
use nexus_intelli_core.Prelude.{
  ℕ, suc, ◌+◌, ◌-◌, Bool, true, false, ◌||◌, List, [], ◌∷◌, ◌++◌, length, take, drop, any, Option,
  none, some, ◌==◌, ltb, ◌≡◌, refl, sym, ◌∙◌, inl, inr, Bool-cases, append_assoc, arith,
  if◌then◌else◌, take-length_append, drop-length_append, length-append, reverse,
}
use nexus_intelli_core.Prelude.Text.{Text, codes, text_eq}
use nexus_intelli_core.Transport.Bytes.{is_utf8, trim, trim_end}
use nexus_intelli_core.Linter.{lines}
use nexus_intelli_core.Privacy.Config.{is_empty}

abbrev hash_languages : List Text
hash_languages =
    codes "python" ∷ codes "ruby" ∷ codes "shell" ∷ codes "bash" ∷ codes "yaml" ∷ codes "yml" ∷ []

-- `str::find` of a byte.
unfoldable pub find_byte : ℕ → Text → Option ℕ
find_byte b [] = none
find_byte b (x ∷ s) =
    let rest = find_byte b s in
    if x == b then some 0 else elim rest [ none ↦ none | some n ↦ some (suc n) ]

-- `str::rfind` of a byte.
unfoldable pub rfind_byte : ℕ → Text → Option ℕ
rfind_byte b [] = none
rfind_byte b (x ∷ s) = elim (rfind_byte b s) [
  | some n ↦ some (suc n)
  | none ↦ if x == b then some 0 else none
]

unfoldable pub take_blanks : Text → Text
take_blanks [] = []
take_blanks (x ∷ s) = let rest = take_blanks s in if x == 32 || x == 9 then x ∷ rest else []

unfoldable pub first_indent : List Text → Option Text
unfolding take_blanks
first_indent [] = none
first_indent (line ∷ ls) =
    let rest = first_indent ls in if is_empty (trim line) then rest else some (take_blanks line)

unfoldable pub indentation_from_body_slice : Text → Option Text
unfolding first_indent
indentation_from_body_slice body = first_indent (lines body)

unfoldable pub last_indent : List Text → Text
unfolding take_blanks
last_indent [] = []
last_indent (line ∷ []) = take_blanks line
last_indent (line ∷ next ∷ ls) = last_indent (next ∷ ls)

unfoldable pub indentation_after_signature : Text → Text
unfolding last_indent
indentation_after_signature before = last_indent (lines before) ++ codes "    "

-- `str::from_utf8(...).unwrap_or(...)`.
unfoldable pub utf8_or : Text → Text → Text
utf8_or bytes default = if is_utf8 bytes then bytes else default

-- `trim_end().ends_with('{')`.
unfoldable pub opens_brace : Text → Bool
opens_brace before = elim (reverse (trim_end before)) [ [] ↦ false | b ∷ _ ↦ b == 123 ]

unfoldable pub or_indent : Option Text → Text → Text
or_indent none indent = indent
or_indent (some found) indent = found

module _ (to_lowercase : Text → Text) where
  unfoldable pub comment_style : Text → Text
  comment_style lang =
      if any (text_eq (to_lowercase lang)) hash_languages then codes "#" else codes "//"

  unfoldable pub replace_body : (before body after language placeholder : Text) → Text
  unfolding indentation_after_signature indentation_from_body_slice opens_brace comment_style
      or_indent
  replace_body before body after language placeholder =
      if text_eq language (codes "python")
      then (let indent =
            or_indent (indentation_from_body_slice body) (indentation_after_signature before) in
          before
          ++ indent
          ++ codes "# ["
          ++ placeholder
          ++ codes "]"
          ++ 10 ∷ indent
          ++ codes "pass"
          ++ after)
      else (let indent = indentation_after_signature before in
          if opens_brace before
          then before ++ 10 ∷ indent ++ codes "/* " ++ placeholder ++ codes " */" ++ 10 ∷ after
          else before
            ++ 10 ∷ indent
            ++ comment_style language
            ++ codes " ["
            ++ placeholder
            ++ codes "]"
            ++ 10 ∷ after)

  unfoldable pub strip_body_by_range : Text → ℕ × ℕ → Text → Text → Text
  unfolding utf8_or replace_body
  strip_body_by_range source (start, end) language placeholder =
      if ltb (length source) start || (ltb (length source) end || ltb end start)
      then source
      else replace_body (utf8_or (take start source) source)
          (utf8_or (take (end - start) (drop start source)) []) (utf8_or (drop end source) [])
          language placeholder

  unfoldable pub strip_braces : Text → Text → Text → Option ℕ → Option ℕ → Text
  unfolding strip_body_by_range
  strip_braces code language placeholder none close = code
  strip_braces code language placeholder (some opened) close =
      let close = elim close as (λ _. ℕ) [ none ↦ length code | some n ↦ n ] in
      if ltb opened close
      then strip_body_by_range code (opened + 1, close) language placeholder
      else code

  unfoldable pub strip_function_body_with_placeholder : Text → Text → Text → Text
  unfolding strip_body_by_range strip_braces find_byte rfind_byte
  strip_function_body_with_placeholder code language placeholder =
      if text_eq language (codes "python")
      then (elim (find_byte 10 code) [
        | none ↦ code
        | some pos ↦ strip_body_by_range code (pos + 1, length code) language placeholder
      ])
      else strip_braces code language placeholder (find_byte 123 code) (rfind_byte 125 code)

  diff : (m n : ℕ) → (m + n) - m ≡ n
  diff m n = omega arith

  utf8_or-yes : (t d : Text) → is_utf8 t ≡ true → utf8_or t d ≡ t
  unfolding utf8_or
  utf8_or-yes t d h = rw h refl

  drop-both : (s t u : Text) → drop (length s + length t) (s ++ (t ++ u)) ≡ u
  drop-both s t u =
      rw (sym (length-append s t), sym (append_assoc s t u)) (drop-length_append (s ++ t) u)

  in_range :
      (s t u : Text)
      → (ltb (length (s ++ (t ++ u))) (length s)
          || (ltb (length (s ++ (t ++ u))) (length s + length t)
              || ltb (length s + length t) (length s)))
        ≡ false
  in_range s t u = rw (length-append s (t ++ u), length-append t u) (ground arith)

  -- An out-of-range pair of offsets leaves the source as it is.
  strip_body_by_range-out :
      (source : Text) (start end : ℕ) (language placeholder : Text)
      → (ltb (length source) start || (ltb (length source) end || ltb end start)) ≡ true
      → strip_body_by_range source (start, end) language placeholder ≡ source
  unfolding strip_body_by_range
  strip_body_by_range-out source start end language placeholder h = rw h refl

  strip_body_by_range-in :
      (before body after language placeholder : Text)
      → is_utf8 before ≡ true
      → is_utf8 body ≡ true
      → is_utf8 after ≡ true
      → strip_body_by_range
          (before ++ (body ++ after))
          (length before, length before + length body)
          language
          placeholder
        ≡ replace_body before body after language placeholder
  unfolding strip_body_by_range
  strip_body_by_range-in before body after language placeholder hb h ha =
      let rest = body ++ after in
      rw (in_range before body after) (
        rw
          (
            take-length_append before rest,
            drop-length_append before rest,
            diff (length before) (length body),
            take-length_append body after,
            drop-both before body after,
          )
          (rw (utf8_or-yes before _ hb, utf8_or-yes body _ h, utf8_or-yes after _ ha) refl))

  replace_body-hides :
      (before body other after language placeholder : Text)
      → (text_eq language (codes "python") ≡ true
          → indentation_from_body_slice body ≡ indentation_from_body_slice other)
      → replace_body before body after language placeholder
        ≡ replace_body before other after language placeholder
  unfolding replace_body
  replace_body-hides before body other after language placeholder same =
      elim (Bool-cases (text_eq language (codes "python"))) [
        | inl h ↦ rw (same h) refl
        | inr h ↦ rw h refl
      ]

  -- What stands where a body stood does not depend on the body, for offsets at the bounds of
  -- characters; in Python only the indentation of its first line that is not blank shows.
  pub strip_body_by_range-hides :
      (before body other after language placeholder : Text)
      → is_utf8 before ≡ true
      → is_utf8 body ≡ true
      → is_utf8 other ≡ true
      → is_utf8 after ≡ true
      → (text_eq language (codes "python") ≡ true
          → indentation_from_body_slice body ≡ indentation_from_body_slice other)
      → strip_body_by_range
          (before ++ (body ++ after))
          (length before, length before + length body)
          language
          placeholder
        ≡ strip_body_by_range
            (before ++ (other ++ after))
            (length before, length before + length other)
            language
            placeholder
  strip_body_by_range-hides before body other after language placeholder hb h ho ha same =
      strip_body_by_range-in before body after language placeholder hb h ha
      ∙ (replace_body-hides before body other after language placeholder same
          ∙ sym (strip_body_by_range-in before other after language placeholder hb ho ha))
