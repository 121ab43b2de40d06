-- ===== src/Linter/Masking.antt =====
-- What the masking of src/linter/level1.rs keeps of a line.
use nexus_intelli_core.Prelude.{
  ℕ, Bool, true, false, not, ◌&&◌, ◌||◌, [], ◌∷◌, map, ◌==◌, inl, inr, Bool-cases,
}
use nexus_intelli_core.Prelude.Text.{Text}
use nexus_intelli_core.Transport.Bytes.{is_utf8}
use nexus_intelli_core.Linter.{blank, is_line_comment_start, mask, sanitized_line_for_matching}

-- Each byte is the original one or a blank.
pub data Masks : Text → Text → Type 0 where
  same_end : Masks [] []
  kept : {c : ℕ} {s m : Text} → Masks s m → Masks (c ∷ s) (c ∷ m)
  blanked : {c : ℕ} {s m : Text} → Masks s m → Masks (c ∷ s) (blank ∷ m)

all_blanked : (s : Text) → Masks s (map (λ _. blank) s)
all_blanked [] = same_end
all_blanked (c ∷ s) = blanked (all_blanked s)

same_text : (s : Text) → Masks s s
same_text [] = same_end
same_text (c ∷ s) = kept (same_text s)

mask-Masks :
    (language : Text) (in_single in_double escape : Bool) (s : Text)
    → Masks s (mask language in_single in_double escape s)
unfolding mask
mask-Masks language in_single in_double escape [] = same_end
mask-Masks language true in_double escape (c ∷ s) = blanked (mask-Masks language _ _ _ s)
mask-Masks language false true escape (c ∷ s) = blanked (mask-Masks language _ _ _ s)
mask-Masks language false false escape (c ∷ s) =
    let rest = mask-Masks language (c == 39) (not (c == 39) && c == 34) escape s in
    elim (Bool-cases (is_line_comment_start language (c ∷ s))) [
      | inl comment ↦ rw comment (all_blanked (c ∷ s))
      | inr code ↦ elim (Bool-cases (c == 39 || c == 34)) [
        | inl quote ↦ rw (code, mask, quote) (blanked rest)
        | inr plain ↦ rw (code, mask, plain) (kept rest)
      ]
    ]

-- The line that is searched has the length of the original line, and each byte of it is the
-- original one at that place or a blank.
pub sanitized_line_for_matching-Masks :
    (line language : Text) → Masks line (sanitized_line_for_matching line language)
unfolding sanitized_line_for_matching
sanitized_line_for_matching-Masks line language =
    elim (Bool-cases (is_utf8 (mask language false false false line))) [
      | inl valid ↦ rw valid (mask-Masks language false false false line)
      | inr broken ↦ rw broken (same_text line)
    ]
