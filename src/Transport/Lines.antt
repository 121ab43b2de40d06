-- ===== src/Transport/Lines.antt =====
-- The text operations of src/transport.rs on the lines that the server itself writes.
use nexus_intelli_core.Prelude.{
  ℕ, ◌<◌, true, List, [], ◌∷◌, ◌++◌, ◌≡◌, ◌≢◌, refl, ap, ◌∙◌, arith, All,
}
use nexus_intelli_core.Prelude.Text.{Text}
use nexus_intelli_core.Prelude.Decimal.RoundTrip.{IsDigit}
use nexus_intelli_core.Transport.Bytes.{
  is_utf8, utf8_after, utf8_tail, split_line, white2, white3, white_width, trim_after, trim_start,
  trim_end, trim, trim_end_matches,
}

pub split_line-append :
    (xs rest : List ℕ)
    → All (λ c. c ≢ 10) xs
    → split_line (xs ++ (10 ∷ rest)) ≡ (xs ++ (10 ∷ []), rest)
unfolding split_line
split_line-append [] rest h = refl
split_line-append (x ∷ xs) rest (h, hs) = rw (split_line-append xs rest hs) (ground arith)

pub is_utf8-ascii : (s : Text) → All (λ c. c < 128) s → is_utf8 s ≡ true
unfolding is_utf8 utf8_after utf8_tail
is_utf8-ascii [] h = refl
is_utf8-ascii (c ∷ s) (h, hs) = ground (arith, is_utf8-ascii s hs)

pub trim_end_matches-none : (b : ℕ) (s : Text) → All (λ c. c ≢ b) s → trim_end_matches b s ≡ s
unfolding trim_end_matches
trim_end_matches-none b [] h = refl
trim_end_matches-none b (c ∷ []) (h, hs) = ground arith
trim_end_matches-none b (c ∷ d ∷ s) (h, hs) = rw (trim_end_matches-none b (d ∷ s) hs) refl

pub trim_end_matches-append :
    (b : ℕ) (s : Text) → trim_end_matches b (s ++ (b ∷ [])) ≡ trim_end_matches b s
unfolding trim_end_matches
trim_end_matches-append b [] = ground arith
trim_end_matches-append b (c ∷ s) = rw (trim_end_matches-append b s) refl

white_width-digit : (d : ℕ) (s : Text) → IsDigit d → white_width (d ∷ s) ≡ 0
unfolding white_width white2 white3
white_width-digit d [] h = ground arith
white_width-digit d (a ∷ []) h = ground arith
white_width-digit d (a ∷ b ∷ s) h = ground arith

trim_after-digit : (d : ℕ) (s : Text) → IsDigit d → trim_after 0 (d ∷ s) ≡ d ∷ s
unfolding trim_after
trim_after-digit d s h = rw (white_width-digit d s h, trim_after) refl

trim_end-cons :
    (c : ℕ) (s : Text) → trim_after 0 (c ∷ s) ≡ c ∷ s → trim_end (c ∷ s) ≡ c ∷ trim_end s
unfolding trim_end trim_start
trim_end-cons c s e = rw (e, trim_end) refl

trim_end-digits : (s : Text) → All IsDigit s → trim_end s ≡ s
unfolding trim_end
trim_end-digits [] h = refl
trim_end-digits (d ∷ s) (h, hs) =
    trim_end-cons d s (trim_after-digit d s h) ∙ ap (◌∷◌ d) (trim_end-digits s hs)

trim_after-space : (s : Text) → trim_after 0 (32 ∷ s) ≡ trim_after 0 s
unfolding trim_after white_width
trim_after-space s = refl

pub trim-digits : (s : Text) → All IsDigit s → trim (32 ∷ s) ≡ s
unfolding trim trim_start trim_end trim_after
trim-digits [] h = refl
trim-digits (d ∷ s) (h, hs) =
    ap trim_end (trim_after-space (d ∷ s) ∙ trim_after-digit d s h)
    ∙ trim_end-digits (d ∷ s) (h, hs)
