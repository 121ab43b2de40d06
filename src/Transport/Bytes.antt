-- ===== src/Transport/Bytes.antt =====
-- What src/transport.rs uses of the standard library's texts: UTF-8 validity, lines, white space
-- by Unicode's property, and splitting at a byte.
use nexus_intelli_core.Prelude.{
  ℕ, zero, suc, Bool, true, false, ◌&&◌, ◌||◌, List, [], ◌∷◌, Option, none, some, leb, ltb, ◌==◌,
  if◌then◌else◌,
}
use nexus_intelli_core.Prelude.Text.{Text}

-- The ranges of the bytes that continue a character after its first byte.
unfoldable pub utf8_tail : ℕ → Option (List (ℕ × ℕ))
utf8_tail a =
    if ltb a 128
    then some []
    else if leb 194 a && leb a 223
    then some ((128, 191) ∷ [])
    else if a == 224
    then some ((160, 191) ∷ (128, 191) ∷ [])
    else if a == 237
    then some ((128, 159) ∷ (128, 191) ∷ [])
    else if leb 225 a && leb a 239
    then some ((128, 191) ∷ (128, 191) ∷ [])
    else if a == 240
    then some ((144, 191) ∷ (128, 191) ∷ (128, 191) ∷ [])
    else if leb 241 a && leb a 243
    then some ((128, 191) ∷ (128, 191) ∷ (128, 191) ∷ [])
    else if a == 244
    then some ((128, 143) ∷ (128, 191) ∷ (128, 191) ∷ [])
    else none

unfoldable pub utf8_after : List (ℕ × ℕ) → Text → Bool
unfolding utf8_tail
utf8_after [] [] = true
utf8_after (_ ∷ _) [] = false
utf8_after [] (a ∷ s) = elim (utf8_tail a) [ none ↦ false | some rs ↦ utf8_after rs s ]
utf8_after ((low, high) ∷ rs) (a ∷ s) = (leb low a && leb a high) && utf8_after rs s

unfoldable pub is_utf8 : Text → Bool
unfolding utf8_after
is_utf8 s = utf8_after [] s

-- The bytes through the first line feed, or all of them, and what follows.
unfoldable pub split_line : List ℕ → Text × List ℕ
split_line [] = ([], [])
split_line (c ∷ s) =
    let (line, rest) = split_line s in if c == 10 then (c ∷ [], s) else (c ∷ line, rest)

-- The number of bytes of the white space character in front, 0 if there is none.
unfoldable pub white2 : ℕ → Text → Bool
white2 a [] = false
white2 a (b ∷ s) = a == 194 && (b == 133 || b == 160)

unfoldable pub white3 : ℕ → Text → Bool
white3 a [] = false
white3 a (b ∷ []) = false
white3 a (b ∷ c ∷ s) =
    (a == 225 && (b == 154 && c == 128))
    || (a == 226
        && ((b == 128 && ((leb 128 c && leb c 138) || (c == 168 || (c == 169 || c == 175))))
            || (b == 129 && c == 159)))
    || (a == 227 && (b == 128 && c == 128))

unfoldable pub white_width : Text → ℕ
unfolding white2 white3
white_width [] = 0
white_width (a ∷ s) =
    if (leb 9 a && leb a 13) || a == 32
    then 1
    else if white2 a s
    then 2
    else if white3 a s
    then 3
    else 0

-- The first argument counts the bytes still to be dropped.
unfoldable pub trim_after : ℕ → Text → Text
unfolding white_width
trim_after n [] = []
trim_after (suc n) (c ∷ s) = trim_after n s
trim_after zero (c ∷ s) = elim (white_width (c ∷ s)) [ zero ↦ c ∷ s | suc n ↦ trim_after n s ]

unfoldable pub trim_start : Text → Text
unfolding trim_after
trim_start s = trim_after 0 s

unfoldable pub trim_end : Text → Text
unfolding trim_start
trim_end [] = []
trim_end (c ∷ s) = let rest = trim_end s in elim (trim_start (c ∷ s)) [ [] ↦ [] | _ ∷ _ ↦ c ∷ rest ]

unfoldable pub trim : Text → Text
unfolding trim_start trim_end
trim s = trim_end (trim_start s)

-- `trim_end_matches` of one byte.
unfoldable pub trim_end_matches : ℕ → Text → Text
trim_end_matches b [] = []
trim_end_matches b (c ∷ s) = elim (trim_end_matches b s) [
  | [] ↦ if c == b then [] else c ∷ []
  | d ∷ ds ↦ c ∷ d ∷ ds
]

-- `split_once` of one byte.
unfoldable pub split_once : ℕ → Text → Option (Text × Text)
split_once b [] = none
split_once b (c ∷ s) =
    let rest = split_once b s in
    if c == b then some ([], s) else elim rest [ none ↦ none | some (l, r) ↦ some (c ∷ l, r) ]
