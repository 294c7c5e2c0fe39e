-- ===== src/Nvram.antt =====
-- CywPackNvram of src/cyw43455/network_protocol.h: the text of the NVRAM file without comments and
-- blank lines, as key=value entries that end in NUL.
pub mod Lines
pub mod Packed
pub mod Contents
mod Tests
use rpi5_wifi_driver_win11ar.Prelude.{
  ℕ, zero, suc, ◌+◌, ◌*◌, ◌/◌, Bool, true, false, not, ◌&&◌, ◌||◌, List, [], ◌∷◌, ◌++◌, Option,
  none, some, ltb, leb, ◌==◌, ◌!=◌, if◌then◌else◌, length, sub64,
}

-- A byte that may stand in the file, besides the end of a line.
unfoldable pub is_text : ℕ → Bool
is_text c = c == 13 || (c == 9 || (leb 32 c && leb c 126))

-- The first loop: a line, and what follows its end; `none` is a byte that may not stand there.
unfoldable pub cons_char : ℕ → Option (List ℕ × List ℕ) → Option (List ℕ × List ℕ)
cons_char c none = none
cons_char c (some (line, rest)) = some (c ∷ line, rest)

unfoldable pub scan_line : List ℕ → Option (List ℕ × List ℕ)
scan_line [] = some ([], [])
scan_line (c ∷ cs) =
    let later = scan_line cs in
    if c == 10 then some ([], cs) else if is_text c then cons_char c later else none

-- Leading blanks, the comment, and trailing blanks go.
unfoldable pub skip_blanks : List ℕ → List ℕ
skip_blanks [] = []
skip_blanks (c ∷ cs) = let later = skip_blanks cs in if c == 32 || c == 9 then later else c ∷ cs

unfoldable pub cut_comment : List ℕ → List ℕ
cut_comment [] = []
cut_comment (c ∷ cs) = let later = cut_comment cs in if c == 35 then [] else c ∷ later

unfoldable pub trim_end : List ℕ → List ℕ
trim_end [] = []
trim_end (c ∷ cs) =
    let later = trim_end cs in
    if (c == 32 || (c == 13 || c == 9)) && length later == 0 then [] else c ∷ later

unfoldable pub clean : List ℕ → List ℕ
clean line = trim_end (cut_comment (skip_blanks line))

-- The search for `=`: `eq==end` is an entry without it, `eq==start` one without a key.
unfoldable pub contains_equals : List ℕ → Bool
contains_equals [] = false
contains_equals (c ∷ cs) = c == 61 || contains_equals cs

unfoldable pub is_entry : List ℕ → Bool
is_entry [] = false
is_entry (c ∷ cs) = c != 61 && contains_equals (c ∷ cs)

unfoldable pub refused_entry : ℕ → ℕ → List ℕ → Bool
refused_entry cap used line =
    not (is_entry line)
    || (ltb 1024 (length line) || ltb (sub64 (sub64 cap used) 4) (length line + 1))

-- One line of the file; `out` is what was written, `used` its length.
unfoldable pub put_line : ℕ → List ℕ → List ℕ → Option (List ℕ)
put_line cap out line =
    if length line == 0
    then some out
    else if refused_entry cap (length out) line
    then none
    else some (out ++ (line ++ (0 ∷ [])))

-- `while(i<size)`; a round takes a line at least, so the size is enough.
unfoldable pub next_line :
    (List ℕ → List ℕ → Option (List ℕ)) → ℕ → List ℕ → Option (List ℕ × List ℕ) → Option (List ℕ)
next_line rounds cap out none = none
next_line rounds cap out (some (line, rest)) = elim (put_line cap out (clean line)) [
  | none ↦ none
  | some written ↦ rounds rest written
]

unfoldable pub pack_lines : ℕ → ℕ → List ℕ → List ℕ → Option (List ℕ)
pack_lines fuel cap [] out = some out
pack_lines zero cap (c ∷ cs) out = none
pack_lines (suc fuel) cap (c ∷ cs) out =
    next_line (pack_lines fuel cap) cap out (scan_line (c ∷ cs))

-- The end: one more NUL, and padding to whole words.
unfoldable pub close_pack : ℕ → Option (List ℕ) → Option (List ℕ × ℕ)
close_pack cap none = none
close_pack cap (some out) =
    let total = (length out + 1 + 3) / 4 * 4 in
    if length out == 0 || ltb cap (length out + 4)
    then none
    else if ltb cap total || ltb 65535 (total / 4)
    then none
    else some (out, total)

-- CywPackNvram: the entries written, with zeros after them, and `*written`.
unfoldable pub pack_nvram : List ℕ → ℕ → Option (List ℕ × ℕ)
pack_nvram raw cap =
    if length raw == 0 || (ltb 16384 (length raw) || ltb cap 8)
    then none
    else close_pack cap (pack_lines (length raw) cap raw [])
