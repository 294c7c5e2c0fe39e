-- ===== src/Nvram/Contents.antt =====
-- CywPackNvram of src/cyw43455/network_protocol.h as a whole: what it accepts and what it makes of it.
use rpi5_wifi_driver_win11ar.Prelude.{
  ℕ, zero, suc, ◌+◌, ◌*◌, ◌/◌, ◌%◌, ◌^◌, ◌≤◌, ◌<◌, ◌≡◌, refl, sym, ap, ◌∙◌, Bool, true, false, ◌||◌,
  List, [], ◌∷◌, ◌++◌, Option, none, some, arith, ltb, ◌==◌, if◌then◌else◌, length, length-append,
  Bool-cases, inl, inr,
}
use mathlib.Core.List.{append-nil, append_assoc}
use rpi5_wifi_driver_win11ar.Nvram.{
  scan_line, clean, is_entry, refused_entry, put_line, next_line, pack_lines, close_pack,
  pack_nvram,
}
use rpi5_wifi_driver_win11ar.Nvram.Lines.{all_text, scan_line-append}
use rpi5_wifi_driver_win11ar.Nvram.Packed.{
  is_clean_entry, all_entries, join_with, pack_lines-Written, length-entry,
}

close_pack-bounds :
    (cap : ℕ) (o : Option (List ℕ)) (out : List ℕ) (total : ℕ)
    → close_pack cap o ≡ some (out, total)
    → (o ≡ some out)
      × (total % 4 ≡ 0)
      × (length out < total)
      × (total ≤ length out + 4)
      × (total ≤ cap)
      × (total ≤ 4 * 65535)
unfolding close_pack
close_pack-bounds cap none out total e = cc
close_pack-bounds cap (some final) out total e =
    let t = (length final + 1 + 3) / 4 * 4 in
    elim (Bool-cases (length final == 0 || ltb cap (length final + 4))) [
      | inl bad ↦ cc (rw (close_pack, bad) at e)
      | inr some_entry ↦ elim (Bool-cases (ltb cap t || ltb 65535 (t / 4))) [
        | inl bad ↦ cc (rw (close_pack, some_entry, bad) at e)
        | inr fits ↦
            (let g = rw (close_pack, some_entry, fits) at e in
              let same : final ≡ out = cc g in
              let size : t ≡ total = cc g in
              let len = ap length same in
              (
                ap some same,
                omega (arith, size),
                omega (arith, size, len),
                omega (arith, size, len),
                ground (arith, fits, size),
                ground (arith, fits, size),
              ))
      ]
    ]

-- Entries that fill a buffer of `total` bytes.
pub record Contents (cap : ℕ) (out : List ℕ) (total : ℕ) : Type 0 where
  pub lines : List (List ℕ)
  pub entries : all_entries lines ≡ true
  pub joined : out ≡ join_with 0 lines
  pub whole_words : total % 4 ≡ 0
  pub ended : length out < total
  pub tight : total ≤ length out + 4
  pub within : total ≤ cap
  pub words : total ≤ 4 * 65535

-- What CywPackNvram accepts is a sequence of key=value entries of text without comments, each
-- ended by a NUL; the written size is a multiple of four, at most four bytes longer than the
-- entries, longer by one at least (so that a second NUL ends them), and within the capacity and
-- the 65535 words that the length token can tell.
pub pack_nvram-entries :
    (raw : List ℕ) (cap : ℕ) (out : List ℕ) (total : ℕ)
    → cap < 2 ^ 64
    → pack_nvram raw cap ≡ some (out, total)
    → Contents cap out total
unfolding pack_nvram
pack_nvram-entries raw cap out total small e =
    elim (Bool-cases (length raw == 0 || (ltb 16384 (length raw) || ltb cap 8))) [
      | inl bad ↦ cc (rw (pack_nvram, bad) at e)
      | inr good ↦
          (let b = close_pack-bounds cap _ out total (rw (pack_nvram, good) at e) in
            let w =
              pack_lines-Written (length raw) cap raw [] out (ground (arith, good)) small b.0 in
            record {
              lines = w.lines;
              entries = w.clean_lines;
              joined = w.added;
              whole_words = b.1;
              ended = b.2;
              tight = b.3;
              within = b.4;
              words = b.5;
            })
    ]

-- Lines that cleaning leaves as they are.
abbrev pub AllStable : List (List ℕ) → Type 0
AllStable [] = Unit {0}
AllStable (line ∷ lines) = (is_clean_entry line ≡ true) × (clean line ≡ line) × AllStable lines

put_line-stable :
    (cap : ℕ) (out line : List ℕ)
    → is_clean_entry line ≡ true
    → length out + length line + 5 ≤ cap
    → cap < 2 ^ 64
    → put_line cap out line ≡ some (out ++ (line ++ (0 ∷ [])))
unfolding put_line refused_entry is_entry
put_line-stable cap out [] ok room small = cc
put_line-stable cap out (c ∷ cs) ok room small = ground (arith, ok)

next_line-stable :
    (rounds : List ℕ → List ℕ → Option (List ℕ)) (cap : ℕ) (out line rest written : List ℕ)
    (o : Option (List ℕ × List ℕ))
    → o ≡ some (line, rest)
    → clean line ≡ line
    → put_line cap out line ≡ some written
    → next_line rounds cap out o ≡ rounds rest written
unfolding next_line
next_line-stable rounds cap out line rest written o e c w = rw (e, next_line, c, w) refl

length-join :
    (last : ℕ) (line : List ℕ) (lines : List (List ℕ))
    → length (join_with last (line ∷ lines)) ≡ length line + 1 + length (join_with last lines)
length-join last line lines = omega (
  arith,
  length-append (line ++ (last ∷ [])) (join_with last lines),
  length-append line (last ∷ []),
)

entry-all_text : (line : List ℕ) → is_clean_entry line ≡ true → all_text line ≡ true
entry-all_text line ok = ground (arith, ok)

entry-length : (line : List ℕ) → is_clean_entry line ≡ true → 1 ≤ length line
unfolding is_entry
entry-length [] ok = cc
entry-length (c ∷ cs) ok = omega arith

pack_lines-stable :
    (fuel cap : ℕ) (lines : List (List ℕ)) (out : List ℕ)
    → AllStable lines
    → length (join_with 10 lines) ≤ fuel
    → length out + length (join_with 0 lines) + 4 ≤ cap
    → cap < 2 ^ 64
    → pack_lines fuel cap (join_with 10 lines) out ≡ some (out ++ join_with 0 lines)
unfolding pack_lines
pack_lines-stable fuel cap [] out ok enough room small = ap some (sym (append-nil out))
pack_lines-stable fuel cap ([] ∷ lines) out ok enough room small =
    absurd (omega (arith, entry-length [] ok.0))
pack_lines-stable zero cap ((c ∷ cs) ∷ lines) out ok enough room small =
    absurd (omega (arith, enough, length-join 10 (c ∷ cs) lines))
pack_lines-stable (suc fuel) cap ((c ∷ cs) ∷ lines) out ok enough room small =
    let line = c ∷ cs in
    let rest = join_with 10 lines in
    let written = out ++ (line ++ (0 ∷ [])) in
    next_line-stable (pack_lines fuel cap) cap out line rest written _
      (ap scan_line (append_assoc line (10 ∷ []) rest)
        ∙ scan_line-append line rest (entry-all_text line ok.0))
      ok.1 (put_line-stable cap out line ok.0 (omega (arith, room, length-join 0 line lines)) small)
    ∙ pack_lines-stable fuel cap lines written ok.2
        (omega (arith, enough, length-join 10 line lines))
        (omega (arith, room, length-join 0 line lines, length-entry out line)) small
    ∙ ap some (append_assoc out (line ++ (0 ∷ [])) (join_with 0 lines))

unless_refused :
    (b : Bool) (x y : Option (List ℕ × ℕ)) {z : Option (List ℕ × ℕ)}
    → b ≡ false
    → y ≡ z
    → (if b then x else y) ≡ z
unless_refused true x y e h = cc
unless_refused false x y e h = h

length-ends : (lines : List (List ℕ)) → length (join_with 10 lines) ≡ length (join_with 0 lines)
length-ends [] = refl
length-ends (line ∷ lines) =
    omega (arith, length-join 10 line lines, length-join 0 line lines, length-ends lines)

close_pack-fits :
    (cap : ℕ) (out : List ℕ)
    → 1 ≤ length out
    → length out ≤ 16384
    → length out + 4 ≤ cap
    → close_pack cap (some out) ≡ some (out, (length out + 4) / 4 * 4)
unfolding close_pack
close_pack-fits cap out one few room = ground arith

-- The round trip: a file of lines that cleaning leaves as they are, each a key=value entry of 1024
-- bytes at most, is packed whole, in order, with NULs for the line ends, when the file has at most
-- 16384 bytes and the capacity is at least 8, is below 2^64, and has room for the entries and four
-- bytes.
pub pack_nvram-join :
    (line : List ℕ) (lines : List (List ℕ)) (cap : ℕ)
    → AllStable (line ∷ lines)
    → length (join_with 10 (line ∷ lines)) ≤ 16384
    → length (join_with 10 (line ∷ lines)) + 4 ≤ cap
    → 8 ≤ cap
    → cap < 2 ^ 64
    → pack_nvram (join_with 10 (line ∷ lines)) cap
      ≡ some (join_with 0 (line ∷ lines), (length (join_with 0 (line ∷ lines)) + 4) / 4 * 4)
unfolding pack_nvram
pack_nvram-join line lines cap ok few room least small =
    let all = line ∷ lines in
    let same = length-ends all in
    let one = length-join 10 line lines in
    let packed =
      pack_lines-stable (length (join_with 10 all)) cap all [] ok (omega arith)
        (omega (arith, room, same)) small in
    unless_refused _ none
      (close_pack cap (pack_lines (length (join_with 10 all)) cap (join_with 10 all) []))
      (ground (arith, few, least, one))
      (ap (close_pack cap) packed
        ∙ close_pack-fits cap (join_with 0 all) (omega (arith, one, same))
            (omega (arith, few, same)) (omega (arith, room, same)))
