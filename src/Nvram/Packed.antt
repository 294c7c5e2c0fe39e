-- ===== src/Nvram/Packed.antt =====
-- What CywPackNvram of src/cyw43455/network_protocol.h writes.
use rpi5_wifi_driver_win11ar.Prelude.{
  ℕ, zero, suc, ◌+◌, ◌^◌, ◌⊎◌, ◌≤◌, ◌<◌, ◌≡◌, refl, sym, ap, ◌∙◌, subst, Bool, true, false, ◌&&◌,
  List, [], ◌∷◌, ◌++◌, Option, none, some, arith, leb, ◌==◌, length, length-append, Bool-cases, inl,
  inr, Option-cases,
}
use mathlib.Core.List.{append-nil, append_assoc}
use rpi5_wifi_driver_win11ar.Nvram.{
  scan_line, clean, is_entry, refused_entry, put_line, next_line, pack_lines,
}
use rpi5_wifi_driver_win11ar.Nvram.Lines.{all_text, no_comment, scan_line-Scanned, clean-all_text}

-- An entry as the radio reads it: text with a key and `=`, no comment, 1024 bytes at most.
abbrev pub is_clean_entry : List ℕ → Bool
is_clean_entry line =
    all_text line && (no_comment line && (is_entry line && leb (length line) 1024))

abbrev pub all_entries : List (List ℕ) → Bool
all_entries [] = true
all_entries (line ∷ lines) = is_clean_entry line && all_entries lines

-- The entries one after the other, each with an end.
abbrev pub join_with : ℕ → List (List ℕ) → List ℕ
join_with last [] = []
join_with last (line ∷ lines) = (line ++ (last ∷ [])) ++ join_with last lines

good_entry :
    (cap used : ℕ) (line : List ℕ)
    → used + 4 ≤ cap
    → cap < 2 ^ 64
    → refused_entry cap used line ≡ false
    → (is_entry line ≡ true) × (length line ≤ 1024) × (used + length line + 1 + 4 ≤ cap)
unfolding refused_entry
good_entry cap used line room small e = ground (arith, e)

pub length-entry :
    (out line : List ℕ) → length (out ++ (line ++ (0 ∷ []))) ≡ length out + length line + 1
length-entry out line =
    omega (arith, length-append out (line ++ (0 ∷ [])), length-append line (0 ∷ []))

-- What one line adds: nothing, or one entry that fits.
put_line-cases :
    (cap : ℕ) (out line written : List ℕ)
    → all_text line ≡ true
    → no_comment line ≡ true
    → length out + 4 ≤ cap
    → cap < 2 ^ 64
    → put_line cap out line ≡ some written
    → (length written + 4 ≤ cap)
      × ((written ≡ out) ⊎ ((is_clean_entry line ≡ true) × (written ≡ out ++ (line ++ (0 ∷ [])))))
unfolding put_line
put_line-cases cap out line written t n room small e = elim (Bool-cases (length line == 0)) [
  | inl blank ↦
      (let same : out ≡ written = cc (rw (put_line, blank) at e) in
        (subst (λ x. length x + 4 ≤ cap) same room, inl (sym same)))
  | inr more ↦ elim (Bool-cases (refused_entry cap (length out) line)) [
    | inl bad ↦ cc (rw (put_line, more, bad) at e)
    | inr good ↦
        (let made : out ++ (line ++ (0 ∷ [])) ≡ written = cc (rw (put_line, more, good) at e) in
          let g = good_entry cap (length out) line room small good in
          (
            subst (λ x. length x + 4 ≤ cap) made (omega (arith, g.2, length-entry out line)),
            inr (ground (arith, t, n, g), sym made),
          ))
  ]
]

-- What the loop adds: the entries of some lines, with room for four bytes.
pub record Written (cap : ℕ) (out final : List ℕ) : Type 0 where
  pub lines : List (List ℕ)
  pub clean_lines : all_entries lines ≡ true
  pub added : final ≡ out ++ join_with 0 lines
  pub room : length final + 4 ≤ cap

Written-put :
    (cap : ℕ) (out line written final : List ℕ)
    → (written ≡ out) ⊎ ((is_clean_entry line ≡ true) × (written ≡ out ++ (line ++ (0 ∷ []))))
    → Written cap written final
    → Written cap out final
Written-put cap out line written final (inl same) w = subst (λ x. Written cap x final) same w
Written-put cap out line written final (inr (ok, made)) w = record {
  lines = line ∷ w.lines;
  clean_lines = ground (arith, ok, w.clean_lines);
  added =
      w.added
      ∙ ap (λ x. x ++ join_with 0 w.lines) made
      ∙ append_assoc out (line ++ (0 ∷ [])) (join_with 0 w.lines);
  room = w.room;
}

next_line-Written :
    (cap : ℕ) (raw out final : List ℕ) (rounds : List ℕ → List ℕ → Option (List ℕ))
    (o : Option (List ℕ × List ℕ))
    → length out + 4 ≤ cap
    → cap < 2 ^ 64
    → scan_line raw ≡ o
    → ((rest written : List ℕ)
        → length written + 4 ≤ cap
        → rounds rest written ≡ some final
        → Written cap written final)
    → next_line rounds cap out o ≡ some final
    → Written cap out final
unfolding next_line
next_line-Written cap raw out final rounds none room small s f e = cc
next_line-Written cap raw out final rounds (some (line, rest)) room small s f e =
    let text = clean-all_text line (scan_line-Scanned raw line rest s).text in
    elim (Option-cases (put_line cap out (clean line))) [
      | inl bad ↦ cc (rw (next_line, bad) at e)
      | inr (written, w) ↦
          (let k = put_line-cases cap out (clean line) written text.0 text.1 room small w in
            Written-put cap out (clean line) written final k.1
              (f rest written k.0 (rw (next_line, w) at e)))
    ]

pub pack_lines-Written :
    (fuel cap : ℕ) (raw out final : List ℕ)
    → length out + 4 ≤ cap
    → cap < 2 ^ 64
    → pack_lines fuel cap raw out ≡ some final
    → Written cap out final
unfolding pack_lines
pack_lines-Written fuel cap [] out final room small e =
    let same : out ≡ final = cc in
    subst (Written cap out) same
      (record { lines = []; clean_lines = refl; added = sym (append-nil out); room = room })
pack_lines-Written zero cap (c ∷ cs) out final room small e = cc
pack_lines-Written (suc fuel) cap (c ∷ cs) out final room small e =
    next_line-Written cap (c ∷ cs) out final (pack_lines fuel cap) (scan_line (c ∷ cs)) room small
      refl (λ rest written r h. pack_lines-Written fuel cap rest written final r small h) e
