-- ===== src/Nvram/Lines.antt =====
-- What cleaning a line of the NVRAM file leaves, in src/cyw43455/network_protocol.h.
use rpi5_wifi_driver_win11ar.Prelude.{
  ℕ, ◌≤◌, ◌≡◌, refl, Bool, true, ◌&&◌, List, [], ◌∷◌, Option, none, some, arith, ◌==◌, ◌!=◌, length,
  Bool-cases, inl, inr, subst, ◌++◌,
}
use rpi5_wifi_driver_win11ar.Nvram.{
  is_text, cons_char, scan_line, skip_blanks, cut_comment, trim_end, clean,
}

-- Every byte is text, and none starts a comment.
abbrev pub all_text : List ℕ → Bool
all_text [] = true
all_text (c ∷ cs) = is_text c && all_text cs

abbrev pub no_comment : List ℕ → Bool
no_comment [] = true
no_comment (c ∷ cs) = c != 35 && no_comment cs

-- A line is text, and no longer than what it is cut from.
pub record Scanned (raw line rest : List ℕ) : Type 0 where
  pub text : all_text line ≡ true
  pub shorter : length rest ≤ length raw

cons_char-Scanned :
    (c : ℕ) (cs : List ℕ) (o : Option (List ℕ × List ℕ)) (line rest : List ℕ)
    → is_text c ≡ true
    → ((l r : List ℕ) → o ≡ some (l, r) → Scanned cs l r)
    → cons_char c o ≡ some (line, rest)
    → Scanned (c ∷ cs) line rest
unfolding cons_char
cons_char-Scanned c cs none line rest t f e = cc
cons_char-Scanned c cs (some (l, r)) line rest t f e =
    let s = f l r refl in
    let same : c ∷ l ≡ line = cc in
    let left : r ≡ rest = cc in
    subst (λ x. Scanned (c ∷ cs) x rest) same
      (subst (λ x. Scanned (c ∷ cs) (c ∷ l) x) left
        (record { text = ground (arith, t, s.text); shorter = omega (arith, s.shorter) }))

pub scan_line-Scanned :
    (raw line rest : List ℕ) → scan_line raw ≡ some (line, rest) → Scanned raw line rest
unfolding scan_line
scan_line-Scanned [] line rest e =
    let same : [] ≡ line = cc in
    let left : [] ≡ rest = cc in
    subst (λ x. Scanned [] x rest) same
      (subst (λ x. Scanned [] [] x) left (record { text = refl; shorter = omega arith }))
scan_line-Scanned (c ∷ cs) line rest e = elim (Bool-cases (c == 10)) [
  | inl newline ↦
      (let g = rw (scan_line, newline) at e in
        let same : [] ≡ line = cc g in
        let left : cs ≡ rest = cc g in
        subst (λ x. Scanned (c ∷ cs) x rest) same
          (subst (λ x. Scanned (c ∷ cs) [] x) left (record { text = refl; shorter = omega arith })))
  | inr more ↦ elim (Bool-cases (is_text c)) [
    | inl t ↦
        cons_char-Scanned c cs (scan_line cs) line rest t (scan_line-Scanned cs)
          (rw (scan_line, more, t) at e)
    | inr bad ↦ cc (rw (scan_line, more, bad) at e)
  ]
]

-- Cleaning keeps text, and leaves no comment.
skip_blanks-all_text : (xs : List ℕ) → all_text xs ≡ true → all_text (skip_blanks xs) ≡ true
unfolding skip_blanks
skip_blanks-all_text [] h = refl
skip_blanks-all_text (c ∷ cs) h = ground (arith, h, skip_blanks-all_text cs)

cut_comment-all_text :
    (xs : List ℕ)
    → all_text xs ≡ true
    → (all_text (cut_comment xs) ≡ true) × (no_comment (cut_comment xs) ≡ true)
unfolding cut_comment
cut_comment-all_text [] h = (refl, refl)
cut_comment-all_text (c ∷ cs) h = ground (arith, h, cut_comment-all_text cs)

trim_end-all_text :
    (xs : List ℕ)
    → all_text xs ≡ true
    → no_comment xs ≡ true
    → (all_text (trim_end xs) ≡ true) × (no_comment (trim_end xs) ≡ true)
unfolding trim_end
trim_end-all_text [] h n = (refl, refl)
trim_end-all_text (c ∷ cs) h n = ground (arith, h, n, trim_end-all_text cs)

pub clean-all_text :
    (xs : List ℕ)
    → all_text xs ≡ true
    → (all_text (clean xs) ≡ true) × (no_comment (clean xs) ≡ true)
unfolding clean
clean-all_text xs h =
    let c = cut_comment-all_text (skip_blanks xs) (skip_blanks-all_text xs h) in
    trim_end-all_text (cut_comment (skip_blanks xs)) c.0 c.1

-- A line of text is scanned up to its end.
pub scan_line-append :
    (line rest : List ℕ)
    → all_text line ≡ true
    → scan_line (line ++ (10 ∷ rest)) ≡ some (line, rest)
unfolding scan_line cons_char is_text
scan_line-append [] rest h = refl
scan_line-append (c ∷ cs) rest h = ground (arith, h, scan_line-append cs rest)
