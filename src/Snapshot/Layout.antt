-- ===== src/Snapshot/Layout.antt =====
-- What CywDiagRead of src/driver/diag_snapshot.h finds where CywDiagAppend put a value.
use rpi5_wifi_driver_win11ar.Prelude.{
  ℕ, ◌+◌, ◌-◌, ◌*◌, ◌/◌, ◌%◌, ◌^◌, ◌≤◌, ◌<◌, ◌≡◌, refl, ap, ap₂, ◌∙◌, subst, false, ◌||◌, some,
  List, [], ◌∷◌, ◌++◌, ltb, length, take, drop, replicate, arith, length-append, length-replicate,
}
use mathlib.Core.List.{append_assoc}
use rpi5_wifi_driver_win11ar.Snapshot.{
  capacity, Value, Snapshot, Header, align8, total_bytes, put_word, word_at, padded, encode,
  header_at, is_bad_header, value_at, diag_read,
}

pub drop-length-append : (xs ys : List ℕ) → drop (length xs) (xs ++ ys) ≡ ys
drop-length-append [] ys = refl
drop-length-append (x ∷ xs) ys = drop-length-append xs ys

pub take-length-append : (xs ys : List ℕ) → take (length xs) (xs ++ ys) ≡ xs
take-length-append [] ys = refl
take-length-append (x ∷ xs) ys = ap (λ l. x ∷ l) (take-length-append xs ys)

pub length-padded : (xs : List ℕ) (n : ℕ) → length xs ≤ n → length (padded xs n) ≡ n
unfolding padded
length-padded xs n h = omega (
  arith,
  length-append xs (replicate (n - length xs) 0),
  length-replicate {A = ℕ} (n - length xs) 0,
)

name_room : (n : ℕ) → n ≤ align8 (n + 2)
unfolding align8
name_room n = omega arith

data_room : (n : ℕ) → n ≤ align8 n
unfolding align8
data_room n = omega arith

pub length-encode :
    (v : Value) → length (encode v) ≡ total_bytes (length v.name) (length v.data_bytes)
unfolding encode put_word total_bytes
length-encode v =
    let names = align8 (length v.name + 2) in
    let bytes = align8 (length v.data_bytes) in
    omega (
      arith,
      length-append (padded v.name names) (padded v.data_bytes bytes),
      length-padded v.name names (name_room (length v.name)),
      length-padded v.data_bytes bytes (data_room (length v.data_bytes)),
    )

word_digits :
    (n : ℕ)
    → n < 2 ^ 32
    → n % 256 + n / 2 ^ 8 % 256 * 2 ^ 8 + n / 2 ^ 16 % 256 * 2 ^ 16 + n / 2 ^ 24 % 256 * 2 ^ 24 ≡ n
word_digits n h = omega arith

abbrev header : ℕ → ℕ → ℕ → ℕ → Header
header a b c d = record { name_size = a; kind = b; data_size = c; total_size = d }

same_header :
    {a b c d e f g h : ℕ} → a ≡ e → b ≡ f → c ≡ g → d ≡ h → header a b c d ≡ header e f g h
same_header {b = b} {c = c} {d = d} {e = e} {f = f} {g = g} p q r s =
    ap (λ x. header x b c d) p
    ∙ ap (λ x. header e x c d) q
    ∙ ap (λ x. header e f x d) r
    ∙ ap (λ x. header e f g x) s

-- The bytes after the record.
abbrev pub body : Value → List ℕ
body v =
    padded v.name (align8 (length v.name + 2)) ++ padded v.data_bytes (align8 (length v.data_bytes))

abbrev header_of : Value → Header
header_of v = record {
  name_size = length v.name;
  kind = v.kind;
  data_size = length v.data_bytes;
  total_size = total_bytes (length v.name) (length v.data_bytes);
}

-- What the writer of the registry can read back: a name of even length that its UNICODE_STRING can
-- describe, and a type of 32 bits.
pub record IsValue (v : Value) : Type 0 where
  pub some_name : 1 ≤ length v.name
  pub even : length v.name % 2 ≡ 0
  pub short : length v.name ≤ 65532
  pub kind : v.kind < 2 ^ 32
  pub fits : length v.data_bytes ≤ capacity

total_small : (n m : ℕ) → n ≤ 65532 → m ≤ capacity → total_bytes n m < 2 ^ 32
unfolding total_bytes align8
total_small n m h k = omega arith

header_at-encode :
    (v : Value) (rest : List ℕ) → IsValue v → header_at (encode v ++ rest) ≡ header_of v
unfolding header_at encode put_word word_at
header_at-encode v rest i =
    same_header (word_digits (length v.name) (omega (arith, i.short))) (word_digits v.kind i.kind)
      (word_digits (length v.data_bytes) (omega (arith, i.fits)))
      (word_digits (total_bytes (length v.name) (length v.data_bytes))
        (total_small (length v.name) (length v.data_bytes) i.short i.fits))

padded-append :
    (xs : List ℕ) (n : ℕ) (rest : List ℕ)
    → padded xs n ++ rest ≡ xs ++ (replicate (n - length xs) 0 ++ rest)
unfolding padded
padded-append xs n rest = append_assoc xs (replicate (n - length xs) 0) rest

take-padded : (xs : List ℕ) (n : ℕ) (rest : List ℕ) → take (length xs) (padded xs n ++ rest) ≡ xs
take-padded xs n rest = rw (padded-append xs n rest) (take-length-append xs _)

drop-padded :
    (xs : List ℕ) (n : ℕ) (rest : List ℕ) → length xs ≤ n → drop n (padded xs n ++ rest) ≡ rest
drop-padded xs n rest h =
    subst (λ k. drop k (padded xs n ++ rest) ≡ rest) (length-padded xs n h)
      (drop-length-append (padded xs n) rest)

abbrev value : List ℕ → ℕ → List ℕ → Value
value n k d = record { name = n; kind = k; data_bytes = d }

value_at-encode : (v : Value) (rest : List ℕ) → value_at (header_of v) (encode v ++ rest) ≡ v
unfolding value_at encode put_word
value_at-encode v rest =
    let names = align8 (length v.name + 2) in
    let bytes = align8 (length v.data_bytes) in
    let shift : (padded v.name names ++ padded v.data_bytes bytes) ++ rest
        ≡ padded v.name names ++ (padded v.data_bytes bytes ++ rest) =
      append_assoc (padded v.name names) (padded v.data_bytes bytes) rest in
    let name : take (length v.name) ((padded v.name names ++ padded v.data_bytes bytes) ++ rest)
        ≡ v.name =
      rw shift (take-padded v.name names (padded v.data_bytes bytes ++ rest)) in
    let found : take (length v.data_bytes)
          (drop names ((padded v.name names ++ padded v.data_bytes bytes) ++ rest))
        ≡ v.data_bytes =
      rw
        (
          shift,
          drop-padded v.name names (padded v.data_bytes bytes ++ rest) (name_room (length v.name)),
        )
        (take-padded v.data_bytes bytes rest) in
    ap₂ (λ n d. value n v.kind d) name found

is_bad_header-encode :
    (v : Value) (room : ℕ)
    → IsValue v
    → total_bytes (length v.name) (length v.data_bytes) ≤ room
    → is_bad_header (header_of v) room ≡ false
unfolding is_bad_header
is_bad_header-encode v room i h = ground (arith, i.some_name, i.even, i.short, i.fits)

pub total_bytes-large : (n m : ℕ) → 24 ≤ total_bytes n m
unfolding total_bytes align8
total_bytes-large n m = omega arith

-- Where a value was put, it is read, with its size.
pub diag_read-encode :
    (xs rest : List ℕ) (v : Value) (b : Snapshot)
    → IsValue v
    → b.failed ≡ false
    → b.stored ≡ xs ++ (encode v ++ rest)
    → length b.stored ≤ capacity
    → diag_read b (length xs) ≡ some (v, total_bytes (length v.name) (length v.data_bytes))
unfolding diag_read
diag_read-encode xs rest v b i f e small =
    let size : length b.stored
        ≡ length xs + (total_bytes (length v.name) (length v.data_bytes) + length rest) =
      ap length e
      ∙ omega (
        arith,
        length-append xs (encode v ++ rest),
        length-append (encode v) rest,
        length-encode v,
      ) in
    let large = total_bytes-large (length v.name) (length v.data_bytes) in
    let there : drop (length xs) b.stored ≡ encode v ++ rest =
      rw e (drop-length-append xs (encode v ++ rest)) in
    let sound : (ltb capacity (length b.stored)
          || (ltb (length b.stored) (length xs) || ltb (length b.stored - length xs) 16))
        ≡ false =
      ground (arith, small, size, large) in
    let good = is_bad_header-encode v (length b.stored - length xs) i (omega (arith, size)) in
    rw (f, sound, there, header_at-encode v rest i, good)
      (ap (λ w. some (w, (header_of v).total_size)) (value_at-encode v rest))
