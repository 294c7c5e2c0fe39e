-- ===== src/Scan/Table/Latest.antt =====
-- The table of src/cyw43455/scan_protocol.h as the map from a network to its last result.
use rpi5_wifi_driver_win11ar.Prelude.{
  ◌+◌, ◌*◌, ◌/◌, ◌%◌, ◌≡◌, refl, sym, ap, ◌∙◌, Bool, true, false, Option, none, some, List, [], ◌∷◌,
  ◌++◌, ltb, ◌==◌, if◌then◌else◌, bit_and, bit_or, length, arith, each_branch, Bool-cases, inl, inr,
}
use Prim.Native.Nat.{max}
use rpi5_wifi_driver_win11ar.Prelude.Bits.{bit_and_mask, bit_or_step}
use rpi5_wifi_driver_win11ar.Scan.{Entry}
use rpi5_wifi_driver_win11ar.Scan.Table.{
  Report, same_network, replace_entry, truncate, add_replaced, scan_add, is_truncated, max_entries,
}
use rpi5_wifi_driver_win11ar.Scan.Table.Distinct.{
  Absent, Replaced, here, there, Searched, replace_entry-Searched, same_network-left,
  same_network-right,
}

-- The entry of the network of `k` in a table.
abbrev pub lookup : Entry → List Entry → Option Entry
lookup k [] = none
lookup k (x ∷ xs) = if same_network x k then some x else lookup k xs

-- One result, and the results in order, as they change what is known of the network of `k`.
abbrev pub overwrite : Entry → Entry → Option Entry → Option Entry
overwrite k e known = if same_network e k then some e else known

abbrev pub latest : Entry → List Entry → Option Entry → Option Entry
latest k [] known = known
latest k (e ∷ es) known = latest k es (overwrite k e known)

unfoldable pub scan_adds : Report → List Entry → Report
scan_adds r [] = r
scan_adds r (e ∷ es) = scan_adds (scan_add r e) es

-- Of two networks that differ, at most one is that of `k`.
if-swap :
    {A : Type 0} (a b : Bool) (x y z : A)
    → (a ≡ true → b ≡ false)
    → (if a then x else if b then y else z) ≡ (if b then y else if a then x else z)
if-swap true true x y z h = absurd (ground (arith, h refl))
if-swap true false x y z h = refl
if-swap false b x y z h = refl

if-same :
    {A : Type 0} (b c : Bool) (x y z : A)
    → b ≡ c
    → (if b then x else z) ≡ (if b then x else (if c then y else z))
if-same true c x y z h = refl
if-same false true x y z h = absurd (ground arith)
if-same false false x y z h = refl

true_or_false : (b : Bool) → b ≡ true → b ≡ false → ⊥
true_or_false b h k = ground arith

only_one :
    (x e k : Entry) → same_network x e ≡ false → same_network x k ≡ true → same_network e k ≡ false
only_one x e k h a = elim (Bool-cases (same_network e k)) [
  | inl b ↦ absurd (true_or_false _ (same_network-right e k x b ∙ a) h)
  | inr b ↦ b
]

lookup-Replaced :
    {e : Entry} {xs ys : List Entry} (k : Entry)
    → Replaced e xs ys
    → lookup k ys ≡ overwrite k e (lookup k xs)
lookup-Replaced {e} k (here {x} {xs} h) =
    if-same (same_network e k) (same_network x k) (some e) (some x) (lookup k xs)
      (sym (same_network-left x e k h))
lookup-Replaced {e} k (there {x} {xs} h s) =
    ap (λ rest. if same_network x k then some x else rest) (lookup-Replaced k s)
    ∙ if-swap (same_network x k) (same_network e k) (some x) (some e) (lookup k xs)
        (only_one x e k h)

lookup-append :
    (k e : Entry) (xs : List Entry)
    → Absent e xs
    → lookup k (xs ++ (e ∷ [])) ≡ overwrite k e (lookup k xs)
lookup-append k e [] a = refl
lookup-append k e (x ∷ xs) (h, a) =
    ap (λ rest. if same_network x k then some x else rest) (lookup-append k e xs a)
    ∙ if-swap (same_network x k) (same_network e k) (some x) (some e) (lookup k xs)
        (only_one x e k h)

truncate-truncated : (r : Report) → is_truncated (truncate r) ≡ true
unfolding is_truncated truncate
truncate-truncated r =
    let low : bit_and (bit_or r.flags 1) 1 ≡ bit_or r.flags 1 % 2 =
      bit_and_mask 1 (bit_or r.flags 1) in
    let odd : bit_or r.flags 1 ≡ bit_or (r.flags / 2) 0 * 2 + max (r.flags % 2) 1 =
      bit_or_step r.flags 1 in
    ground (arith, low, odd)

-- A step that leaves the flag clear found it clear, and changes what is known of a network as a
-- map does.
record Steps (k e : Entry) (r s : Report) : Type 0 where
  clear : is_truncated s ≡ false → is_truncated r ≡ false
  known : is_truncated s ≡ false → lookup k s.entries ≡ overwrite k e (lookup k r.entries)

truncate-Steps : (k e : Entry) (r : Report) → Steps k e r (truncate r)
truncate-Steps k e r = record {
  clear = λ h. absurd (true_or_false _ (truncate-truncated r) h);
  known = λ h. absurd (true_or_false _ (truncate-truncated r) h);
}

add_replaced-Steps :
    (k e : Entry) (r : Report) (o : Option (List Entry))
    → Searched e r.entries o
    → Steps k e r (add_replaced r e o)
unfolding add_replaced is_truncated
add_replaced-Steps k e r (some xs) s = record { clear = λ h. h; known = λ h. lookup-Replaced k s }
add_replaced-Steps k e r none s =
    each_branch (Steps k e r) (length r.entries == max_entries) (λ h. truncate-Steps k e r)
      (λ h. record { clear = λ x. x; known = λ x. lookup-append k e r.entries s })

scan_add-Steps : (k e : Entry) (r : Report) → Steps k e r (scan_add r e)
unfolding scan_add
scan_add-Steps k e r =
    each_branch (Steps k e r) (ltb max_entries (length r.entries)) (λ h. truncate-Steps k e r)
      (λ h.
        add_replaced-Steps k e r (replace_entry e r.entries) (replace_entry-Searched e r.entries))

scan_adds-clear :
    (r : Report) (es : List Entry) → is_truncated (scan_adds r es) ≡ false → is_truncated r ≡ false
unfolding scan_adds
scan_adds-clear r [] h = h
scan_adds-clear r (e ∷ es) h = (scan_add-Steps e e r).clear (scan_adds-clear (scan_add r e) es h)

-- As long as the flag for a full table is clear after the results were added in order, the table
-- is the map of the last results: for every network, it has the last result of that network, or what
-- it had before when no result is of it.
pub lookup-scan_adds :
    (k : Entry) (r : Report) (es : List Entry)
    → is_truncated (scan_adds r es) ≡ false
    → lookup k (scan_adds r es).entries ≡ latest k es (lookup k r.entries)
unfolding scan_adds
lookup-scan_adds k r [] h = refl
lookup-scan_adds k r (e ∷ es) h =
    let clear = scan_adds-clear (scan_add r e) es h in
    lookup-scan_adds k (scan_add r e) es h ∙ ap (latest k es) ((scan_add-Steps k e r).known clear)
