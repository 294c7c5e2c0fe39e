-- ===== src/Scan/Table/Distinct.antt =====
-- The table of src/cyw43455/scan_protocol.h holds 64 networks at most, each once.
use rpi5_wifi_driver_win11ar.Prelude.{
  ℕ, suc, ◌≤◌, ◌≡◌, refl, sym, ap, ap₂, ◌∙◌, Bool, true, false, ◌&&◌, Option, none, some, List, [],
  ◌∷◌, ◌++◌, ltb, ◌==◌, if◌then◌else◌, length, arith, length-append, each_branch,
}
use rpi5_wifi_driver_win11ar.Scan.{Entry}
use rpi5_wifi_driver_win11ar.Scan.Table.{
  Report, same_bytes, same_network, cons_entry, replace_entry, truncate, add_replaced, scan_add,
  max_entries,
}

pub same_bytes-eq : (xs ys : List ℕ) → same_bytes xs ys ≡ true → xs ≡ ys
unfolding same_bytes
same_bytes-eq [] [] h = refl
same_bytes-eq [] (y ∷ ys) h = absurd (ground arith)
same_bytes-eq (x ∷ xs) [] h = absurd (ground arith)
same_bytes-eq (x ∷ xs) (y ∷ ys) h =
    let first : x ≡ y = ground arith in
    let rest : same_bytes xs ys ≡ true = ground arith in
    ap₂ (λ a l. a ∷ l) first (same_bytes-eq xs ys rest)

-- Networks that are the same compare alike with any third.
pub same_network-left :
    (a b k : Entry) → same_network a b ≡ true → same_network a k ≡ same_network b k
unfolding same_network
same_network-left a b k h =
    let address : same_bytes a.bssid b.bssid ≡ true = ground arith in
    let name : same_bytes a.ssid b.ssid ≡ true = ground arith in
    ap₂ (λ x y. same_bytes x k.bssid && same_bytes y k.ssid) (same_bytes-eq a.bssid b.bssid address)
      (same_bytes-eq a.ssid b.ssid name)

pub same_network-right :
    (a b x : Entry) → same_network a b ≡ true → same_network x a ≡ same_network x b
unfolding same_network
same_network-right a b x h =
    let address : same_bytes a.bssid b.bssid ≡ true = ground arith in
    let name : same_bytes a.ssid b.ssid ≡ true = ground arith in
    ap₂ (λ u v. same_bytes x.bssid u && same_bytes x.ssid v) (same_bytes-eq a.bssid b.bssid address)
      (same_bytes-eq a.ssid b.ssid name)

-- No entry is of the network of `e`.
abbrev pub Absent : Entry → List Entry → Type 0
Absent e [] = Unit {0}
Absent e (x ∷ xs) = (same_network x e ≡ false) × Absent e xs

-- What the loop of CywScanAdd does when it finds the network.
pub data Replaced (e : Entry) : List Entry → List Entry → Type 0 where
  here : {x : Entry} {xs : List Entry} → same_network x e ≡ true → Replaced e (x ∷ xs) (e ∷ xs)
  there :
      {x : Entry} {xs ys : List Entry}
      → same_network x e ≡ false
      → Replaced e xs ys
      → Replaced e (x ∷ xs) (x ∷ ys)

abbrev pub Searched : Entry → List Entry → Option (List Entry) → Type 0
Searched e xs none = Absent e xs
Searched e xs (some ys) = Replaced e xs ys

cons_entry-Searched :
    (e x : Entry) (xs : List Entry) (o : Option (List Entry))
    → same_network x e ≡ false
    → Searched e xs o
    → Searched e (x ∷ xs) (cons_entry x o)
unfolding cons_entry
cons_entry-Searched e x xs none h s = (h, s)
cons_entry-Searched e x xs (some ys) h s = there h s

head-Searched :
    (e x : Entry) (xs : List Entry) (b : Bool)
    → same_network x e ≡ b
    → Searched e xs (replace_entry e xs)
    → Searched e (x ∷ xs) (if b then some (e ∷ xs) else cons_entry x (replace_entry e xs))
head-Searched e x xs true h s = here h
head-Searched e x xs false h s = cons_entry-Searched e x xs (replace_entry e xs) h s

pub replace_entry-Searched : (e : Entry) (xs : List Entry) → Searched e xs (replace_entry e xs)
unfolding replace_entry
replace_entry-Searched e [] = tt
replace_entry-Searched e (x ∷ xs) =
    head-Searched e x xs (same_network x e) refl (replace_entry-Searched e xs)

-- An entry is of another network than each that follows it.
abbrev pub Apart : Entry → List Entry → Type 0
Apart x [] = Unit {0}
Apart x (y ∷ ys) = (same_network x y ≡ false) × Apart x ys

abbrev pub Distinct : List Entry → Type 0
Distinct [] = Unit {0}
Distinct (x ∷ xs) = Apart x xs × Distinct xs

same-Apart : (x e : Entry) (ys : List Entry) → same_network x e ≡ true → Apart x ys → Apart e ys
same-Apart x e [] h a = tt
same-Apart x e (y ∷ ys) h (a, r) = (sym (same_network-left x e y h) ∙ a, same-Apart x e ys h r)

Replaced-Apart :
    {e : Entry} {xs ys : List Entry} (x : Entry) → Replaced e xs ys → Apart x xs → Apart x ys
Replaced-Apart {e} x (here {x = y} h) (a, r) = (sym (same_network-right y e x h) ∙ a, r)
Replaced-Apart x (there h s) (a, r) = (a, Replaced-Apart x s r)

Replaced-Distinct : {e : Entry} {xs ys : List Entry} → Replaced e xs ys → Distinct xs → Distinct ys
Replaced-Distinct {e} (here {x} {xs} h) (a, d) = (same-Apart x e xs h a, d)
Replaced-Distinct (there {x} h s) (a, d) = (Replaced-Apart x s a, Replaced-Distinct s d)

length-Replaced : {e : Entry} {xs ys : List Entry} → Replaced e xs ys → length ys ≡ length xs
length-Replaced (here h) = refl
length-Replaced (there h s) = ap suc (length-Replaced s)

append-Apart :
    (e x : Entry) (xs : List Entry)
    → same_network x e ≡ false
    → Apart x xs
    → Apart x (xs ++ (e ∷ []))
append-Apart e x [] h a = (h, tt)
append-Apart e x (y ∷ xs) h (a, r) = (a, append-Apart e x xs h r)

append-Distinct :
    (e : Entry) (xs : List Entry) → Absent e xs → Distinct xs → Distinct (xs ++ (e ∷ []))
append-Distinct e [] a d = (tt, tt)
append-Distinct e (x ∷ xs) (h, a) (p, d) = (append-Apart e x xs h p, append-Distinct e xs a d)

pub record IsTable (r : Report) : Type 0 where
  pub count : length r.entries ≤ max_entries
  pub distinct : Distinct r.entries

add_replaced-IsTable :
    (r : Report) (e : Entry) (o : Option (List Entry))
    → Searched e r.entries o
    → IsTable r
    → IsTable (add_replaced r e o)
unfolding add_replaced truncate
add_replaced-IsTable r e (some xs) s t = record {
  count = omega (arith, length-Replaced s, t.count);
  distinct = Replaced-Distinct s t.distinct;
}
add_replaced-IsTable r e none s t =
    each_branch IsTable (length r.entries == max_entries)
      (λ h. record { count = t.count; distinct = t.distinct })
      (λ h. record {
        count = ground (arith, length-append r.entries (e ∷ []), t.count);
        distinct = append-Distinct e r.entries s t.distinct;
      })

pub scan_add-IsTable : (r : Report) (e : Entry) → IsTable r → IsTable (scan_add r e)
unfolding scan_add truncate
scan_add-IsTable r e t =
    each_branch IsTable (ltb max_entries (length r.entries))
      (λ h. record { count = t.count; distinct = t.distinct })
      (λ h.
        add_replaced-IsTable r e (replace_entry e r.entries) (replace_entry-Searched e r.entries) t)
