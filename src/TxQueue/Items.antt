-- ===== src/TxQueue/Items.antt =====
-- Sums and bounds over a list of pending sends of src/cyw43455/tx_queue.h.
use rpi5_wifi_driver_win11ar.Prelude.{
  ℕ, zero, suc, ◌+◌, ◌*◌, ◌≤◌, ◌≡◌, refl, ap, List, [], ◌∷◌, ◌++◌, some, arith, ◌==◌, if◌then◌else◌,
  length, get_elem?, remove,
}
use rpi5_wifi_driver_win11ar.TxQueue.State.{PendingSend, tx_limit}

-- What CywTxPrepare guarantees of an item, and what the pump keeps.
pub record ItemOk (item : PendingSend) : Type 0 where
  pub some_frame : 1 ≤ item.frames
  pub few_frames : item.held_frames ≤ tx_limit
  pub unsent : item.frames ≤ item.held_frames
  pub chain : length item.next ≡ item.frames
  pub short : item.bytes ≤ 1514 * item.held_frames

abbrev pub AllOk : List PendingSend → Type 0
AllOk [] = Unit {0}
AllOk (x ∷ xs) = ItemOk x × AllOk xs

abbrev pub held_sum : List PendingSend → ℕ
held_sum [] = 0
held_sum (x ∷ xs) = x.held_frames + held_sum xs

abbrev pub bytes_sum : List PendingSend → ℕ
bytes_sum [] = 0
bytes_sum (x ∷ xs) = x.bytes + bytes_sum xs

-- The lists that the items stand for, in order.
abbrev pub nbls : List PendingSend → List ℕ
nbls [] = []
nbls (x ∷ xs) = x.nbl ∷ nbls xs

-- How often a number stands in a list.
abbrev pub count : ℕ → List ℕ → ℕ
count id [] = 0
count id (x ∷ xs) = (if x == id then 1 else 0) + count id xs

pub count-append : (id : ℕ) (xs ys : List ℕ) → count id (xs ++ ys) ≡ count id xs + count id ys
count-append id [] ys = omega arith
count-append id (x ∷ xs) ys = omega (arith, count-append id xs ys)

pub held_sum-append : (xs ys : List PendingSend) → held_sum (xs ++ ys) ≡ held_sum xs + held_sum ys
held_sum-append [] ys = omega arith
held_sum-append (x ∷ xs) ys = omega (arith, held_sum-append xs ys)

pub bytes_sum-append :
    (xs ys : List PendingSend) → bytes_sum (xs ++ ys) ≡ bytes_sum xs + bytes_sum ys
bytes_sum-append [] ys = omega arith
bytes_sum-append (x ∷ xs) ys = omega (arith, bytes_sum-append xs ys)

pub length-nbls : (xs : List PendingSend) → length (nbls xs) ≡ length xs
length-nbls [] = refl
length-nbls (x ∷ xs) = ap suc (length-nbls xs)

pub nbls-append : (xs ys : List PendingSend) → nbls (xs ++ ys) ≡ nbls xs ++ nbls ys
nbls-append [] ys = refl
nbls-append (x ∷ xs) ys = rw (nbls-append xs ys)

pub AllOk-append :
    (xs : List PendingSend) {x : PendingSend} → AllOk xs → ItemOk x → AllOk (xs ++ (x ∷ []))
AllOk-append [] h k = (k, tt)
AllOk-append (y ∷ xs) h k = (h.0, AllOk-append xs h.1 k)

module _ {x : PendingSend} where
  pub held_sum-remove :
      (xs : List PendingSend) (i : ℕ)
      → get_elem? xs i ≡ some x
      → held_sum (remove xs i) + x.held_frames ≡ held_sum xs
  held_sum-remove [] i e = cc
  held_sum-remove (y ∷ xs) zero e = ground arith
  held_sum-remove (y ∷ xs) (suc i) e = omega (arith, held_sum-remove xs i e)

  pub bytes_sum-remove :
      (xs : List PendingSend) (i : ℕ)
      → get_elem? xs i ≡ some x
      → bytes_sum (remove xs i) + x.bytes ≡ bytes_sum xs
  bytes_sum-remove [] i e = cc
  bytes_sum-remove (y ∷ xs) zero e = ground arith
  bytes_sum-remove (y ∷ xs) (suc i) e = omega (arith, bytes_sum-remove xs i e)

  pub length-remove_at :
      (xs : List PendingSend) (i : ℕ)
      → get_elem? xs i ≡ some x
      → length (remove xs i) + 1 ≡ length xs
  length-remove_at [] i e = cc
  length-remove_at (y ∷ xs) zero e = omega arith
  length-remove_at (y ∷ xs) (suc i) e = omega (arith, length-remove_at xs i e)

  pub count-remove :
      (id : ℕ) (xs : List PendingSend) (i : ℕ)
      → get_elem? xs i ≡ some x
      → count id (nbls (remove xs i)) + count id (x.nbl ∷ []) ≡ count id (nbls xs)
  count-remove id [] i e = cc
  count-remove id (y ∷ xs) zero e = ground arith
  count-remove id (y ∷ xs) (suc i) e = omega (arith, count-remove id xs i e)

  pub AllOk-remove :
      (xs : List PendingSend) (i : ℕ)
      → AllOk xs
      → get_elem? xs i ≡ some x
      → AllOk (remove xs i) × ItemOk x
  AllOk-remove [] i h e = cc
  AllOk-remove (y ∷ xs) zero h e = (h.1, ground arith)
  AllOk-remove (y ∷ xs) (suc i) h e = let rest = AllOk-remove xs i h.1 e in ((h.0, rest.0), rest.1)

-- Every item holds a frame, and no item more bytes than its frames can.
pub length-le-held_sum : (xs : List PendingSend) → AllOk xs → length xs ≤ held_sum xs
length-le-held_sum [] h = omega arith
length-le-held_sum (x ∷ xs) h = omega (arith, length-le-held_sum xs h.1)

pub bytes_sum-le : (xs : List PendingSend) → AllOk xs → bytes_sum xs ≤ 1514 * held_sum xs
bytes_sum-le [] h = omega arith
bytes_sum-le (x ∷ xs) h = omega (arith, bytes_sum-le xs h.1)
