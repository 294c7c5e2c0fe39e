-- ===== src/Mailbox/Loads.antt =====
-- The states that the mailbox of src/driver/diag_mailbox.h takes, and what waits in each.
use rpi5_wifi_driver_win11ar.Prelude.{
  ℕ, ◌≡◌, refl, ap, ◌∙◌, Bool, true, false, not, List, [], ◌∷◌, ◌++◌,
}
use rpi5_wifi_driver_win11ar.Mailbox.{
  Slot, free, capturing, ready, writing, Pair, at_index, Mailbox, Threads,
}

-- The buffers that are published and not yet released, the oldest first.
abbrev pub held : {T : Type 0} → Slot → T → List T → List T
held free a rest = []
held capturing a rest = []
held ready a rest = a ∷ rest
held writing a rest = a ∷ rest

unfoldable pub waiting : {T : Type 0} → Mailbox T → List T
waiting m =
    let other = not m.consume in
    held (at_index m.states m.consume) (at_index m.buffers m.consume)
      (held (at_index m.states other) (at_index m.buffers other) [])

-- The states that the mailbox takes: how many buffers wait, and which thread has one.
pub data Load : Type 0 where
  empty : Bool → Load
  single : Bool → Bool → Load
  full : Bool → Load

abbrev pub producer_slot : Bool → Slot
producer_slot true = capturing
producer_slot false = free

abbrev pub consumer_slot : Bool → Slot
consumer_slot true = writing
consumer_slot false = ready

abbrev pub head_slot : Load → Slot
head_slot (empty p) = producer_slot p
head_slot (single p w) = consumer_slot w
head_slot (full w) = consumer_slot w

abbrev pub other_slot : Load → Slot
other_slot (empty p) = free
other_slot (single p w) = producer_slot p
other_slot (full w) = ready

abbrev pub produce_of : Load → Bool → Bool
produce_of (empty p) c = c
produce_of (single p w) c = not c
produce_of (full w) c = c

abbrev pub is_producing_in : Load → Bool
is_producing_in (empty p) = p
is_producing_in (single p w) = p
is_producing_in (full w) = false

abbrev pub is_writing_in : Load → Bool
is_writing_in (empty p) = false
is_writing_in (single p w) = w
is_writing_in (full w) = w

abbrev pub contents : {T : Type 0} → Load → T → T → List T
contents (empty p) a b = []
contents (single p w) a b = a ∷ []
contents (full w) a b = a ∷ (b ∷ [])

abbrev pub pair_at : {A : Type 0} → Bool → A → A → Pair A
pair_at true a b = record { first = b; second = a }
pair_at false a b = record { first = a; second = b }

abbrev pub threads_of : {T : Type 0} → Load → Bool → T → T → ℕ → List T → Threads T
threads_of l c a b k ws = record {
  mailbox = record {
    states = pair_at c (head_slot l) (other_slot l);
    produce = produce_of l c;
    consume = c;
    skipped = k;
    buffers = pair_at c a b;
  };
  is_producing = is_producing_in l;
  is_writing = is_writing_in l;
  published = ws ++ contents l a b;
  written = ws;
}

pub record Reached {T : Type 0} (t : Threads T) : Type 0 where
  pub load : Load
  pub index : Bool
  pub oldest : T
  pub newest : T
  pub count : ℕ
  pub done : List T
  pub is : t ≡ threads_of load index oldest newest count done

pub reach :
    {T : Type 0} {t : Threads T} (l : Load) (c : Bool) (a b : T) (k : ℕ) (ws : List T)
    → t ≡ threads_of l c a b k ws
    → Reached t
reach l c a b k ws e = record {
  load = l;
  index = c;
  oldest = a;
  newest = b;
  count = k;
  done = ws;
  is = e;
}

-- The same, the published list written in another way.
pub relisted :
    {T : Type 0} {t : Threads T} {xs : List T} (l : Load) (c : Bool) (a b : T) (k : ℕ) (ws : List T)
    → xs ≡ ws ++ contents l a b
    → t ≡ (record (threads_of l c a b k ws) { published = xs })
    → Reached t
relisted l c a b k ws h e =
    reach l c a b k ws (e ∙ ap (λ ps. record (threads_of l c a b k ws) { published = ps }) h)

pub waiting-contents :
    {T : Type 0} (l : Load) (c : Bool) (a b : T) (k : ℕ) (ws : List T)
    → (threads_of l c a b k ws).published ≡ ws ++ waiting (threads_of l c a b k ws).mailbox
unfolding waiting at_index
waiting-contents (empty true) true a b k ws = refl
waiting-contents (empty true) false a b k ws = refl
waiting-contents (empty false) true a b k ws = refl
waiting-contents (empty false) false a b k ws = refl
waiting-contents (single true true) true a b k ws = refl
waiting-contents (single true true) false a b k ws = refl
waiting-contents (single true false) true a b k ws = refl
waiting-contents (single true false) false a b k ws = refl
waiting-contents (single false true) true a b k ws = refl
waiting-contents (single false true) false a b k ws = refl
waiting-contents (single false false) true a b k ws = refl
waiting-contents (single false false) false a b k ws = refl
waiting-contents (full true) true a b k ws = refl
waiting-contents (full true) false a b k ws = refl
waiting-contents (full false) true a b k ws = refl
waiting-contents (full false) false a b k ws = refl
