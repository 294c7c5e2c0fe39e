-- ===== src/Trace/Ring.antt =====
-- The trace of src/cyw43455/transport_trace.h as the list of its last observations.
use rpi5_wifi_driver_win11ar.Prelude.{
  ℕ, zero, suc, ◌+◌, ◌-◌, ◌%◌, ◌^◌, ◌<◌, ◌≡◌, refl, ap, ◌∙◌, Bool, true, false, not, some, List, [],
  ◌∷◌, ltb, ◌==◌, if◌then◌else◌, length, get_elem?, arith, each_branch, subst,
}
use rpi5_wifi_driver_win11ar.Transport.{Transport}
use rpi5_wifi_driver_win11ar.Trace.{
  Sources, TraceEntry, Trace, trace_entry, is_early, start_trace, put_slot, record_entry,
  transport_sample,
}

-- What is given to a call.
pub record Call : Type 0 where
  pub sources : Sources
  pub transport : Transport
  pub now : ℕ

unfoldable pub run_samples : Trace → List Call → Trace
run_samples r [] = r
run_samples r (c ∷ cs) = run_samples (transport_sample r c.sources c.transport c.now) cs

-- The entries that the calls record, the newest first: all but those without a network or within a
-- second of the last one.
unfoldable pub recorded : Trace → List Call → List TraceEntry → List TraceEntry
recorded r [] es = es
recorded r (c ∷ cs) es = recorded (transport_sample r c.sources c.transport c.now) cs (
    if not c.sources.has_network
    then es
    else if is_early r c.now
    then es
    else trace_entry c.sources c.transport c.now ((r.serial + 1) % 2 ^ 32) ∷ es)

-- The slot of the entry that is the given number of entries older than the newest.
abbrev pub slot_of_age : Trace → ℕ → ℕ
slot_of_age r age = (r.next + 127 - age) % 128

pub record Holds (r : Trace) (es : List TraceEntry) : Type 0 where
  pub next : r.next < 128
  pub count : r.count ≡ (if ltb (length es) 128 then length es else 128)
  pub slot : (age : ℕ) → age < r.count → get_elem? es age ≡ some (r.slots (slot_of_age r age))

start_trace-Holds :
    (r : Trace) (now : ℕ) (es : List TraceEntry) → Holds r es → Holds (start_trace r now) es
unfolding start_trace
start_trace-Holds r now es h =
    each_branch (λ x. Holds x es) (r.version == 0)
      (λ e. record { next = h.next; count = h.count; slot = h.slot }) (λ e. h)

record_entry-slot :
    (r : Trace) (now : ℕ) (entry_of : ℕ → TraceEntry) (es : List TraceEntry) (age : ℕ)
    → Holds r es
    → age < (record_entry r now entry_of).count
    → get_elem? (entry_of ((r.serial + 1) % 2 ^ 32) ∷ es) age
      ≡ some ((record_entry r now entry_of).slots (slot_of_age (record_entry r now entry_of) age))
unfolding record_entry put_slot
record_entry-slot r now entry_of es zero h l =
    let here : (((r.next + 1) % 128 + 127 - 0) % 128 == r.next) ≡ true = ground (arith, h.next) in
    ap some (rw here refl)
record_entry-slot r now entry_of es (suc age) h l =
    let older : age < r.count = ground (arith, h.count) in
    let few : age < 127 = ground (arith, h.count) in
    let same : ((r.next + 1) % 128 + 127 - suc age) % 128 ≡ (r.next + 127 - age) % 128 =
      omega (arith, h.next, few) in
    let other : ((r.next + 127 - age) % 128 == r.next) ≡ false = ground (arith, h.next, few) in
    h.slot age older ∙ ap some (rw (same, other) refl)

record_entry-Holds :
    (r : Trace) (now : ℕ) (entry_of : ℕ → TraceEntry) (es : List TraceEntry)
    → Holds r es
    → Holds (record_entry r now entry_of) (entry_of ((r.serial + 1) % 2 ^ 32) ∷ es)
unfolding record_entry
record_entry-Holds r now entry_of es h = record {
  next = omega arith;
  count = ground (arith, h.count);
  slot = λ age l. record_entry-slot r now entry_of es age h l;
}

start_trace-serial : (r : Trace) (now : ℕ) → (start_trace r now).serial ≡ r.serial
unfolding start_trace
start_trace-serial r now =
    each_branch (λ (x : Trace). x.serial ≡ r.serial) (r.version == 0) (λ e. refl) (λ e. refl)

-- The tests that the call and the list of the recorded entries share.
if-Holds :
    (a b : Bool) {r s : Trace} {es fs : List TraceEntry}
    → Holds r es
    → Holds s fs
    → Holds (if a then r else if b then r else s) (if a then es else if b then es else fs)
if-Holds true b h k = h
if-Holds false true h k = h
if-Holds false false h k = k

transport_sample-Holds :
    (r : Trace) (c : Call) (es : List TraceEntry)
    → Holds r es
    → Holds (transport_sample r c.sources c.transport c.now) (
        if not c.sources.has_network
        then es
        else if is_early r c.now
        then es
        else trace_entry c.sources c.transport c.now ((r.serial + 1) % 2 ^ 32) ∷ es)
unfolding transport_sample
transport_sample-Holds r c es h =
    let entry_of = trace_entry c.sources c.transport c.now in
    if-Holds (not c.sources.has_network) (is_early r c.now) h (
      subst
        (λ n.
          Holds (record_entry (start_trace r c.now) c.now entry_of)
            (entry_of ((n + 1) % 2 ^ 32) ∷ es))
        (start_trace-serial r c.now)
        (record_entry-Holds (start_trace r c.now) c.now entry_of es
          (start_trace-Holds r c.now es h)))

run-Holds :
    (cs : List Call) (r : Trace) (es : List TraceEntry)
    → Holds r es
    → Holds (run_samples r cs) (recorded r cs es)
unfolding run_samples recorded
run-Holds [] r es h = h
run-Holds (c ∷ cs) r es h = run-Holds cs _ _ (transport_sample-Holds r c es h)

-- The trace of a new adapter.
abbrev pub untouched : (ℕ → TraceEntry) → Trace
untouched slots = record {
  version = 0;
  count = 0;
  next = 0;
  serial = 0;
  origin = 0;
  last = 0;
  slots = slots;
}

untouched-Holds : (slots : ℕ → TraceEntry) → Holds (untouched slots) []
untouched-Holds slots = record {
  next = omega arith;
  count = refl;
  slot = λ age l. absurd (omega (arith, l));
}

-- After any calls from a new trace, Count is the number of the recorded entries, at most 128, and
-- counted back from Next, the slots hold the recorded entries from the newest on, with their times,
-- serials and observations.
pub run_samples-Holds :
    (slots : ℕ → TraceEntry) (cs : List Call)
    → Holds (run_samples (untouched slots) cs) (recorded (untouched slots) cs [])
run_samples-Holds slots cs = run-Holds cs (untouched slots) [] (untouched-Holds slots)
