-- ===== src/Transport/Service.antt =====
-- src/cyw43455/transport_service.h: one pass of the interrupt and mailbox service, over the bus
-- functions of src/cyw43455/sdio.c and src/cyw43455/chip.c.
use rpi5_wifi_driver_win11ar.Prelude.{
  ℕ, ◌+◌, ◌/◌, ◌%◌, ◌^◌, Bool, true, false, not, ◌&&◌, ◌||◌, ltb, ◌==◌, ◌!=◌, if◌then◌else◌, inc32,
  has_bit, bit_and, bit_or,
}
use rpi5_wifi_driver_win11ar.Transport.{
  Transport, status_observed, fallback_due, set_global, set_priority,
}

abbrev pub status_success : ℕ
status_success = 0

abbrev pub status_cancelled : ℕ
status_cancelled = 0xc0000120

abbrev pub status_device_not_ready : ℕ
status_device_not_ready = 0xc00000a3

-- NT_SUCCESS.
abbrev pub nt_success : ℕ → Bool
nt_success status = ltb status 0x80000000

-- CYW_INT_MASK, and the bits of the interrupt status and of the mailbox.
abbrev pub int_mask : ℕ
int_mask = 0x200000f0

abbrev pub fc_state : ℕ → Bool
fc_state x = has_bit x 4

abbrev pub fc_change : ℕ → Bool
fc_change x = has_bit x 5

abbrev pub int_frame : ℕ → Bool
int_frame x = has_bit x 6

abbrev pub int_mail : ℕ → Bool
int_mail x = has_bit x 7

-- CYW_MAIL_READY has two bits; ~CYW_MAIL_KNOWN is 0xffe0.
abbrev pub mail_ready : ℕ → Bool
mail_ready m = has_bit m 1 || has_bit m 3

-- The bus over the owner's state: SdioCmd52Read of a function and an address, CywBpRead, and
-- CywBpWrite of a value, each with a status.
pub record Bus (B : Type 0) : Type 0 where
  pub cmd52_read : B → ℕ → ℕ → ℕ × ℕ × B
  pub bp_read : B → ℕ → ℕ × ℕ × B
  pub bp_write : B → ℕ → ℕ → ℕ × B

-- The fields of CYW_NETWORK that the service uses, the transport state, the bus, and how often
-- KeQueryInterruptTime was called.
pub record Worker (B : Type 0) : Type 0 where
  pub stop : Bool
  pub rx_pending : Bool
  pub tx_flow : ℕ
  pub transport : Transport
  pub bus : B
  pub clock_reads : ℕ

module _ {B : Type 0} (time : ℕ → ℕ) (bus : Bus B) (core : ℕ) where
  -- `Failed:`.
  unfoldable pub failed : Worker B → ℕ → ℕ × Worker B
  failed w status =
      let t = record w.transport { service_errors = inc32 w.transport.service_errors } in
      (
        status,
        record w {
          transport = set_global t true (time w.clock_reads);
          clock_reads = w.clock_reads + 1;
        },
      )

  unfoldable pub with_transport : Worker B → Transport → Worker B
  with_transport w t = record w { transport = t }

  unfoldable pub take_flow : Worker B → ℕ → Worker B
  take_flow w mail =
      if has_bit mail 2
      then record w {
        tx_flow = mail / 2 ^ 24 % 256;
        transport = set_priority w.transport (mail / 2 ^ 24 % 256) (time w.clock_reads);
        clock_reads = w.clock_reads + 1;
      }
      else w

  unfoldable pub note_mail : Worker B → ℕ → Worker B
  note_mail w mail =
      let t = w.transport in
      with_transport w (record t {
        mail_unknown = if bit_and mail 0xffe0 != 0 then inc32 t.mail_unknown else t.mail_unknown;
        mailbox_version =
            if mail_ready mail then bit_and (mail / 2 ^ 16) 255 else t.mailbox_version;
      })

  unfoldable pub take_mail : Worker B → ℕ → ℕ × Worker B
  take_mail w mail =
      let b = take_flow (note_mail w mail) mail in
      let c = if has_bit mail 0 then record b { rx_pending = true } else b in
      if has_bit mail 4
      then (
        status_device_not_ready,
        with_transport c (record c.transport {
          halted = true;
          firmware_halts = inc32 c.transport.firmware_halts;
        }),
      )
      else (status_success, c)

  -- The mailbox is read, and acknowledged with 2.
  unfoldable pub read_mail : Worker B → Bool → ℕ × Worker B
  read_mail w fallback =
      let t = w.transport in
      let a = record t {
        fallback_mailbox = if fallback then inc32 t.fallback_mailbox else t.fallback_mailbox;
        mail_reads = inc32 t.mail_reads;
      } in
      let (status, mail, b) = bus.bp_read w.bus (core + 0x4c) in
      let u = record w { transport = a; bus = b } in
      if not (nt_success status)
      then failed u status
      else let v = with_transport u (record a { last_mailbox = mail }) in
        let (acked, c) = bus.bp_write v.bus (core + 0x40) 2 in
        let x = record v { bus = c } in
        if not (nt_success acked) then failed x acked else take_mail x mail

  -- What the interrupt status asks for.
  unfoldable pub dispatch : Worker B → ℕ → Bool → ℕ × Worker B
  dispatch w ist fallback =
      let t = w.transport in
      let v =
        if int_frame ist
        then record w {
          rx_pending = true;
          transport = record t {
            frame_notifications = inc32 t.frame_notifications;
            fallback_frames = if fallback then inc32 t.fallback_frames else t.fallback_frames;
          };
        }
        else w in
      if int_mail ist then read_mail v fallback else (status_success, v)

  -- The second look at the status after a flow-control change.
  unfoldable pub recheck : Worker B → ℕ → Bool → ℕ × Worker B
  recheck w ist fallback =
      let a = record w.transport {
        fc_changes = inc32 w.transport.fc_changes;
        status_acks = inc32 w.transport.status_acks;
      } in
      let (acked, b) = bus.bp_write w.bus (core + 0x20) 0x20 in
      if not (nt_success acked)
      then failed (record w { transport = a; bus = b }) acked
      else let c = record a { status_reads = inc32 a.status_reads } in
        let (status, next, d) = bus.bp_read b (core + 0x20) in
        if not (nt_success status)
        then failed (record w { transport = c; bus = d }) status
        else let now = time w.clock_reads in
          let e = status_observed c now in
          let f = record e {
            last_interrupt = next;
            status_no_events =
                if bit_and next int_mask == 0 then inc32 e.status_no_events else e.status_no_events;
            fc_races = if fc_change next then inc32 e.fc_races else e.fc_races;
          } in
          dispatch
            (record w {
              transport = set_global f (fc_state next || fc_change next) now;
              bus = d;
              clock_reads = w.clock_reads + 1;
            })
            (bit_or ist (bit_and next int_mask)) fallback

  unfoldable pub on_change : Worker B → ℕ → Bool → ℕ × Worker B
  on_change w ist fallback =
      if fc_change ist then recheck w ist fallback else dispatch w ist fallback

  -- Every asserted event is acknowledged at once.
  unfoldable pub acknowledge : Worker B → ℕ → Bool → ℕ × Worker B
  acknowledge w ist fallback =
      let t = w.transport in
      let (acked, b) = bus.bp_write w.bus (core + 0x20) ist in
      let v = record w { transport = record t { status_acks = inc32 t.status_acks }; bus = b } in
      if ist == 0
      then on_change (with_transport w (record t { status_no_events = inc32 t.status_no_events }))
          ist fallback
      else if not (nt_success acked)
      then failed v acked
      else on_change v ist fallback

  unfoldable pub status_pass : Worker B → Bool → ℕ × Worker B
  status_pass w fallback =
      let a = record w.transport { status_reads = inc32 w.transport.status_reads } in
      let (status, ist, b) = bus.bp_read w.bus (core + 0x20) in
      if not (nt_success status)
      then failed (record w { transport = a; bus = b }) status
      else let now = time w.clock_reads in
        let c = record (status_observed a now) { last_interrupt = ist } in
        acknowledge
          (record w {
            transport = set_global c (fc_state ist) now;
            bus = b;
            clock_reads = w.clock_reads + 1;
          })
          (bit_and ist int_mask) fallback

  -- No function is pending: a status pass only when the fallback is due.
  unfoldable pub quiet : Worker B → ℕ × Worker B
  quiet w =
      let a = record w.transport { pending_empty = inc32 w.transport.pending_empty } in
      let (due, b) = fallback_due a (time w.clock_reads) in
      let v = record w { transport = b; clock_reads = w.clock_reads + 1 } in
      if due
      then status_pass (with_transport v (record b { fallback_reads = inc32 b.fallback_reads }))
          true
      else (status_success, v)

  unfoldable pub probe_pending : Worker B → ℕ × Worker B
  probe_pending w =
      let a = record w.transport { pending_reads = inc32 w.transport.pending_reads } in
      let (status, pending, b) = bus.cmd52_read w.bus 0 5 in
      let v = record w { transport = a; bus = b } in
      if not (nt_success status)
      then failed v status
      else let u = with_transport v (record a { last_pending = pending }) in
        if bit_and pending 6 == 0 then quiet u else status_pass u false

  -- CywTransportService.
  unfoldable pub service : Worker B → Bool → ℕ × Worker B
  service w probe =
      if w.stop
      then (status_cancelled, w)
      else if w.transport.halted
      then (status_device_not_ready, w)
      else if probe && not w.rx_pending
      then probe_pending w
      else status_pass w false
