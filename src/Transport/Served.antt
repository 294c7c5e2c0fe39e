-- ===== src/Transport/Served.antt =====
-- What a pass of the service in src/cyw43455/transport_service.h guarantees to the senders.
use rpi5_wifi_driver_win11ar.Prelude.{
  ℕ, ◌+◌, ◌≡◌, refl, Bool, true, false, not, ◌&&◌, ◌||◌, arith, ◌==◌, bit_and, ltb, inc32,
  both_branches, each_branch,
}
use rpi5_wifi_driver_win11ar.Prelude.Bits.{bit_and-bit}
use rpi5_wifi_driver_win11ar.Transport.{
  Transport, status_observed, fallback_due, set_global, set_priority,
}
use rpi5_wifi_driver_win11ar.Transport.Service.{
  nt_success, int_mask, fc_state, fc_change, Bus, Worker, failed, with_transport, take_flow,
  note_mail, take_mail, read_mail, int_frame, int_mail, dispatch, recheck, on_change, acknowledge,
  status_pass, quiet, probe_pending, service,
}

-- The sending is stopped: by the driver, by a firmware halt, or by the global flow state.
abbrev pub stopped : {B : Type 0} → Worker B → Bool
stopped w = w.stop || (w.transport.halted || w.transport.global_flow)

-- The last interrupt status that was read asks for no stop, or the sending is stopped.
abbrev pub followed : Transport → Bool
followed t = not (fc_state t.last_interrupt || fc_change t.last_interrupt) || t.global_flow

-- What every answer of the service has.
record Answer {B : Type 0} (r : ℕ × Worker B) : Type 0 where
  fails_stopped : (nt_success r.0 || stopped r.1) ≡ true
  flow_followed : followed r.1.transport ≡ true

module _ {B : Type 0} (time : ℕ → ℕ) (bus : Bus B) (core : ℕ) where
  set_global-followed :
      (t : Transport) (state : Bool) (now : ℕ)
      → (fc_state t.last_interrupt || fc_change t.last_interrupt) ≡ state
      → followed (set_global t state now) ≡ true
  unfolding set_global
  set_global-followed t state now h = ground arith

  failed-Answer : (w : Worker B) (status : ℕ) → Answer (failed time bus core w status)
  unfolding failed set_global
  failed-Answer w status = ground arith

  take_flow-followed :
      (w : Worker B) (mail : ℕ)
      → followed w.transport ≡ true
      → followed (take_flow time bus core w mail).transport ≡ true
  unfolding take_flow set_priority
  take_flow-followed w mail h = ground arith

  note_mail-followed :
      (w : Worker B) (mail : ℕ)
      → followed w.transport ≡ true
      → followed (note_mail time bus core w mail).transport ≡ true
  unfolding note_mail with_transport
  note_mail-followed w mail h = h

  take_mail-Answer :
      (w : Worker B) (mail : ℕ)
      → followed w.transport ≡ true
      → Answer (take_mail time bus core w mail)
  unfolding take_mail with_transport
  take_mail-Answer w mail h = ground (
    arith,
    take_flow-followed (note_mail time bus core w mail) mail (note_mail-followed w mail h),
  )

  read_mail-Answer :
      (w : Worker B) (fallback : Bool)
      → followed w.transport ≡ true
      → Answer (read_mail time bus core w fallback)
  unfolding read_mail with_transport
  read_mail-Answer w fallback h =
      both_branches Answer (not (nt_success (bus.bp_read w.bus (core + 0x4c)).0))
        (failed-Answer _ _)
        (both_branches Answer
          (not (nt_success (bus.bp_write (bus.bp_read w.bus (core + 0x4c)).2 (core + 0x40) 2).0))
          (failed-Answer _ _) (take_mail-Answer _ _ h))

  dispatch-Answer :
      (w : Worker B) (ist : ℕ) (fallback : Bool)
      → followed w.transport ≡ true
      → Answer (dispatch time bus core w ist fallback)
  unfolding dispatch
  dispatch-Answer w ist fallback h =
      both_branches Answer (int_mail ist)
        (read_mail-Answer _ fallback
          (both_branches (λ (v : Worker B). followed v.transport ≡ true) (int_frame ist) h h))
        (record {
          fails_stopped = refl;
          flow_followed =
              both_branches (λ (v : Worker B). followed v.transport ≡ true) (int_frame ist) h h;
        })

  recheck-Answer :
      (w : Worker B) (ist : ℕ) (fallback : Bool) → Answer (recheck time bus core w ist fallback)
  unfolding recheck status_observed
  recheck-Answer w ist fallback =
      both_branches Answer (not (nt_success (bus.bp_write w.bus (core + 0x20) 0x20).0))
        (failed-Answer _ _)
        (both_branches Answer
          (not (nt_success (bus.bp_read (bus.bp_write w.bus (core + 0x20) 0x20).1 (core + 0x20)).0))
          (failed-Answer _ _) (dispatch-Answer _ _ fallback (set_global-followed _ _ _ refl)))

  -- The masked status keeps its flow-control change.
  change-masked : (ist : ℕ) → fc_change (bit_and ist int_mask) ≡ fc_change ist
  change-masked ist = ground (arith, bit_and-bit 5 ist int_mask)

  on_change-Answer :
      (w : Worker B) (ist : ℕ) (fallback : Bool)
      → (fc_change ist ≡ false → followed w.transport ≡ true)
      → Answer (on_change time bus core w ist fallback)
  unfolding on_change
  on_change-Answer w ist fallback h =
      each_branch Answer (fc_change ist) (λ _. recheck-Answer w ist fallback)
        (λ e. dispatch-Answer w ist fallback (h e))

  acknowledge-Answer :
      (w : Worker B) (ist : ℕ) (fallback : Bool)
      → (fc_change ist ≡ false → followed w.transport ≡ true)
      → Answer (acknowledge time bus core w ist fallback)
  unfolding acknowledge with_transport
  acknowledge-Answer w ist fallback h =
      both_branches Answer (ist == 0) (on_change-Answer _ ist fallback h) (
        both_branches Answer (not (nt_success (bus.bp_write w.bus (core + 0x20) ist).0))
          (failed-Answer _ _) (on_change-Answer _ ist fallback h))

  status_pass-Answer :
      (w : Worker B) (fallback : Bool) → Answer (status_pass time bus core w fallback)
  unfolding status_pass status_observed
  status_pass-Answer w fallback =
      let ist = (bus.bp_read w.bus (core + 0x20)).1 in
      both_branches Answer (not (nt_success (bus.bp_read w.bus (core + 0x20)).0))
        (failed-Answer _ _)
        (acknowledge-Answer _ (bit_and ist int_mask) fallback
          (λ e. set_global-followed _ (fc_state ist) _ (ground (arith, e, change-masked ist))))

  fallback_due-followed :
      (t : Transport) (now : ℕ) → followed t ≡ true → followed (fallback_due t now).1 ≡ true
  unfolding fallback_due status_observed
  fallback_due-followed t now h =
      both_branches (λ (r : Bool × Transport). followed r.1 ≡ true)
        (not t.status_clock_valid || ltb now t.last_status) h h

  quiet-Answer : (w : Worker B) → followed w.transport ≡ true → Answer (quiet time bus core w)
  unfolding quiet with_transport
  quiet-Answer w h =
      let due =
        fallback_due (record w.transport { pending_empty = inc32 w.transport.pending_empty })
          (time w.clock_reads) in
      both_branches Answer due.0 (status_pass-Answer _ true)
        (record { fails_stopped = refl; flow_followed = fallback_due-followed _ _ h })

  probe_pending-Answer :
      (w : Worker B) → followed w.transport ≡ true → Answer (probe_pending time bus core w)
  unfolding probe_pending with_transport
  probe_pending-Answer w h =
      let r = bus.cmd52_read w.bus 0 5 in
      both_branches Answer (not (nt_success r.0)) (failed-Answer _ _)
        (both_branches Answer (bit_and r.1 6 == 0) (quiet-Answer _ h) (status_pass-Answer _ false))

  service-Answer :
      (w : Worker B) (probe : Bool)
      → followed w.transport ≡ true
      → Answer (service time bus core w probe)
  unfolding service
  service-Answer w probe h =
      each_branch Answer w.stop
        (λ e. record { fails_stopped = ground (arith, e); flow_followed = h })
        (λ _.
          each_branch Answer w.transport.halted
            (λ e. record { fails_stopped = ground (arith, e); flow_followed = h })
            (λ _.
              both_branches Answer (probe && not w.rx_pending) (probe_pending-Answer w h)
                (status_pass-Answer w false)))

  -- Whatever the bus answers: when a pass of the service fails, the sending is stopped by the
  -- driver, by a firmware halt or by the global flow state; and as long as the interrupt status
  -- that was read last shows a flow-control state or an unsettled change, the global flow state
  -- stays set.
  pub service-stopped :
      (w : Worker B) (probe : Bool)
      → followed w.transport ≡ true
      → let (status, v) = service time bus core w probe in
        ((nt_success status || stopped v) ≡ true) × (followed v.transport ≡ true)
  service-stopped w probe h = let a = service-Answer w probe h in (a.fails_stopped, a.flow_followed)
