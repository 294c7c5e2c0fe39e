-- ===== src/Mailbox/Tests.antt =====
-- The mailbox of src/driver/diag_mailbox.h on a schedule.
use rpi5_wifi_driver_win11ar.Prelude.{ℕ, ◌≡◌, refl, List, [], ◌∷◌, ◌++◌}
use rpi5_wifi_driver_win11ar.Mailbox.{
  Step, begin_step, fill_step, publish_step, take_step, release_step, run_steps, mailbox_step,
  diag_begin, diag_publish, diag_take, diag_release, fill, at_index, put_index, is_free, is_ready,
}
use rpi5_wifi_driver_win11ar.Mailbox.Loads.{waiting}
use rpi5_wifi_driver_win11ar.Mailbox.Fifo.{fresh, published-run_steps}

-- Three captures, the third of which is skipped, while the first is written out.
abbrev schedule : List (Step ℕ)
schedule =
    begin_step
    ∷ (fill_step 5
        ∷ (publish_step
            ∷ (take_step
                ∷ (begin_step
                    ∷ (fill_step 6 ∷ (publish_step ∷ (begin_step ∷ (release_step ∷ []))))))))

abbrev cleared : ℕ → ℕ
cleared n = 0

skipped_test : (run_steps cleared (fresh 0 0) schedule).mailbox.skipped ≡ 1
unfolding run_steps mailbox_step diag_begin diag_publish diag_take diag_release fill at_index
    put_index is_free is_ready
skipped_test = refl

published-run_steps_example :
    (run_steps cleared (fresh 0 0) schedule).published
    ≡ (run_steps cleared (fresh 0 0) schedule).written
      ++ waiting (run_steps cleared (fresh 0 0) schedule).mailbox
published-run_steps_example = published-run_steps cleared 0 0 schedule
