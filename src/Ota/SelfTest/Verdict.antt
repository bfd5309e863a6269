-- ===== src/Ota/SelfTest/Verdict.antt =====
-- What `OTAManager::performSelfTest` decides and what `validateBootedFirmware` makes of it.
use esp32_sensor_firmware_pl.Prelude.{
  ◌∙◌, ◌<◌, ℕ, suc, ◌+◌, ◌≡◌, ◌↔◌, refl, ap, Bool, true, false, ◌&&◌, Option, none, some, ltb, ◌==◌,
  if◌then◌else◌, arith,
}
use esp32_sensor_firmware_pl.Ota.SelfTest.{
  SelfTestCall, Tally, pass, warn, fail, must, find_sensor, test_sensor, heap_ok, partitions_ok,
  nvs_ok, is_ready, perform_self_test, ImageState, pending_verify, rolls_back,
  validate_booted_firmware, has_driver,
}

-- After `n` tests each has been counted once.
record Counted (n : ℕ) (t : Tally) : Type 0 where
  total : t.pass_count + t.warn_count + t.fail_count ≡ n
  verdict : t.firmware_ok ≡ (t.fail_count == 0)

Counted-pass : (n : ℕ) (t : Tally) → n < 255 → Counted n t → Counted (suc n) (pass t)
Counted-pass n t h c = ground (arith, c)

Counted-warn : (n : ℕ) (t : Tally) → n < 255 → Counted n t → Counted (suc n) (warn t)
Counted-warn n t h c = ground (arith, c)

Counted-fail : (n : ℕ) (t : Tally) → n < 255 → Counted n t → Counted (suc n) (fail t)
Counted-fail n t h c = ground (arith, c)

Counted-must :
    (n : ℕ) (ok : Bool) (t : Tally)
    → n < 255
    → Counted n t
    → Counted (suc n) (must ok t) × ((must ok t).firmware_ok ≡ (t.firmware_ok && ok))
Counted-must n true t h c = (Counted-pass n t h c, ground arith)
Counted-must n false t h c = (Counted-fail n t h c, ground arith)

Counted-soft :
    (n : ℕ) (ok : Bool) (t : Tally)
    → n < 255
    → Counted n t
    → let t' = if ok then pass t else warn t in
      Counted (suc n) t' × (t'.firmware_ok ≡ t.firmware_ok)
Counted-soft n true t h c = (Counted-pass n t h c, refl)
Counted-soft n false t h c = (Counted-warn n t h c, refl)

Counted-sensor :
    (n retries : ℕ) (sensor : Option (ℕ → Bool × ℕ)) (t : Tally)
    → n < 255
    → Counted n t
    → let t' = test_sensor retries sensor t in
      Counted (suc n) t' × (t'.firmware_ok ≡ (t.firmware_ok && has_driver sensor))
Counted-sensor n retries none t h c = (Counted-fail n t h c, ground arith)
Counted-sensor n retries (some answer) t h c =
    let soft = Counted-soft n (find_sensor answer retries 1) t h c in
    (soft.0, soft.1 ∙ ground arith)

Counted-last :
    (n : ℕ) (ok : Bool) (t : Tally)
    → n < 255
    → Counted n t
    → let t' = if ok then pass t else pass t in
      Counted (suc n) t' × (t'.firmware_ok ≡ t.firmware_ok)
Counted-last n true t h c = (Counted-pass n t h c, refl)
Counted-last n false t h c = (Counted-pass n t h c, refl)

and_assoc₅ : (a b c d e : Bool) → ((((true && a) && b) && c) && d) && e ≡ a && b && c && d && e
and_assoc₅ a b c d e = ground arith

-- Every test counts once, and the firmware passes exactly when none failed: the sensor driver is
-- there, the heap, the partitions, NVS and the storage are good. A sensor that does not answer, an LED
-- that is missing and a test that takes too long do not fail it.
pub perform_self_test_lem :
    (retries limit_ms : ℕ) (call : SelfTestCall)
    → let t = perform_self_test retries limit_ms call in
      (t.pass_count + t.warn_count + t.fail_count ≡ 7)
      × (t.firmware_ok ≡ (t.fail_count == 0))
      × (t.firmware_ok ≡ (
          has_driver call.sensor
          && heap_ok call
          && partitions_ok call
          && nvs_ok call
          && is_ready call.storage_ready))
unfolding perform_self_test
perform_self_test_lem retries limit_ms call =
    let start : Tally = record {
      firmware_ok = true;
      pass_count = 0;
      warn_count = 0;
      fail_count = 0;
    } in
    let t1 = test_sensor retries call.sensor start in
    let t2 = must (heap_ok call) t1 in
    let t3 = must (partitions_ok call) t2 in
    let t4 = must (nvs_ok call) t3 in
    let t5 = if call.has_led then pass t4 else warn t4 in
    let t6 = must (is_ready call.storage_ready) t5 in
    let one =
      Counted-sensor 0 retries call.sensor start (omega arith)
        (record { total = refl; verdict = refl }) in
    let two = Counted-must 1 (heap_ok call) t1 (omega arith) one.0 in
    let three = Counted-must 2 (partitions_ok call) t2 (omega arith) two.0 in
    let four = Counted-must 3 (nvs_ok call) t3 (omega arith) three.0 in
    let five = Counted-soft 4 call.has_led t4 (omega arith) four.0 in
    let six = Counted-must 5 (is_ready call.storage_ready) t5 (omega arith) five.0 in
    let seven = Counted-last 6 (ltb call.duration_ms limit_ms) t6 (omega arith) six.0 in
    (
      seven.0.total,
      seven.0.verdict,
      seven.1
          ∙ six.1
          ∙ ap (λ x. x && is_ready call.storage_ready)
              (five.1
                ∙ four.1
                ∙ ap (λ x. x && nvs_ok call)
                    (three.1
                      ∙ ap (λ x. x && partitions_ok call)
                          (two.1 ∙ ap (λ x. x && heap_ok call) one.1)))
          ∙ and_assoc₅ (has_driver call.sensor) (heap_ok call) (partitions_ok call) (nvs_ok call)
              (is_ready call.storage_ready),
    )

-- The device rolls back exactly when a new firmware, not yet confirmed, fails its self-test.
pub rolls_back_iff :
    (retries limit_ms : ℕ) (has_running : Bool) (image : Option ImageState) (call : SelfTestCall)
    (confirms : Bool)
    → (validate_booted_firmware retries limit_ms has_running image call confirms ≡ rolls_back) ↔ (
        (has_running ≡ true)
        × (image ≡ some pending_verify)
        × ((perform_self_test retries limit_ms call).firmware_ok ≡ false))
unfolding validate_booted_firmware
rolls_back_iff retries limit_ms has_running image call confirms =
    (λ h. ground arith, λ h. ground arith)
