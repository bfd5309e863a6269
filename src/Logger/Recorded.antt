-- ===== src/Logger/Recorded.antt =====
-- What a session sends to the logger task.
use esp32_sensor_firmware_pl.Logger.Sliding.{
  append_sample-full, append_sample-IsPushed, pending-length, pending, AllAccepted, IsFilling,
  AreOf, append_samples,
}
use esp32_sensor_firmware_pl.Logger.Windows.{windows_of, windows_of-full, windows_of-short}
use esp32_sensor_firmware_pl.Logger.Session.{
  is_invalid, append_sample, recording, is_open, start_session, Logger, SampleCall,
}
use esp32_sensor_firmware_pl.Logger.Window.{SampleRecord, GestureLabel, LoggerConfig, SampleWindow}
use esp32_sensor_firmware_pl.Prelude.{
  if_false, not, u16, ltb→lt, ℕ, zero, suc, ◌+◌, ◌≤◌, ◌<◌, ◌≡◌, refl, sym, ap, ap₂, subst, ◌∙◌,
  Bool, true, false, List, [], ◌∷◌, ◌++◌, append_assoc, append-nil, length, length-append,
  length-take, ltb, Bool-cases, inl, inr, arith, if◌then◌else◌,
}

abbrev pub samples_of : List (SampleCall × SampleRecord) → List SampleRecord
samples_of [] = []
samples_of (c ∷ cs) = c.1 ∷ samples_of cs

abbrev pub contents_of : List SampleWindow → List (List SampleRecord)
contents_of [] = []
contents_of (w ∷ ws) = w.samples ∷ contents_of ws

-- What the samples of a session leave: windows behind those that were in the queue, which are the
-- full windows of the samples.
record IsRecorded (cfg : LoggerConfig) (id : ℕ) (label : GestureLabel) (before : List SampleWindow)
    (windows : List (List SampleRecord)) (l : Logger) : Type 0 where
  sent : List SampleWindow
  queue : l.queue ≡ before ++ sent
  samples : contents_of sent ≡ windows
  valid : AreOf cfg id label sent

module _ (cfg : LoggerConfig) (moves : 0 < cfg.window_stride) (size : 0 < cfg.window_size)
    (small : cfg.window_size < 256) where
  records :
      (cs : List (SampleCall × SampleRecord)) (l : Logger) (n : ℕ)
      → IsFilling cfg l
      → AllAccepted cs
      → length cs ≤ n
      → IsRecorded cfg l.current_session_id l.current_label l.queue
          (windows_of cfg n (pending l ++ samples_of cs))
          (append_samples cfg l cs)
  unfolding append_samples
  records [] l n v ok enough = record {
    sent = [];
    queue = sym (append-nil l.queue);
    samples = sym (
        ap (windows_of cfg n) (append-nil (pending l))
        ∙ windows_of-short cfg n (pending l) (pending-length cfg l v));
    valid = tt;
  }
  records (c ∷ cs) l zero v ok enough = absurd (omega arith)
  records (c ∷ cs) l (suc n) v ok enough =
      elim (Bool-cases (ltb (l.sample_index + 1) cfg.window_size)) [
        | inl more ↦
            let p = append_sample-IsPushed cfg moves size small l c.0 c.1 v (ltb→lt _ _ more) in
            let l' = append_sample cfg l c.0 c.1 in
            let r = records cs l' (suc n) p.filling ok.1 (omega (arith, enough)) in
            record {
              sent = r.sent;
              queue = r.queue ∙ ap (λ q. q ++ r.sent) (p.queue ∙ append-nil l.queue);
              samples =
                  r.samples
                  ∙ ap (windows_of cfg (suc n)) (
                      ap (λ k. k ++ samples_of cs) p.left
                      ∙ append_assoc (pending l) (c.1 ∷ []) (samples_of cs));
              valid =
                  subst (λ i. AreOf cfg i l.current_label r.sent) p.session
                    (subst (λ k. AreOf cfg l'.current_session_id k r.sent) p.label r.valid);
            }
        | inr last ↦
            let q = pending l ++ (c.1 ∷ []) in
            let full : l.sample_index + 1 ≡ cfg.window_size = ground (arith, v.room) in
            let (w, holds, good, of_id, of_label, p) =
              append_sample-full cfg moves size small l c.0 c.1 v full ok.0 in
            let l' = append_sample cfg l c.0 c.1 in
            let r = records cs l' n p.filling ok.1 (omega (arith, enough)) in
            let q_full : length q ≡ cfg.window_size = omega (
              arith,
              length-append (pending l) (c.1 ∷ []),
              length-take l.sample_index l.sample_buf (omega (arith, v.size, v.room)),
              full,
            ) in
            record {
              sent = w ∷ r.sent;
              queue =
                  r.queue ∙ ap (λ k. k ++ r.sent) p.queue ∙ append_assoc l.queue (w ∷ []) r.sent;
              samples =
                  ap₂ (λ x xs. x ∷ xs) holds
                    (r.samples ∙ ap (λ k. windows_of cfg n (k ++ samples_of cs)) p.left)
                  ∙ sym (
                      ap (windows_of cfg (suc n))
                        (sym (append_assoc (pending l) (c.1 ∷ []) (samples_of cs)))
                      ∙ windows_of-full cfg n q (samples_of cs) q_full);
              valid = (
                (good, of_id, of_label),
                subst (λ i. AreOf cfg i l.current_label r.sent) p.session
                    (subst (λ k. AreOf cfg l'.current_session_id k r.sent) p.label r.valid),
              );
            }
      ]

-- A session that starts, where windows have at least one sample and at most 255 and move: as long as
-- the queue takes every window, what goes to it, behind what was in it, are the full windows of the
-- session's samples at every multiple of the step, in order, and each is valid and has the session's
-- number and label.
pub start_session-windows :
    (cfg : LoggerConfig) (l : Logger) (opens : Bool) (label : GestureLabel)
    (cs : List (SampleCall × SampleRecord))
    → 0 < cfg.window_stride
    → 0 < cfg.window_size
    → cfg.window_size < 256
    → length l.sample_buf ≡ cfg.window_size
    → is_open l.state ≡ false
    → (start_session l opens label).1 ≡ true
    → AllAccepted cs
    → (sent : List SampleWindow) × ((append_samples cfg (start_session l opens label).0 cs).queue
        ≡ l.queue ++ sent)
      × (contents_of sent ≡ windows_of cfg (length cs) (samples_of cs))
      × AreOf cfg l.next_session_id label sent
unfolding start_session
start_session-windows cfg l opens label cs moves size small whole closed ok accepted =
    let l' = record l {
      current_session_id = l.next_session_id;
      next_session_id = u16 (l.next_session_id + 1);
      current_window_id = 0;
      windows_written = 0;
      current_label = label;
      sample_index = 0;
      manifest = if opens then l.manifest ++ ((l.next_session_id, label) ∷ []) else l.manifest;
      state = recording;
    } in
    let mounted : not l.mounted ≡ false = ground (arith, closed, ok) in
    let known : is_invalid label ≡ false = ground (arith, closed, ok) in
    let started : (start_session l opens label).0 ≡ l' =
      ap (λ (x : Logger × Bool). x.0)
        (if_false (is_open l.state) _ _ closed
          ∙ if_false (not l.mounted) _ _ mounted
          ∙ if_false (is_invalid label) _ _ known) in
    let r =
      records cfg moves size small cs l' (length cs)
        (record { recording = refl; size = whole; room = size }) accepted (omega arith) in
    (r.sent, ap (λ x. (append_samples cfg x cs).queue) started ∙ r.queue, r.samples, r.valid)
