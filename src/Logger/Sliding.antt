-- ===== src/Logger/Sliding.antt =====
-- The buffer of `appendSample` as a window that slides over the samples of a session.
use esp32_sensor_firmware_pl.Logger.Windows.{step_of, take-set, take_all, drop_all}
use esp32_sensor_firmware_pl.Logger.Session.{
  offer, publish, slide, store_sample, make_window, is_recording, SampleCall, append_sample, Logger,
}
use esp32_sensor_firmware_pl.Logger.Window.{
  calculate_crc, label_code, is_valid, SampleWindow, GestureLabel, SampleRecord, LoggerConfig,
}
use esp32_sensor_firmware_pl.Prelude.{
  ltb→lt, u16, ℕ, ◌+◌, ◌-◌, ◌<◌, ◌≡◌, refl, sym, ap, subst, ◌∙◌, true, not, ◌&&◌, List, [], ◌∷◌,
  ◌++◌, append-nil, leb, ltb, length, length-append, length-set, length-take, length-drop, set,
  take, drop, take-append, if_true, if_false, if_keeps, Bool-cases, inl, inr, arith, u8,
}

-- The samples of the window that is being filled.
abbrev pub pending : Logger → List SampleRecord
pending l = take l.sample_index l.sample_buf

-- Where the buffer stands between two samples of a session.
pub record IsFilling (cfg : LoggerConfig) (l : Logger) : Type 0 where
  pub recording : is_recording l.state ≡ true
  pub size : length l.sample_buf ≡ cfg.window_size
  pub room : l.sample_index < cfg.window_size

-- A window of a session: it is valid, and has the session's number and label.
abbrev pub AreOf : LoggerConfig → (id : ℕ) → GestureLabel → List SampleWindow → Type 0
AreOf cfg id label [] = Unit {0}
AreOf cfg id label (w ∷ ws) =
    ((is_valid cfg w ≡ true) × (w.header.session_id ≡ id) × (w.header.label ≡ label_code label))
    × AreOf cfg id label ws

-- The queue takes every window.
abbrev pub AllAccepted : List (SampleCall × SampleRecord) → Type 0
AllAccepted [] = Unit {0}
AllAccepted (c ∷ cs) = (c.0.queue_accepts ≡ true) × AllAccepted cs

unfoldable pub append_samples : LoggerConfig → Logger → List (SampleCall × SampleRecord) → Logger
unfolding append_sample
append_samples cfg l [] = l
append_samples cfg l (c ∷ cs) = append_samples cfg (append_sample cfg l c.0 c.1) cs

-- What a sample leaves behind: the samples that are kept, and the windows that go to the queue.
pub record IsPushed (cfg : LoggerConfig) (l : Logger) (kept : List SampleRecord)
    (ws : List SampleWindow) (l' : Logger) : Type 0 where
  pub filling : IsFilling cfg l'
  pub left : pending l' ≡ kept
  pub queue : l'.queue ≡ l.queue ++ ws
  pub session : l'.current_session_id ≡ l.current_session_id
  pub label : l'.current_label ≡ l.current_label

-- The copy for the inference task leaves these as they are.
record IsCopy (l l' : Logger) : Type 0 where
  state : l'.state ≡ l.state
  sample_buf : l'.sample_buf ≡ l.sample_buf
  queue : l'.queue ≡ l.queue
  session : l'.current_session_id ≡ l.current_session_id
  label : l'.current_label ≡ l.current_label

module _ (cfg : LoggerConfig) (moves : 0 < cfg.window_stride) (size : 0 < cfg.window_size)
    (small : cfg.window_size < 256) where
  -- A window that is made of a full buffer is one of the session.
  make_window-valid :
      (l : Logger) (call : SampleCall) (label : GestureLabel) (samples : List SampleRecord)
      → let w = make_window cfg l call label samples in
        (is_valid cfg w ≡ true)
        × (w.header.session_id ≡ l.current_session_id)
        × (w.header.label ≡ label_code label)
        × (w.samples ≡ samples)
  unfolding make_window is_valid calculate_crc
  make_window-valid l call label samples = (ground arith, refl, refl, refl)

  stored_pending :
      (l : Logger) (call : SampleCall) (s : SampleRecord)
      → IsFilling cfg l
      → pending (store_sample l call s) ≡ pending l ++ (s ∷ [])
  stored_pending l call s v =
      let next : u8 (l.sample_index + 1) ≡ l.sample_index + 1 = omega (arith, v.room) in
      let room : l.sample_index < length l.sample_buf = omega (arith, v.room, v.size) in
      ap (λ k. take k (set l.sample_buf l.sample_index s)) next
      ∙ take-set l.sample_buf l.sample_index s room

  -- A sample that does not fill the buffer.
  pub append_sample-IsPushed :
      (l : Logger) (call : SampleCall) (s : SampleRecord)
      → IsFilling cfg l
      → l.sample_index + 1 < cfg.window_size
      → IsPushed cfg l (pending l ++ (s ∷ [])) [] (append_sample cfg l call s)
  unfolding append_sample
  append_sample-IsPushed l call s v more =
      let stored = store_sample l call s in
      subst (IsPushed cfg l (pending l ++ (s ∷ [])) [])
        (sym (if_false (leb cfg.window_size stored.sample_index) _ stored (ground arith)))
        (record {
          filling = record {
            recording = v.recording;
            size = length-set l.sample_buf l.sample_index s ∙ v.size;
            room = omega (arith, more);
          };
          left = stored_pending l call s v;
          queue = sym (append-nil l.queue);
          session = refl;
          label = refl;
        })

  -- `memmove` keeps the samples behind the stride.
  slide-IsPushed :
      (l stored : Logger) (ws : List SampleWindow)
      → is_recording stored.state ≡ true
      → length stored.sample_buf ≡ cfg.window_size
      → stored.queue ≡ l.queue ++ ws
      → stored.current_session_id ≡ l.current_session_id
      → stored.current_label ≡ l.current_label
      → IsPushed cfg l (drop (step_of cfg) stored.sample_buf) ws (slide cfg stored)
  slide-IsPushed l stored ws on full queued session label =
      let b = stored.sample_buf in
      let keep = u8 (cfg.window_size - cfg.window_stride) in
      let kept = drop (step_of cfg) b in
      elim (Bool-cases (ltb cfg.window_stride cfg.window_size)) [
        | inl inside ↦
            let tail = drop cfg.window_stride b in
            let tail_length : length tail ≡ keep =
              omega (arith, length-drop cfg.window_stride b, full, small) in
            let whole : take keep tail ≡ tail = take_all keep tail (omega (arith, tail_length)) in
            let inner : cfg.window_stride < cfg.window_size = ltb→lt _ _ inside in
            subst (IsPushed cfg l kept ws)
              (sym (if_true (ltb cfg.window_stride cfg.window_size) _ _ inside))
              (record {
                filling = record {
                  recording = on;
                  size = omega (
                    arith,
                    length-append (take keep tail) (drop keep b),
                    ap length whole,
                    tail_length,
                    length-drop keep b,
                    full,
                    inner,
                    small,
                  );
                  room = omega (arith, moves, inner, small);
                };
                left =
                    ap (λ h. take keep (h ++ drop keep b)) whole
                    ∙ ap (λ k. take k (tail ++ drop keep b)) (sym tail_length)
                    ∙ take-append tail (drop keep b)
                    ∙ ap (λ k. drop k b)
                        (sym (
                          if_true (ltb cfg.window_stride cfg.window_size) _ cfg.window_size
                            inside));
                queue = queued;
                session = session;
                label = label;
              })
        | inr outside ↦
            subst (IsPushed cfg l kept ws)
              (sym (if_false (ltb cfg.window_stride cfg.window_size) _ _ outside))
              (record {
                filling = record { recording = on; size = full; room = size };
                left = sym (
                    ap (λ k. drop k b)
                      (if_false (ltb cfg.window_stride cfg.window_size) cfg.window_stride _ outside)
                    ∙ drop_all cfg.window_size b (omega (arith, full)));
                queue = queued;
                session = session;
                label = label;
              })
      ]

  -- The sample that fills the buffer.
  pub append_sample-full :
      (l : Logger) (call : SampleCall) (s : SampleRecord)
      → IsFilling cfg l
      → l.sample_index + 1 ≡ cfg.window_size
      → call.queue_accepts ≡ true
      → let q = pending l ++ (s ∷ []) in
        (w : SampleWindow) × (w.samples ≡ q)
        × (is_valid cfg w ≡ true)
        × (w.header.session_id ≡ l.current_session_id)
        × (w.header.label ≡ label_code l.current_label)
        × IsPushed cfg l (drop (step_of cfg) q) (w ∷ []) (append_sample cfg l call s)
  unfolding append_sample
  append_sample-full l call s v last ok =
      let stored = store_sample l call s in
      let p = publish cfg stored call in
      let copy : IsCopy stored p =
        if_keeps (IsCopy stored) (stored.has_inference_mutex && call.mutex_taken) _ stored
          (record { state = refl; sample_buf = refl; queue = refl; session = refl; label = refl })
          (record {
            state = refl;
            sample_buf = refl;
            queue = refl;
            session = refl;
            label = refl;
          }) in
      let length_full : length stored.sample_buf ≡ cfg.window_size =
        length-set l.sample_buf l.sample_index s ∙ v.size in
      let next : stored.sample_index ≡ cfg.window_size = omega (arith, v.room, last) in
      let whole : p.sample_buf ≡ pending l ++ (s ∷ []) =
        copy.sample_buf
        ∙ sym (take_all stored.sample_index stored.sample_buf (omega (arith, next, length_full)))
        ∙ stored_pending l call s v in
      let w = make_window cfg p call p.current_label p.sample_buf in
      let made = make_window-valid p call p.current_label p.sample_buf in
      let o = record p {
        queue = p.queue ++ (w ∷ []);
        current_window_id = u16 (p.current_window_id + 1);
      } in
      let on : is_recording p.state ≡ true = ap is_recording copy.state ∙ v.recording in
      let offered : offer cfg p call ≡ o =
        if_false (not (is_recording p.state)) _ _ (ap not on) ∙ if_true call.queue_accepts _ _ ok in
      let done : append_sample cfg l call s ≡ slide cfg o =
        if_true (leb cfg.window_size stored.sample_index) _ stored (ground (arith, next))
        ∙ ap (slide cfg) offered in
      let pushed =
        slide-IsPushed l o (w ∷ []) on (ap length copy.sample_buf ∙ length_full)
          (ap (λ ws. ws ++ (w ∷ [])) copy.queue) copy.session copy.label in
      (
        w,
        made.3 ∙ whole,
        made.0,
        made.1 ∙ copy.session,
        made.2 ∙ ap label_code copy.label,
        subst (λ k. IsPushed cfg l k (w ∷ []) (append_sample cfg l call s))
            (ap (drop (step_of cfg)) whole)
            (subst (IsPushed cfg l (drop (step_of cfg) p.sample_buf) (w ∷ [])) (sym done) pushed),
      )

pub pending-length :
    (cfg : LoggerConfig) (l : Logger) → IsFilling cfg l → length (pending l) < cfg.window_size
pending-length cfg l v =
    omega (arith, length-take l.sample_index l.sample_buf (omega (arith, v.size, v.room)), v.room)
