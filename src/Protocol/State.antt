-- ===== src/Protocol/State.antt =====
-- The members of `ProtocolHandler` and the table of messages that wait for an acknowledgement.
use esp32_sensor_firmware_pl.Prelude.{
  ℕ, zero, ◌+◌, ◌++◌, Bool, true, false, not, ◌&&◌, List, [], ◌∷◌, Option, none, some, ltb, ◌==◌,
  length, set, drop, replicate, u8, if◌then◌else◌,
}
use esp32_sensor_firmware_pl.Protocol.Messages.{MessageType, msg_hello}

pub record PendingMessage : Type 0 where
  pub active : Bool
  pub seq_num : ℕ  -- uint16_t
  pub sent_time : ℕ  -- uint32_t
  pub retry_count : ℕ  -- uint8_t
  pub msg_type : MessageType
  pub data_len : ℕ
  pub frame : List ℕ  -- the whole buffer

abbrev pub max_pending_messages : ℕ
max_pending_messages = 64

-- `HEADER_SIZE + MAX_PAYLOAD_SIZE + CRC_SIZE`.
abbrev pub frame_buffer_size : ℕ
frame_buffer_size = 509

-- A slot after the `memset` of the constructor.
abbrev pub empty_message : PendingMessage
empty_message = record {
  active = false;
  seq_num = 0;
  sent_time = 0;
  retry_count = 0;
  msg_type = msg_hello;
  data_len = 0;
  frame = replicate frame_buffer_size 0;
}

-- A pointer is modelled by whether it is set, a callback likewise. `sent` records, oldest first, the
-- frames that `sendNotification` has taken.
pub record Handler : Type 0 where
  pub has_ble : Bool
  pub has_history : Bool
  pub has_ota : Bool
  pub tx_seq_num : ℕ
  pub expected_rx_seq_num : ℕ
  pub pending : List PendingMessage
  pub tx_count : ℕ
  pub rx_count : ℕ
  pub retry_count : ℕ
  pub error_count : ℕ
  pub invalid_ack_count : ℕ
  pub last_security_event : ℕ
  pub detection_event_count : ℕ
  pub detection_window_start : ℕ
  pub last_config_seq_num : ℕ
  pub config_seq_initialized : Bool
  pub initialized : Bool
  pub broken : Bool
  pub has_mutex : Bool
  pub on_time_sync_received : Bool
  pub on_sleep_command_received : Bool
  pub on_calibrate_requested : Bool
  pub on_get_battery_status : Bool
  pub on_activity_detected : Bool
  pub sent : List (List ℕ)

-- The constructor; `mutex` is what the kernel returns.
unfoldable pub new : (mutex : Bool) → Handler
new mutex = record {
  has_ble = false;
  has_history = false;
  has_ota = false;
  tx_seq_num = 0;
  expected_rx_seq_num = 0;
  pending = replicate max_pending_messages empty_message;
  tx_count = 0;
  rx_count = 0;
  retry_count = 0;
  error_count = 0;
  invalid_ack_count = 0;
  last_security_event = 0;
  detection_event_count = 0;
  detection_window_start = 0;
  last_config_seq_num = 0;
  config_seq_initialized = false;
  initialized = false;
  broken = not mutex;
  has_mutex = mutex;
  on_time_sync_received = false;
  on_sleep_command_received = false;
  on_calibrate_requested = false;
  on_get_battery_status = false;
  on_activity_detected = false;
  sent = [];
}

unfoldable pub init : Handler → (ble history : Bool) → Handler × Bool
init h ble history =
    if h.broken
    then (h, false)
    else (record h { has_ble = ble; has_history = history; initialized = true }, true)

-- A loop over the slots that stops at the first one which passes a test, and its index.
abbrev pub find_slot : (PendingMessage → Bool) → List PendingMessage → Option ℕ
find_slot p [] = none
find_slot p (m ∷ ms) =
    let rest = elim (find_slot p ms) as (λ o. Option ℕ) [ none ↦ none | some i ↦ some (i + 1) ] in
    if p m then some 0 else rest

abbrev pub slot_at : List PendingMessage → ℕ → PendingMessage
slot_at [] i = empty_message
slot_at (m ∷ ms) zero = m
slot_at (m ∷ ms) (ℕ.suc i) = slot_at ms i

abbrev pub is_free : PendingMessage → Bool
is_free m = not m.active

abbrev pub waits_for : ℕ → PendingMessage → Bool
waits_for seq_num m = m.active && m.seq_num == seq_num

-- `none` is -1.
unfoldable pub find_free_slot : List PendingMessage → Option ℕ
find_free_slot pending = find_slot is_free pending

-- `memcpy` of a frame to the start of the buffer.
abbrev pub copy_in : List ℕ → List ℕ → List ℕ
copy_in frame buffer = frame ++ drop (length frame) buffer

abbrev pub fill_slot : ℕ → MessageType → List ℕ → ℕ → PendingMessage → PendingMessage
fill_slot seq_num type frame millis m = record {
  active = true;
  seq_num = seq_num;
  sent_time = millis;
  retry_count = 0;
  msg_type = type;
  data_len = length frame;
  frame = copy_in frame m.frame;
}

abbrev pub track_in :
    List PendingMessage → ℕ → MessageType → List ℕ → ℕ → Option ℕ → Option (List PendingMessage)
track_in pending seq_num type frame millis none = none
track_in pending seq_num type frame millis (some slot) =
    some (set pending slot (fill_slot seq_num type frame millis (slot_at pending slot)))

-- `none` is the result `false`.
unfoldable pub track_pending_locked :
    List PendingMessage → ℕ → MessageType → List ℕ → (millis : ℕ) → Option (List PendingMessage)
unfolding find_free_slot
track_pending_locked pending seq_num type frame millis =
    track_in pending seq_num type frame millis (find_free_slot pending)

-- `trackPending`, which takes the mutex first.
unfoldable pub track_pending :
    Handler → (mutex_taken : Bool) → ℕ → MessageType → List ℕ → (millis : ℕ) → Handler × Bool
unfolding track_pending_locked
track_pending h mutex_taken seq_num type frame millis =
    let tracked =
      elim (track_pending_locked h.pending seq_num type frame millis) as (λ o. Handler × Bool) [
        | none ↦ (h, false)
        | some pending ↦ (record h { pending = pending }, true)
      ] in
    if mutex_taken then tracked else (h, false)

abbrev pub release : PendingMessage → PendingMessage
release m = record m { active = false }

abbrev pub release_at : List PendingMessage → Option ℕ → List PendingMessage × Bool
release_at pending none = (pending, false)
release_at pending (some i) = (set pending i (release (slot_at pending i)), true)

unfoldable pub clear_pending_locked : List PendingMessage → ℕ → List PendingMessage × Bool
clear_pending_locked pending seq_num = release_at pending (find_slot (waits_for seq_num) pending)

unfoldable pub clear_pending : Handler → (mutex_taken : Bool) → ℕ → Handler × Bool
unfolding clear_pending_locked
clear_pending h mutex_taken seq_num =
    let (pending, found) = clear_pending_locked h.pending seq_num in
    if mutex_taken then (record h { pending = pending }, found) else (h, false)

abbrev pub release_all : List PendingMessage → List PendingMessage
release_all [] = []
release_all (m ∷ ms) = release m ∷ release_all ms

unfoldable pub clear_all_pending : Handler → (mutex_taken : Bool) → Handler
clear_all_pending h mutex_taken =
    if mutex_taken then record h { pending = release_all h.pending } else h

unfoldable pub reset_for_new_connection : Handler → (mutex_taken : Bool) → Handler
unfolding clear_all_pending
reset_for_new_connection h mutex_taken = record (clear_all_pending h mutex_taken) {
  invalid_ack_count = 0;
  last_security_event = 0;
  tx_seq_num = 0;
  expected_rx_seq_num = 0;
}

-- The loop of `getPendingCount`, with its counter.
abbrev pub count_active : List PendingMessage → ℕ → ℕ
count_active [] count = count
count_active (m ∷ ms) count = count_active ms (if m.active then u8 (count + 1) else count)

unfoldable pub get_pending_count : Handler → ℕ
get_pending_count h = count_active h.pending 0

unfoldable pub has_pending_space : Handler → Bool
unfolding get_pending_count
has_pending_space h = ltb (get_pending_count h) max_pending_messages

unfoldable pub is_awaiting_ack : Handler → Bool
unfolding get_pending_count
is_awaiting_ack h = ltb 0 (get_pending_count h)

unfoldable pub reset_stats : Handler → (mutex_taken : Bool) → Handler
reset_stats h mutex_taken =
    if mutex_taken
    then record h { tx_count = 0; rx_count = 0; retry_count = 0; error_count = 0 }
    else h
