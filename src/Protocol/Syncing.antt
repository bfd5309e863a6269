-- ===== src/Protocol/Syncing.antt =====
-- What `handleSyncRequest` sends.
use esp32_sensor_firmware_pl.Prelude.{
  ℕ, zero, suc, ◌+◌, ◌≤◌, ◌<◌, ◌≡◌, refl, inl, inr, Bool, true, false, List, [], ◌∷◌, some, ltb,
  length, select, take, read_be32, if◌then◌else◌, Bool-cases, arith,
}
use esp32_sensor_firmware_pl.Event.{DetectionEvent}
use esp32_sensor_firmware_pl.History.Window.{contents}
use esp32_sensor_firmware_pl.History.Queries.{IsReady, get_events_lem}
use esp32_sensor_firmware_pl.History.Climbs.{climbs}
use esp32_sensor_firmware_pl.History.Numbering.{IsNumbered}
use esp32_sensor_firmware_pl.Protocol.Messages.{err_invalid_payload}
use esp32_sensor_firmware_pl.Protocol.State.{Handler}
use esp32_sensor_firmware_pl.Protocol.Sending.{send_detection_event, send_nack}
use esp32_sensor_firmware_pl.Protocol.World.{World, ProtocolConfig, Meeting, with_handler}
use esp32_sensor_firmware_pl.Protocol.Handlers.{sync_events, ack, handle_sync_request}

-- The events are sent in turn, past the rate limit, until one is refused.
unfoldable pub send_events : ℕ → Handler → Meeting → List DetectionEvent → Handler
send_events i h m [] = h
send_events i h m (e ∷ es) =
    let r = send_detection_event h m.millis (m.send i) e true in
    elim r.1 as (λ b. Handler) [ true ↦ send_events (i + 1) r.0 m es | false ↦ r.0 ]

abbrev pub newer : ℕ → DetectionEvent → Bool
newer since e = ltb since e.id

all_newer :
    (since lo hi : ℕ) (es : List DetectionEvent)
    → since ≤ lo
    → climbs lo es hi ≡ true
    → select (newer since) es ≡ es
all_newer since lo hi [] h c = refl
all_newer since lo hi (e ∷ es) h c = ground (arith, all_newer since e.id hi es)

first_is_newer :
    (since : ℕ) (es : List DetectionEvent) (e : DetectionEvent) (rest : List DetectionEvent)
    → select (newer since) es ≡ e ∷ rest
    → since < e.id
first_is_newer since [] e rest h = absurd (cc)
first_is_newer since (x ∷ xs) e rest h = ground (arith, first_is_newer since xs e rest)

-- Where the ids rise, what is newer than the first newer event are the others.
next_newer :
    (since lo hi : ℕ) (es : List DetectionEvent) (e : DetectionEvent) (rest : List DetectionEvent)
    → climbs lo es hi ≡ true
    → select (newer since) es ≡ e ∷ rest
    → select (newer e.id) es ≡ rest
next_newer since lo hi [] e rest c h = absurd (cc)
next_newer since lo hi (x ∷ xs) e rest c h = elim (Bool-cases (newer since x)) [
  | inl new ↦
      let up : climbs x.id xs hi ≡ true = ground arith in
      let one = all_newer since x.id hi xs (ground arith) up in
      let two = all_newer x.id x.id hi xs (omega arith) up in ground (arith, one, two)
  | inr old ↦
      let h' : select (newer since) xs ≡ e ∷ rest = ground arith in
      let after = first_is_newer since xs e rest h' in
      ground (arith, next_newer since x.id hi xs e rest (ground arith) h', after)
]

module _ (cfg : ProtocolConfig) (m : Meeting) where
  abbrev pub Listens : World → Type 0
  Listens w = (i : ℕ) → IsReady cfg.history w.history (m.history i)

  sync_events-send_events :
      (n i : ℕ) (w : World) (since : ℕ) (es : List DetectionEvent)
      → Listens w
      → IsNumbered cfg.history w.history
      → select (newer since) (contents cfg.history w.history.state) ≡ es
      → sync_events cfg n i w m since
        ≡ some (with_handler w (send_events i w.handler m (take n es)))
  unfolding sync_events send_events
  sync_events-send_events zero i w since es ready num e = refl
  sync_events-send_events (suc n) i w since [] ready num e =
      let got = (get_events_lem cfg.history w.history (m.history i) (ready i) 1 since).1 in
      rw (sync_events, got, e) refl
  sync_events-send_events (suc n) i w since (x ∷ es) ready num e =
      let got = (get_events_lem cfg.history w.history (m.history i) (ready i) 1 since).1 in
      let r = send_detection_event w.handler m.millis (m.send i) x true in
      let rest =
        next_newer since 0 w.history.state.global_event_id (contents cfg.history w.history.state) x
          es num e in
      rw (sync_events, got, e)
        (elim (Bool-cases r.1) [
          | inl ok ↦
              rw (ok, send_events)
                (sync_events-send_events n (i + 1) (with_handler w r.0) x.id es ready num rest)
          | inr lost ↦ rw (lost, send_events) refl
        ])

  -- `handleSyncRequest` ends. Where the history is there and ready, takes its mutex at every read, and its
  -- events are numbered in the order of their recording, a request of at least four bytes sends, in
  -- turn and until one is refused, the first ten events that are newer than the id in it, whether they
  -- have been synced before or not, and after them the acknowledgement; a shorter one is answered with
  -- the error for an invalid payload.
  pub handle_sync_request_lem :
      (w : World) (seq_num : ℕ) (payload : List ℕ)
      → Listens w
      → IsNumbered cfg.history w.history
      → w.handler.has_history ≡ true
      → let events =
          take 10 (select (newer (read_be32 payload 0)) (contents cfg.history w.history.state)) in
        handle_sync_request cfg w m seq_num payload
        ≡ some (
            if ltb (length payload) 4
            then with_handler w (send_nack w.handler (m.send 0) seq_num err_invalid_payload)
            else ack (with_handler w (send_events 0 w.handler m events)) m 10 seq_num)
  unfolding handle_sync_request
  handle_sync_request_lem w seq_num payload ready num has =
      let since = read_be32 payload 0 in
      let synced =
        sync_events-send_events 10 0 w since
          (select (newer since) (contents cfg.history w.history.state)) ready num refl in
      ground (arith, has, synced)
