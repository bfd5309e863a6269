-- ===== src/Network/Credentials.antt =====
-- When `setCredentials` takes the credentials.
use esp32_sensor_firmware_pl.Network.Wifi.{
  disconnected, disconnect, call_radio, is_busy, connecting, WifiCall, Wifi, Reasons, notify_status,
  pass_max_length, connect, set_credentials, ssid_max_length,
}
use esp32_sensor_firmware_pl.Prelude.{
  if_split, if_keeps, if_false, subst, sym, ap, ◌∙◌, ℕ, ◌%◌, Bool, true, false, not, List, ◌≡◌,
  refl, ◌&&◌, ◌==◌, leb, ltb, length, arith, if◌then◌else◌,
}

-- What `setCredentials` accepts where each `putString` returns the number of bytes that it wrote.
abbrev pub acceptable : Bool → List ℕ → List ℕ → Bool
acceptable opens ssid password =
    opens
    && leb (length ssid) ssid_max_length
    && leb (length password) pass_max_length
    && length ssid % 2 == 1
    && length password % 2 == 1

-- What `connect` leaves with a name.
record IsConnecting (name secret : List ℕ) (w : Wifi) : Type 0 where
  ssid : w.ssid ≡ name
  password : w.password ≡ secret
  state : w.state ≡ connecting

connect-IsConnecting :
    (reasons : Reasons) (w : Wifi) (call : WifiCall)
    → length w.ssid == 0 ≡ false
    → IsConnecting w.ssid w.password (connect reasons w call)
unfolding connect notify_status
connect-IsConnecting reasons w call named =
    subst (IsConnecting w.ssid w.password) (sym (if_false (length w.ssid == 0) _ _ named))
      (record { ssid = ground arith; password = ground arith; state = ground arith })

-- Whether the credentials were taken: the service then holds them and is connecting; if not, it is
-- unchanged.
pub data SetOutcome (w : Wifi) (opens : Bool) (ssid password : List ℕ) (r : Wifi × Bool)
    : Type 0 where
  taken :
      r.1 ≡ true
      → acceptable opens ssid password ≡ true
      → r.0.ssid ≡ ssid
      → r.0.password ≡ password
      → r.0.state ≡ connecting
      → SetOutcome w opens ssid password r
  refused :
      r.1 ≡ false
      → acceptable opens ssid password ≡ false
      → r.0 ≡ w
      → SetOutcome w opens ssid password r

-- Where each `putString` returns the number of bytes that it has written, credentials are taken exactly
-- if the namespace opens, the name has at most 32 and the password at most 64 bytes, and both numbers
-- of bytes are odd. If they are taken, the service holds them and is connecting; if not, it is
-- unchanged.
pub set_credentials_lem :
    (reasons : Reasons) (w : Wifi) (call : WifiCall) (opens : Bool) (ssid password : List ℕ)
    → SetOutcome w opens ssid password
        (set_credentials reasons w call opens (length ssid) (length password) ssid password)
unfolding set_credentials
set_credentials_lem reasons w call opens ssid password =
    let stored = record w { ssid = ssid; password = password; retry_count = 0 } in
    let ready = record (if is_busy w.state then call_radio stored disconnect else stored) {
      state = disconnected;
    } in
    let held : (ready.ssid ≡ ssid) × (ready.password ≡ password) =
      if_keeps (λ (x : Wifi). (x.ssid ≡ ssid) × (x.password ≡ password)) (is_busy w.state)
        (call_radio stored disconnect) stored (refl, refl) (refl, refl) in
    let go =
      (λ (b : Bool) (r : Wifi × Bool) (bad : b ≡ true → acceptable opens ssid password ≡ false).
        if_split (SetOutcome w opens ssid password) b (w, false) r
          (λ e. refused refl (bad e) refl)) in
    go (length ssid == 0) _ (λ e. ground arith)
      (λ named.
        go (ltb ssid_max_length (length ssid)) _ (λ e. ground arith)
          (λ short.
            go (ltb pass_max_length (length password)) _ (λ e. ground arith)
              (λ brief.
                go (not opens) _ (λ e. ground arith)
                  (λ open_up.
                    go (not (length ssid % 2 == 1 && length password % 2 == 1))
                      (connect reasons ready call, true) (λ e. ground arith)
                      (λ odd.
                        let c =
                          connect-IsConnecting reasons ready call
                            (ap (λ l. length l == 0) held.0 ∙ named) in
                        taken refl (ground arith) (c.ssid ∙ held.0) (c.password ∙ held.1)
                          c.state)))))
