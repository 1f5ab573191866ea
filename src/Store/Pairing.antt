-- ===== src/Store/Pairing.antt =====
-- internal/store/pairing.go: the one-time pairing codes.
use aisummoner.Prelude.{
  ℕ, ◌&&◌, ◌||◌, Option, none, some, [], ◌∷◌, ◌++◌, ◌==◌, if◌then◌else◌, ltb, first, any,
}
use aisummoner.Store.Data.{RowId, Time, Bytes, Device, PairingCode, Db, is_none, bytes_eq}
use aisummoner.Store.Driver.{
  Exec, Result, ok, err, conflict, pairing_invalid, pairing_expired, driver_fault, on_tx, pure,
  raise, ◌>>=◌, ◌>>◌, statement, query, exec, transaction, scan_row, check,
}
use aisummoner.Store.Devices.{update_devices, update_codes, consume_device_codes}

-- The identifier and the digest of a code are unique.
unfoldable pub insert_code : PairingCode → Db → Result ℕ × Db
insert_code pairing db =
    if any (λ c. c.id == pairing.id || bytes_eq c.code_digest pairing.code_digest) db.pairing_codes
    then (err driver_fault, db)
    else (ok 1, record db { pairing_codes = db.pairing_codes ++ pairing ∷ [] })

-- Replaces any active code of an unowned device.
unfoldable pub create_pairing_code : PairingCode → Time → Exec (Unit {0})
unfolding insert_code
create_pairing_code pairing now = transaction do
  row ← query on_tx (λ db. first (λ d. d.id == pairing.device_id) db.devices)
  device ← scan_row row
  check (is_none device.owner_user_id) conflict
  exec on_tx (consume_device_codes pairing.device_id now)
  statement on_tx (insert_code (record pairing { consumed_at = none }))
  pure tt

-- A code that is not there or consumed is `ErrPairingInvalid`.
abbrev pub unconsumed : Option PairingCode → Exec PairingCode
unconsumed none = raise pairing_invalid
unconsumed (some c) = if is_none c.consumed_at then pure c else raise pairing_invalid

abbrev pub bind_device : RowId → RowId → Time → Db → ℕ × Db
bind_device user_id device_id now =
    update_devices (λ d. d.id == device_id && is_none d.owner_user_id)
      (λ d. record d { owner_user_id = some user_id; paired_at = some now })

abbrev pub consume_code : RowId → Time → Db → ℕ × Db
consume_code pairing_id now =
    update_codes (λ c. c.id == pairing_id && is_none c.consumed_at)
      (λ c. record c { consumed_at = some now })

-- Binds the device and consumes the code, or does neither.
unfoldable pub claim_pairing : RowId → Bytes → Time → Exec Device
claim_pairing user_id digest now = transaction do
  row ← query on_tx (λ db. first (λ c. bytes_eq c.code_digest digest) db.pairing_codes)
  pairing ← unconsumed row
  check (ltb now pairing.expires_at) pairing_expired
  bound ← exec on_tx (bind_device user_id pairing.device_id now)
  check (bound == 1) conflict
  consumed ← exec on_tx (consume_code pairing.id now)
  check (consumed == 1) pairing_invalid
  device ← query on_tx (λ db. first (λ d. d.id == pairing.device_id) db.devices)
  scan_row device
