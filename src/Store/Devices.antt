-- ===== src/Store/Devices.antt =====
-- internal/store/devices.go: registration, ownership and unpairing of devices.
use aisummoner.Prelude.{
  ℕ, Bool, not, ◌&&◌, none, some, List, [], ◌∷◌, ◌++◌, ◌==◌, if◌then◌else◌, length, ltb, first, any,
  count, update,
}
use aisummoner.Store.Data.{
  RowId, Time, Bytes, Device, PairingCode, AgentSession, Db, revoked, failed, is_open, is_none,
  same_id, bytes_eq,
}
use aisummoner.Store.Driver.{
  Exec, Result, ok, err, not_found, conflict, invalid_argument, driver_fault, on_db, on_tx, pure,
  ◌>>=◌, ◌>>◌, statement, query, exec, transaction, scan_row, require_one_row, check,
}
use aisummoner.Store.Sessions.{update_sessions}
use aisummoner.Store.Tools.{update_tools}

unfoldable pub device_by_id : RowId → Exec Device
device_by_id device_id = do
  row ← query on_db (λ db. first (λ d. d.id == device_id) db.devices)
  scan_row row

unfoldable pub device_by_owner : RowId → RowId → Exec Device
device_by_owner owner device_id = do
  row ←
      query on_db (λ db. first (λ d. d.id == device_id && same_id d.owner_user_id owner) db.devices)
  scan_row row

-- `ON CONFLICT(id) DO UPDATE … WHERE devices.public_key = excluded.public_key`: the owner of a known
-- device is never written. The key is unique among the devices.
unfoldable pub upsert_device : Device → Db → Result ℕ × Db
upsert_device device db =
    if any (λ d. d.id == device.id) db.devices
    then (
      ok (count same_key db.devices),
      record db {
        devices =
            update same_key
              (λ d. record d {
                name = device.name;
                platform = device.platform;
                arch = device.arch;
                client_version = device.client_version;
              })
              db.devices;
      },
    )
    else if any (λ d. bytes_eq d.public_key device.public_key) db.devices
    then (err driver_fault, db)
    else (ok 1, record db { devices = db.devices ++ device ∷ [] })
  where
    same_key : Device → Bool
    same_key d = d.id == device.id && bytes_eq d.public_key device.public_key

abbrev pub valid_device : Device → Bool
valid_device device =
    not (device.id == 0)
    && ltb 0 (length device.public_key)
    && ltb 0 (length device.name)
    && ltb 0 (length device.platform)
    && ltb 0 (length device.arch)
    && ltb 0 (length device.client_version)

unfoldable pub register_device : Device → Exec Device
unfolding upsert_device device_by_id
register_device device = do
  check (valid_device device) invalid_argument
  affected ← statement on_db (upsert_device device)
  check (affected == 1) conflict
  device_by_id device.id

abbrev pub update_devices : (Device → Bool) → (Device → Device) → Db → ℕ × Db
update_devices p f db = (count p db.devices, record db { devices = update p f db.devices })

abbrev pub set_last_seen : RowId → Time → Db → ℕ × Db
set_last_seen device_id at =
    update_devices (λ d. d.id == device_id) (λ d. record d { last_seen_at = some at })

unfoldable pub update_device_last_seen : RowId → Time → Exec (Unit {0})
update_device_last_seen device_id at = do
  affected ← exec on_db (set_last_seen device_id at)
  require_one_row affected

abbrev session_ids : (AgentSession → Bool) → List AgentSession → List RowId
session_ids p [] = []
session_ids p (s ∷ rest) = let ids = session_ids p rest in if p s then s.id ∷ ids else ids

-- The sessions of an owner on a device.
abbrev pub session_of : RowId → RowId → AgentSession → Bool
session_of owner device_id s = s.user_id == owner && s.device_id == device_id

abbrev pub update_codes : (PairingCode → Bool) → (PairingCode → PairingCode) → Db → ℕ × Db
update_codes p f db =
    (count p db.pairing_codes, record db { pairing_codes = update p f db.pairing_codes })

-- `UPDATE pairing_codes SET consumed_at = ? WHERE device_id = ? AND consumed_at IS NULL`
abbrev pub consume_device_codes : RowId → Time → Db → ℕ × Db
consume_device_codes device_id now =
    update_codes (λ c. c.device_id == device_id && is_none c.consumed_at)
      (λ c. record c { consumed_at = some now })

abbrev pub revoke_sessions : RowId → RowId → Time → Db → ℕ × Db
revoke_sessions owner device_id now =
    update_sessions (λ db. session_of owner device_id)
      (λ s. record s { state = revoked; updated_at = now })

abbrev pub terminalize_tools : RowId → RowId → Bytes → Time → Db → ℕ × Db
terminalize_tools owner device_id excerpt now =
    update_tools
      (λ db t.
        is_open t.status
        && is_none t.completed_at
        && any (λ s. s.id == t.session_id && session_of owner device_id s) db.sessions)
      (λ t. record t {
        status = failed;
        exit_code = none;
        output_excerpt = some excerpt;
        completed_at = some now;
      })

abbrev pub disown : RowId → RowId → Db → ℕ × Db
disown owner device_id =
    update_devices (λ d. d.id == device_id && same_id d.owner_user_id owner)
      (λ d. record d { owner_user_id = none; paired_at = none })

-- `unpaired` is the text `deviceUnpairedToolExcerpt`, "device unpaired". The identifiers of the
-- revoked sessions are returned in the order of the table.
unfoldable pub unpair_device : Bytes → RowId → RowId → Time → Exec (List RowId)
unpair_device unpaired owner device_id now = transaction do
  row ←
      query on_tx (λ db. first (λ d. d.id == device_id && same_id d.owner_user_id owner) db.devices)
  scan_row row
  session_ids ← query on_tx (λ db. session_ids (session_of owner device_id) db.sessions)
  exec on_tx (consume_device_codes device_id now)
  exec on_tx (revoke_sessions owner device_id now)
  exec on_tx (terminalize_tools owner device_id unpaired now)
  affected ← exec on_tx (disown owner device_id)
  check (affected == 1) not_found
  pure session_ids
