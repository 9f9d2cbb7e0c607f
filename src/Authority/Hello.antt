-- ===== src/Authority/Hello.antt =====
-- `handleHello`, the rotation of tokens and the catch-up replay.
use vaultsyncforagents.Prelude.{
  ℕ, ◌+◌, ◌-◌, Bool, not, ◌&&◌, ◌||◌, Option, none, some, List, [], ◌∷◌, ◌++◌, Str, ◌==◌,
  if◌then◌else◌, codes, ltb, nat_eq,
}
use vaultsyncforagents.Prelude.Dict.{Dict, lookup, insert, erase, has}
use vaultsyncforagents.Decimal.{decimal}
use vaultsyncforagents.Arbitrate.{is_just}
use vaultsyncforagents.Authority.Messages.{
  HelloMessage, ChangeMessage, HelloAckMessage, unauthorized, revoked_device, protocol_error,
  hello_ack, device_seen, change,
}
use vaultsyncforagents.Authority.State.{
  RegisteredDevice, Connection, Server, ServerOptions, Effect, send, Outcome, fail,
  broadcast_others,
}

abbrev pub protocol_version : ℕ
protocol_version = 1

-- The device that a previous token still unlocks.
unfoldable pub resolve_prev_token : Dict RegisteredDevice → Str → ℕ → Option RegisteredDevice
resolve_prev_token [] token now = none
resolve_prev_token ((_, device) ∷ rest) token now =
    let later = resolve_prev_token rest token now in
    if is_just token device.prev_token && ltb now device.prev_token_expires_at
    then some device
    else later

-- The oldest change that can still be replayed, or the next one to come.
abbrev pub oldest_of : ℕ → List ChangeMessage → ℕ
oldest_of seq [] = seq + 1
oldest_of seq (entry ∷ log) = entry.seq

abbrev pub oldest_retained_seq : Server → ℕ
oldest_retained_seq s = oldest_of s.seq s.log

-- Everything after the cursor, in the log's order.
unfoldable pub changes_after : ℕ → List ChangeMessage → List ChangeMessage
changes_after cursor [] = []
changes_after cursor (entry ∷ log) =
    let later = changes_after cursor log in if ltb cursor entry.seq then entry ∷ later else later

unfoldable pub send_changes : Str → List ChangeMessage → List Effect
send_changes transport [] = []
send_changes transport (entry ∷ log) = send transport (change entry) ∷ send_changes transport log

-- What the replay of a hello sends: nothing to a first-ever connect.
unfoldable pub catch_up : ℕ → List ChangeMessage → List ChangeMessage
unfolding changes_after
catch_up cursor log = if ltb 0 cursor then changes_after cursor log else []

-- The devices and the tokens with the replacement, the device's record, and the replacement.
unfoldable pub rotate : ServerOptions → Server → RegisteredDevice → ℕ → Server × RegisteredDevice
rotate options s device now =
    let token = codes "tok-" ++ device.device_id ++ codes "-r" ++ decimal s.rotation_counter in
    let renewed = record device {
      prev_token = some device.token;
      prev_token_expires_at = now + options.token_rotation_grace_ms;
      token = token;
      token_issued_at = now;
    } in
    (
      record s {
        rotation_counter = s.rotation_counter + 1;
        tokens = insert token device.device_id (erase device.token s.tokens);
        devices = insert device.device_id renewed s.devices;
      },
      renewed,
    )

unfoldable pub must_rotate : ServerOptions → RegisteredDevice → ℕ → Bool
must_rotate options device now =
    ltb 0 options.token_rotation_ms && ltb options.token_rotation_ms (now - device.token_issued_at)

module _ (options : ServerOptions) (transport : Str) (connection : Connection)
    (message : HelloMessage) (now : ℕ) where
  unfoldable pub hello_ack_of : Server → RegisteredDevice → Option Str → HelloAckMessage
  hello_ack_of s device next_token = record {
    device_id = device.device_id;
    vault_name = options.vault_name;
    settings = options.settings;
    next_token = next_token;
    oldest_retained_seq = oldest_retained_seq s;
  }

  unfoldable pub finish_hello : Server → RegisteredDevice → Option Str → Outcome
  unfolding broadcast_others catch_up
  finish_hello s device next_token = (
    record s {
      connections =
          insert transport (record connection { device_id = some device.device_id }) s.connections;
      devices = insert device.device_id (record device { last_seen = now }) s.devices;
    },
    send transport (hello_ack (hello_ack_of s device next_token))
          ∷ broadcast_others s transport (device_seen device.device_id now)
        ++ send_changes transport (catch_up message.cursor s.log),
  )

  -- A token that is not the connection's, or not a current one: a previous one may be in its grace.
  unfoldable pub hello_in_grace : Server → Option RegisteredDevice → Outcome
  hello_in_grace s none = fail s transport unauthorized
  hello_in_grace s (some device) = finish_hello s device (some device.token)

  -- The device of a current token.
  unfoldable pub hello_as : Server → Option RegisteredDevice → Outcome
  hello_as s none = fail s transport unauthorized
  hello_as s (some device) =
      if device.revoked
      then fail s transport revoked_device
      else if not (nat_eq message.protocol_version protocol_version)
      then fail s transport protocol_error
      else if must_rotate options device now
      then (let (renewed_server, renewed) = rotate options s device now in
          finish_hello renewed_server renewed (some renewed.token))
      else finish_hello s device none

  abbrev device_of : Server → Option Str → Option RegisteredDevice
  device_of s none = none
  device_of s (some device_id) = lookup device_id s.devices

  unfoldable pub handle_hello : Server → Outcome
  handle_hello s =
      if not (message.token == connection.token) || not (has message.token s.tokens)
      then hello_in_grace s (resolve_prev_token s.devices message.token now)
      else hello_as s (device_of s (lookup message.token s.tokens))
