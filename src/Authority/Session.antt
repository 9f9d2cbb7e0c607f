-- ===== src/Authority/Session.antt =====
-- `handle`, and the queue of the handlers that await.
use vaultsyncforagents.Prelude.{
  ℕ, none, some, [], ◌∷◌, ◌++◌, Str, or_default, if◌then◌else◌, is_some,
}
use vaultsyncforagents.Prelude.Dict.{lookup}
use vaultsyncforagents.Platform.{Platform}
use vaultsyncforagents.Wire.{Crypto}
use vaultsyncforagents.Authority.Messages.{
  ClientMessage, hello, get_manifest, commit_message, ping, put_blob, get_blob, snapshot_create,
  snapshot_restore, unexpected, pong, unauthorized, protocol_error,
}
use vaultsyncforagents.Authority.State.{
  Connection, Job, blob_job, commit_job, Server, ServerOptions, send, Outcome, fail,
  open_connection,
}
use vaultsyncforagents.Authority.Hello.{handle_hello}
use vaultsyncforagents.Authority.Content.{handle_get_manifest, handle_get_blob, handle_put_blob}
use vaultsyncforagents.Authority.Commits.{handle_commit}
use vaultsyncforagents.Authority.Restores.{handle_snapshot_create, handle_snapshot_restore}

-- The device that a transport speaks for, which the remainder of a handler reads when it runs.
unfoldable pub device_at : Server → Str → Str
device_at s transport = elim (lookup transport s.connections) [
  | none ↦ []
  | some connection ↦ or_default connection.device_id []
]

module _ (u : Platform) (crypto : Crypto) (options : ServerOptions) where
  -- A message on a connection that speaks for a device.
  unfoldable pub handle_authenticated : Server → Str → Str → ClientMessage → ℕ → Outcome
  unfolding fail
  handle_authenticated s transport device_id (get_manifest since) now =
      handle_get_manifest s transport since
  handle_authenticated s transport device_id (put_blob hash content) now =
      (record s { queue = s.queue ++ blob_job transport hash content ∷ [] }, [])
  handle_authenticated s transport device_id (get_blob hash) now =
      handle_get_blob crypto s transport hash
  handle_authenticated s transport device_id (commit_message message) now =
      (record s { queue = s.queue ++ commit_job transport message ∷ [] }, [])
  handle_authenticated s transport device_id (snapshot_create name) now =
      handle_snapshot_create s transport device_id name now
  handle_authenticated s transport device_id (snapshot_restore id) now =
      handle_snapshot_restore u s transport device_id id now
  handle_authenticated s transport device_id (hello message) now = fail s transport protocol_error
  handle_authenticated s transport device_id (ping ts) now = fail s transport protocol_error
  handle_authenticated s transport device_id unexpected now = fail s transport protocol_error

  unfoldable pub authenticate : Server → Str → Connection → ClientMessage → ℕ → Outcome
  authenticate s transport connection message now = elim connection.device_id [
    | none ↦ fail s transport unauthorized
    | some device_id ↦ handle_authenticated s transport device_id message now
  ]

  unfoldable pub dispatch : Server → Str → Connection → ClientMessage → ℕ → Outcome
  dispatch s transport connection (hello message) now =
      handle_hello options transport connection message now s
  dispatch s transport connection (ping ts) now = (s, send transport (pong ts) ∷ [])
  dispatch s transport connection (get_manifest since) now =
      authenticate s transport connection (get_manifest since) now
  dispatch s transport connection (commit_message message) now =
      authenticate s transport connection (commit_message message) now
  dispatch s transport connection (put_blob hash content) now =
      authenticate s transport connection (put_blob hash content) now
  dispatch s transport connection (get_blob hash) now =
      authenticate s transport connection (get_blob hash) now
  dispatch s transport connection (snapshot_create name) now =
      authenticate s transport connection (snapshot_create name) now
  dispatch s transport connection (snapshot_restore id) now =
      authenticate s transport connection (snapshot_restore id) now
  dispatch s transport connection unexpected now =
      authenticate s transport connection unexpected now

  -- A message that arrives on a transport; a closed one has no connection.
  unfoldable pub handle : Server → Str → ClientMessage → ℕ → Outcome
  handle s transport message now = elim (open_connection s transport) [
    | none ↦ (s, [])
    | some connection ↦ dispatch s transport connection message now
  ]

  -- The remainder of a handler. Nothing is sent when its own transport has closed: the reply throws.
  unfoldable pub perform : Server → Job → ℕ → Outcome
  perform s (blob_job transport hash content) now = handle_put_blob crypto s transport hash content
  perform s (commit_job transport message) now =
      handle_commit u crypto transport (device_at s transport) message now s

  abbrev pub transport_of : Job → Str
  transport_of (blob_job transport hash content) = transport
  transport_of (commit_job transport message) = transport

  unfoldable pub run_job : Server → Job → ℕ → Outcome
  run_job s job now =
      let (after, effects) = perform s job now in
      (after, if is_some (open_connection s (transport_of job)) then effects else [])
