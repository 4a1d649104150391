-- ===== src/Lib.antt =====
-- Digital signage backend: the schedule of playlists, the media behind them and the devices that play
-- them. Paths are from the repository's root.
--
-- The backend is a Django project. Operators upload media, compose playlists and publish them through
-- the functions of backend/signage/services.py; devices enroll, refresh their tokens, fetch their
-- manifest and report what they play, where they are and how they are through backend/signage/api.py
-- and backend/signage/authentication.py; one-off tasks, which backend/signage/media_dispatch.py
-- requests, validate uploads; commands of backend/signage/management/commands evaluate the health of
-- the fleet and delete expired rows; alerts and the audit log record what happened. The tables are
-- those of backend/signage/models.py.
--
-- Base: tests, lists, tables with a primary key, the first row of an ordered query, and exceptions as
--   values. `get` is `objects.get(pk=...)`, `put` is `row.save()`, `update` is `QuerySet.update`,
--   `first_by` is `order_by(...).first()`.
-- Models: the rows, as records of the columns that the code under study reads or writes.
-- Playlists: `Playlist.clean`, `save` and `delete`, `PlaylistItem.save` and `delete`.
-- Publish: `publish_playlist`; Publish/Delivery: `validate_ready_media_delivery` and
--   `validate_normalized_image`. It calls `save` of Playlists, so the guards of the model hold too.
-- Schedule: `active_playlist` and `next_playlist_transition_at`. Schedule/Replacement:
--   management/commands/evaluate_playlists.py.
-- Media: `_start_media_processing_attempt`, `_finalize_media_processing`, `delete_media_binary`,
--   `_claim_asset` (management/commands/process_media.py) and `_recover_expired_lease`
--   (management/commands/reconcile_media_processing.py). Media/Deletion: `process_media_deletion`.
-- Dispatch: backend/signage/media_dispatch.py.
-- Alerts: `open_alert` and `open_or_escalate_alert`. Dispatch uses them.
-- Throttle: `client_ip`, `throttle_wait` and `enforce_api_throttle`; Dispatch keeps its budget in the
--   same table.
-- Credentials: the codes, credentials and tokens of devices, and the operations on them.
--   Credentials/Requests: enrollment, authentication and refresh.
-- Commands: the two requests of `management_commands`, which fetch and acknowledge the commands that
--   Publish queues.
-- Wire: the JSON of a request and the readers of its fields.
-- Playback: `validate_event`; Playback/Submission: `validate_playback_batch_payload`;
--   Playback/Receipt: `playback_batch_matches` and `playback_batch`.
-- Heartbeats: the parsing of `heartbeat`; Heartbeats/Handler: its transaction.
-- Locations: the points of `location_batch`; Locations/Batch: their storage and the reported state;
--   Locations/Handler: the handler.
-- Manifest: `sync_manifest`. It takes the playlist and the transition from Schedule and the hardware
--   from Credentials.
--   Manifest/Updates: `configured_app_update`.
-- Operational: `validate_operational_event_details`; Operational/Handler: `operational_event`.
-- Health: management/commands/evaluate_device_health.py. Like Heartbeats and Locations it opens its
--   alerts through Alerts/Raising.
-- Retention: management/commands/apply_retention.py.
-- Tests: samples and examples.
--
-- How the model corresponds to the code:
-- * A transaction is one function from the tables to the tables, or to an error, which leaves them as
--   they were. Where a function runs several transactions, or waits for a lock, what other
--   transactions commit in between is an argument.
-- * Times are microseconds. A request reads the clock once, unless another reading is an argument.
-- * A UUID, a foreign key and a hash are natural numbers. A digest is a parameter. A secret that is
--   drawn at random is an argument.
-- * `updated_at` and columns that are only shown are left out. Rows that an order leaves tied come in
--   the order in which they are stored. A null comes first in a descending order, as in PostgreSQL.
-- * `full_clean` of a stored row is `clean` and the two constraints: the fields of a stored row are
--   valid.
-- * The duration of a playlist is compared in milliseconds, where the code divides by 1000 first.
-- * The object storage, the task service, the integrity service and the inspection of files are
--   parameters: their source is not part of the modules above.
-- * A validation error carries its message and, where the code names one, the field that it is about.
--   A message that the code builds from a number is a constant.
-- * `uuid.UUID`, `parse_datetime`, `int`, `Decimal`, `urlsplit` and `ipaddress` are parameters. A decimal
--   number is known by its position in a list; a coordinate that is stored is an integer.
-- * The interval of a played event in milliseconds is exact, where the code goes through a float.
-- * Details of operational events are compared as integers and texts: a validated object has no other
--   values.
-- * Identifiers of submitted events are distinct when dictionaries are made of them, so it does not
--   matter which of two equal keys a dictionary keeps.
-- * `EnrollmentCode.issue` tries ten codes, as the code does. The loops of Retention run on fuel: each
--   round deletes a row at least, so more fuel than there are rows is enough.
--
-- Not modelled: the reading of compressed bodies, the throttles and alerts of refused authentications,
-- `inspect_media` and its tools, the loops of the media commands, the anonymization and the counts of
-- the retention command, the web administration, the settings, the migrations, the Android player and
-- the infrastructure.
pub mod Base
pub mod Models
pub mod Alerts
pub mod Throttle
pub mod Playlists
pub mod Schedule
pub mod Publish
pub mod Media
pub mod Credentials
pub mod Dispatch
pub mod Commands
pub mod Wire
pub mod Playback
pub mod Health
pub mod Heartbeats
pub mod Locations
pub mod Retention
pub mod Manifest
pub mod Operational
pub mod Tests
