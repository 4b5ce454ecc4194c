-- ===== src/Lib.antt =====
-- Skybeat watches devices: agents send heartbeats, a worker decides which devices are offline,
-- incidents are opened and closed, and alerts go out through a queue of notifications. This library
-- models the server's core, the code under server/app, and proves what it promises.
--
-- Parts, and how they interact:
--
--   Store           server/app/models and server/app/db.py: the rows, the database, transactions.
--   Users           server/app/users/service.py. Email is `normalize_email`, Accounts who may change
--                   which account, and the writes.
--   Alerts          Recipients is server/app/notifications/configuration.py. Events is the rows of an
--                   alert (`_create_event` and `_event`), Incidents the incidents table: both are
--                   written by health and by GPU monitoring.
--   Notifications   server/app/notifications/service.py. Delivery is what each branch writes to one
--                   row, Service the transactions, Queue the invariant of the two tables.
--                   Management is the writes of server/app/notifications/management.py, which
--                   Alerts.Recipients reads.
--   Gpu             server/app/gpu/service.py. Confirmation is `evaluate_gpu_observation`, Service
--                   the incidents and `accept`.
--   Health          server/app/health/service.py. State is `availability_state`, Service the
--                   transactions, which use Alerts.Incidents, Alerts.Events and Gpu.Service.
--   Devices         Credentials is server/app/devices/credentials.py and `authenticate_token`.
--                   Identity is the rest of server/app/devices/service.py: projects, devices and the
--                   credentials that are issued to them.
--   Enrollment      server/app/enrollment/service.py. Token is the text of a token, Service the
--                   transactions, which enrol a device or rotate its credentials through Devices.
--   Logs            server/app/logs/service.py: uploads, which authenticate with Devices,
--                   retention, and the search with its cursors.
--   Heartbeats      server/app/heartbeats/service.py: a heartbeat authenticates with Devices, is passed
--                   to Health and to Gpu, and leaves its receipt.
--   Lifecycle       server/app/lifecycle/service.py. Report is what a report does to an operation,
--                   Service the transactions.
--   Base            Lists, tests, orders and keys that the parts share.
--   Tests           A sample database, and instances of the theorems.
--
-- How state is modelled. A time is a number of microseconds. A table is a list of rows in the
-- order of insertion, with its AUTO_INCREMENT counter. A transaction is a function from the
-- database to a `Result`: an exception gives no database, which is the rollback. A call of several
-- transactions is a `Run`, an exception or none with the database at its end. Unique keys on
-- (active_key), (incident, kind), (event, channel, recipient) and (delivery, attempt number) are
-- tested at each insertion; so are those on (project, e-mail) and (device, e-mail) of the
-- recipients of the settings, under the database's collation, on the e-mail address of an account,
-- compared as text, and on the identifier and digest of an enrolment; those on other random
-- identifiers are taken never to fire. A device that the code reads under a lock is a value,
-- written back by `save_device`. FOR UPDATE SKIP LOCKED is a predicate on ids, and what other
-- processes commit between the transactions of a worker is a function on the database. `uuid4`,
-- `token_urlsafe`, `sha256`, JSON, `UUID`, base64, ISO times, the collation, `strip()`,
-- `strip().lower()`, what `\s` matches, the retry jitter, the providers, the rate limit and the
-- release found on disk are parameters. A validated heartbeat comes with its payload as canonical
-- JSON.
--
-- All loops are by structural recursion on lists, so there is no fuel. Numbers are unbounded, as in
-- Python; the columns BIGINT UNSIGNED that hold them are not overflowed by counters that go up by one.
--
-- Not modelled: HTTP routes, pages, release storage, e-mail transport, the agent and the scripts,
-- which are input and output around the parts above; the lists that the notification settings
-- show, which change nothing. The texts of errors and the limits of text columns are left out.
pub mod Base
pub mod Store
pub mod Users
pub mod Devices
pub mod Enrollment
pub mod Notifications
pub mod Alerts
pub mod Gpu
pub mod Health
pub mod Heartbeats
pub mod Lifecycle
pub mod Logs
mod Tests
