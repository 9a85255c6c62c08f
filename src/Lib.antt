-- ===== src/Lib.antt =====
-- Verification library of bond_trading, a service that keeps bond lots, refreshes them from MOEX,
-- computes their yields and writes them to Google Sheets.
--
-- Parts of the program and the modules that model them (paths below
-- src/bond_trading):
-- - Calculations: domain/calculations (models, engine, tax, market, liquidity).
--   Models has the data types; Engine has one function per function of the source; Cashflows
--   describes the cash flow loop without a loop; Purchase and Yields reason on the results.
-- - Isin: domain/value_objects/isin.py, the pattern and the check digit.
-- - Ranges: infrastructure/google_sheets/ranges.py, spreadsheet ids, columns, quoted names.
-- - Database: infrastructure/db/models.py, a record per table.
-- - Jobs: the queue of sheet synchronisations, application/services/sheets.py and
--   workers/sheet_sync.py. Invariant and Claims treat single operations, Interleavings any
--   history of the web requests' and the worker's transactions.
-- - Connections: `configure`, `list_jobs` and `get_job` of application/services/sheets.py; a
--   form's columns are normalized by Ranges.
-- - Auth: application/services/auth.py, users, sessions and passwords.
-- - Access: the guards of api/auth_dependencies.py on top of Auth, and `logout` and `update_user` of
--   api/v1/routers. Admitted is who passes, Refused who does not, Handled what the handlers do.
-- - Requests: the lot requests of api/schemas.py and their constraints.
-- - Lots: application/services/lots.py, and in
--   Lots.Valuation `calculate` with application/services/settings.py. Lots uses Isin for a new
--   lot, Jobs to queue a synchronisation and Calculations for the yields.
-- - Values: values of any type, as cells and messages hold them, and Python's library of texts.
-- - Spreadsheets: infrastructure/imports/xlsx_reader.py. Fields reads a cell, Reader a row, Uploads
--   checks and loads a file and has `preview`; Preview states what a preview holds.
-- - Uploads: application/services/uploads.py on the storage in memory of
--   infrastructure/storage/minio.py. Named has the names of objects, Stored the outcomes of `store`.
-- - Imports: application/services/imports.py, the cache of previews (Cached) and `commit`
--   (Committed; Imported has the lots of its rows). It takes what Spreadsheets read and adds to the
--   tables of Lots.
-- - Moex: infrastructure/moex/tables.py, mapper.py, schemas.py and errors.py. Mapped states what a
--   result of the mapper is.
-- - Instruments: application/services/instruments.py. Refreshed treats an answer of the exchange,
--   Stored what the answer leaves, Rows the fields of its rows, Failed a client that fails.
-- - Sync: the run of a synchronisation, `execute` of application/services/sheets.py with
--   `parse_decimal` and `parse_date`. Rows is one row, Execute the run: it normalizes with Isin,
--   refreshes with Instruments, computes with Quotes and sends cells. Written, Protected, Guarded
--   and Harmless follow the columns of the cells; they use what Connections knows of the columns.
-- - Google: infrastructure/google_sheets/client.py. Reads has the ranges and the answers, Located
--   what a row that was read is, Retries the loop of `_request`, Memory the gateway in memory.
-- - Quotes: what a row of a sheet is computed from, application/services/sheet_calculations.py
--   and the market helpers of application/services/sheets.py.
-- - Errors: domain/errors.py. Prelude and Decimal are shared.
--
-- A service object's database session is a record of tables; a call takes the tables and returns
-- the tables, or an error, which leaves them as they were (nothing is committed). A row that the
-- source mutates is the row with its id. The clock, random tokens and ids are arguments: ids come
-- from a counter, since `uuid4` draws ids that no row has.
--
-- A number that is stored is rounded to the decimal places of its column. How the database rounds is
-- a parameter, the field `numerics` of the tables of Lots; lots, yield snapshots, instruments, actions
-- and market snapshots pass through it. A row that breaks a unique constraint, a check or a foreign key
-- is an `integrity_error` in Lots, Imports and Instruments, and the tables stay as they were.
--
-- Decimal stands for Python's `decimal` in the default context, which is not code of the
-- repository: a coefficient and a scale, each result rounded half to even to 28 digits. Its
-- exponent has no bound here, so overflow and underflow of the exponent do not occur, and there
-- are no NaN, infinities or negative zeros; a signed coefficient takes their place.
-- Its loops take fuel: `num_digits` runs on the number itself, which has fewer digits than its
-- value. `column_name_loop` runs on the column number, which each round makes smaller.
--
-- `request_loop` runs on the number of attempts that are left.
--
-- Parameters for code that is not of the repository: the readers of decimals, dates and times and
-- the `str` of a date (Values, Moex.Fields); a text that Python's `Decimal` reads as NaN or infinity
-- counts as unreadable. The packages that open a spreadsheet and SHA-256 (Spreadsheets.Uploads), the
-- HTTP library with the credentials (Google), the JSON of errors and updates. The clients of the
-- exchange and of Google are protocols in the source; Instruments and Sync take them as functions
-- that answer or fail with the text of an exception. Further: the parts of a path by pathlib and
-- the `str` of a UUID (Uploads); the hashes of passwords and tokens, `lower` and `isalnum` of
-- Unicode (Auth.Library); the time zone and the encoder of the JSON column, of which
-- `_jsonable_result` of lots.py is a part (Lots.Valuation).
--
-- Not modelled: HTTP routing other than Access, page rendering, configuration, logging and metrics,
-- which hold no state of their own; the MinIO client and the migrations; the HTTP client of MOEX
-- with its cache, and the polling loop of the worker; the lengths of text columns and the 24 digits
-- of a number; and that after a refused commit SQLAlchemy expires the other objects of the session,
-- so that a synchronisation goes on in the model where the program may raise.
pub mod Access
pub mod Auth
pub mod Calculations
pub mod Connections
pub mod Database
pub mod Decimal
pub mod Errors
pub mod Google
pub mod Imports
pub mod Instruments
pub mod Isin
pub mod Jobs
pub mod Lots
pub mod Moex
pub mod Prelude
pub mod Quotes
pub mod Ranges
pub mod Requests
pub mod Spreadsheets
pub mod Sync
pub mod Uploads
pub mod Values
