-- ===== src/Lib.antt =====
-- church-presenter: the projection of songs, verses and media in a church service, as an Electron
-- application (apps/desktop) with a web application beside it (apps/web).
--
-- The parts and their files:
--
-- Ipc and Ipc/Keys: the shared types of apps/desktop/src/shared/ipc.ts.
--
-- Screens and its children: apps/desktop/src/main/ipc/screenState.ts. The context holds the states of
-- the screens A, B and C, their mirrors and the live state; each operation of the source is the
-- function of the same name, which returns the new context. `Date.now()` is a parameter `clock`, of
-- which the context counts the readings, and `broadcast` and `broadcastLive` append to a list.
-- Screens/Patch has the partial updates, Screens/Defaults the starting states; the other children
-- hold what is proved.
--
-- Handlers: the IPC handlers `screens:*`, `projection:*` and `live:*` of apps/desktop/src/main/main.ts
-- and its commands from remote clients. `handle` is one handler, `handle_all` a sequence of them.
--
-- Projection: apps/desktop/src/renderer/src/projection and lib/liveProjection.ts, which call the
-- handlers of the main process.
--
-- PlanKinds: apps/desktop/src/shared/planKinds.ts.
--
-- Json and RuntimeValidation: apps/desktop/src/main/ipc/runtimeValidation.ts. Json has the values of
-- unknown type that a message or a file holds; RuntimeValidation has the expect functions, and its
-- children Names, Screens, Live, Records and Plans the parsers.
--
-- Plans and its children: apps/desktop/src/main/ipc/plans.ts and reorderValidation.ts on the tables of
-- apps/desktop/prisma/schema.prisma. Plans has the rows and the handlers of items, Plans/Create those that
-- write new rows, Plans/Commands sequences of handlers. A statement looks at the unique indexes and
-- the foreign keys of its table, and a refused transaction leaves the database as it was. The database
-- client's new ids are parameters, as is what other writers do between the read and the write of
-- createPlanItemWithRetry; its 20 attempts and the 3660 days of a new plan are the fuel of the loops.
--
-- Profiles and its children: the settings profiles of apps/desktop/src/main/settings.ts and their handlers in
-- main.ts. The runtime holds the settings as they were written last, the screens and what the windows
-- were sent; ids and times that are drawn come as readings. A setting that is undefined is not
-- written, as in JSON.
--
-- Sanitizers, and SettingsFile and its children: settings.json and the older files in
-- apps/desktop/src/main/settings.ts. Sanitizers keeps what is well-formed of a value, SettingsFile reads
-- and writes the file, SettingsFile/Commands has what changes it: the write functions, the migration and
-- the handlers of the theme, the shortcuts and the templates. The queue of writers lets each cycle of
-- reading and writing end before the next, so a command is a function of the file. The handlers that
-- call writeFilesConfig or writeProjectionConfig go on with the profiles, which Profiles models. The
-- other children hold what is proved.
--
-- Songs: the handlers songs:get, create, updateMeta, delete and replaceBlocks of
-- apps/desktop/src/main/ipc/songs-meta.ts, with Songs/Blocks about the replacement of blocks.
--
-- Sync and its children: apps/desktop/src/main/sync (syncManager.ts, pushSync.ts, pullSync.ts,
-- syncState.ts). The world has the tables of the local database and of the server, the state of the
-- manager, the time of the last pull and the messages to the windows. Whether the server answers and
-- after how many rows the connection breaks is a reading of each event. Songs and plans are pushed
-- by the same function of a table; the server looks at its unique indexes and foreign keys, those that
-- apps/web/prisma/migrations makes. The times of changes and of the last pull are compared as times,
-- however SQLite stores the column: the form in which the database client writes it is not modelled.
--
-- Imports and its children: apps/desktop/src/main/ipc/data.ts. Imports and Imports/Files read a file,
-- Imports/Write and Imports/Merge write it, Imports/Export makes one. What the source asks of Date is
-- a parameter, the calendar, and the ids that the client draws are new ones.
--
-- DragAndDrop: apps/desktop/src/renderer/src/lib/reorder.ts, the order that the plan editor asks for.
--
-- Accounts and its children: the accounts of the web application, apps/web/src/lib/roles.ts and auth.ts and
-- the routes of app/api/users. The hash of passwords and its test are parameters.
--
-- Tests: runs and instances.
--
-- Bounds. Texts are native strings, compared and stored whole. JavaScript numbers are integers that
-- count thousandths; the cursor of the live state is an integer. Dates of plans are day numbers, since
-- the source stores midnight in UTC. The column createdAt is left out except of songs, and updatedAt
-- where no handler reads it to decide; the time of an export is left out of its file. The ids of blocks
-- are left out: the client draws each once, so the server has none of a song that it lacks. The messages
-- of errors leave out the label of the field. Loops over lists end with the list; no other loop needs fuel than those
-- named above.
--
-- Not modelled: the user interface, the preload bridge, the creation of windows and the video and free
-- navigation messages, which are views and glue; the saving of the appearance of one screen, the lists
-- and the text formats of songs, the server for remote clients, the migrations, the media files, the
-- Bible service, the helpers of the renderer and the other routes of the web application. Handlers run to
-- their end one after the other, except where other writers are a parameter.
pub mod Common
pub mod Ipc
pub mod Screens
pub mod Handlers
pub mod Projection
pub mod PlanKinds
pub mod Plans
pub mod Profiles
pub mod DragAndDrop
pub mod Accounts
pub mod Json
pub mod RuntimeValidation
pub mod Songs
pub mod Sync
pub mod Imports
pub mod Tests
pub mod Sanitizers
pub mod SettingsFile
