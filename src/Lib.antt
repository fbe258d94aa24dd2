-- ===== src/Lib.antt =====
-- The course registration backend: what is modelled and what is shown of it.
--
-- The program has three processes. The API (apps/do-an) checks a student's request, writes a batch
-- with its items in status PENDING, takes seats from counters in Redis and publishes a message.
-- The worker (apps/worker) consumes the messages: it takes or gives back the seats in PostgreSQL
-- and marks the items. The scheduler (apps/scheduler) fills and repairs the counters and sends
-- mail. The code that they share is in libs/shared.
--
-- Which file models which part:
--   Store                    prisma/schema.prisma: rows and enumerations.
--   Worker.Action            a query with its outcome, exceptions, the clock and the batch logs.
--   Worker.Statements        apps/worker/src/registration/helpers/registration-helper.service.ts and
--                            the queries of the handlers: acquire_slot is acquireSlot, and so on.
--   Worker.Handlers          create-batch.handler.ts and cancel-batch.handler.ts: handle_create and
--                            handle_cancel are the two `handle`, create_item and cancel_item the
--                            bodies of their loops.
--   Worker.Checks            checkScheduleConflict and checkPrerequisite of the helper service.
--   Worker.Consumer          registration-consumer.service.ts: consume is the callback,
--                            handle_processing_failure the choice between a retry and the
--                            dead-letter queue.
--   Worker.DeadLetter        dead-letter-consumer.service.ts: mark_batch_failed, consume_dead.
--   Api.Validator            apps/do-an/src/modules/registrations/helpers/
--                            registration-batch-validator.service.ts: each assertion is a function to
--                            the error that it throws, or none.
--                            Its child Pairing has assertLabPairing.
--   Api.Capacity             apps/do-an/src/modules/registrations/registrations.service.ts:
--                            assertSectionsHaveCapacityRedisFirst.
--   Api.Placement            apps/do-an/src/modules/registrations/registrations.service.ts: place is
--                            what createBatch and cancelBatch do from the drawing of the batch's id
--                            to the write of the batch, with the counters before and after it.
--   Api.Registrations        the same file: Lookup is resolveSectionCodes with its cache, Create and
--                            Cancel are createBatch and cancelBatch, Active the queries of the
--                            active and the latest registrations and of the credits.
--   Api.Slots                apps/do-an/src/modules/registration-slots/
--                            registration-slots.service.ts: the checks of create and update; its
--                            child Table has the table with the cache by semester, Students the
--                            slot of a student and what is told to the student.
--   Api.Settings             apps/do-an/src/modules/settings/settings.service.ts: update and getAll.
--   Api.ReadThrough          the reads through a cache with a lock of registration-slots.service.ts
--                            and apps/do-an/src/modules/settings/settings.service.ts.
--   Api.Auth                 apps/do-an/src/modules/auth/auth.service.ts and jwt.strategy.ts: login, logout,
--                            sendOtp, verifyOtp, resetPasswordWithToken, changePassword and validate.
--                            State has the accounts and what Redis keeps, Accounts the default
--                            account, Passwords apps/do-an/src/common/security/password-hash.util.ts.
--   Api.Csv                  apps/do-an/src/modules/users/users.service.ts: parseCsv, parseCsvLine, getCsvValue.
--   Api.Users                the same file: importUsers with its checks of a row, and the input of create;
--                            its child Writes has create, findOne, update and remove, Pages findAll with
--                            buildUserWhereInput.
--   Scheduler.Reconcile      apps/scheduler/src/prewarm/registration-prewarm.service.ts: reconcile is
--                            the pipeline of reconcileCurrentSemesterSlots.
--   Scheduler.Prewarm        the same file: cache_sections, heal_if_needed and the reconciliation from the
--                            settings, and the guards of registration-prewarm.cron.ts.
--   Scheduler.Notification   apps/scheduler/src/notification/registration-notification.service.ts: the
--                            rows, the queries, the groups and buildSummary; its child Run has
--                            processGroup, sendPendingSummaries and the guard of the cron.
--                            Scheduler.Mail has escapeHtml, formatSchedule and renderText,
--                            Scheduler.Html has renderHtml.
--   Shared.Counters          the counters of libs/shared/src/redis/registration-redis-key.ts.
--   Shared.SlotWindow        libs/shared/src/registration-slot-window.util.ts, over the dates of the
--                            engine: Intl.DateTimeFormat and Date are parameters, and
--                            Shared.SlotWindow.Calendar states what is relied on of them.
--   Shared.WeekRange         libs/shared/src/schedule-week-range.util.ts.
--   Base                     lists, tables, groups by a key, texts, numbers: no code of the program.
-- The other files prove: Worker.Seats bounds the seats, Worker.Registrations counts those who hold
-- one, Worker.Conservation, Runs, Turns, CreateRun and CancelRun follow that count through a batch,
-- Worker.Settled and Redelivery a message that comes twice, Worker.Retries the queue, Worker.Burial
-- the dead letters, Worker.Leaks what goes wrong with a lost answer or two workers at once.
-- Api.Registrations.Fresh compares the lookup with its query, Accepted and Refused follow the checks
-- of a request in their order, Written, Stored and
-- Handled take the message of an accepted createBatch to the worker, Held, Given and Cancelled that of
-- cancelBatch; Api.Slots.Accepted, Table.Coherence and
-- Table.Moves are about the rows of the slots and their caches, Api.Slots.Students.Register about
-- who may register, Api.Settings.Updated about the settings after an update, Api.Settings.Partial about requests that leave
-- a property out.
-- Api.Users.Imported is about the report of an import, Updated about an account after an update,
-- Sorted about the order of a query's rows, which Pages uses.
-- Api.Auth.Commands has the writes of a request that succeeds, Steps any sequence of requests, Sessions
-- what ends a session and spends a token, Changes who can set a password.
-- Scheduler.Mail.Escaped and Scheduler.Html.Markup are about the text of the mails,
-- Scheduler.Notification.Budget and Bounded about their number, Told about who gets one, Resent about
-- one that is sent twice, and about the guard of the cron. Scheduler.Prewarm.Warm follows the caches of
-- the prewarming to the lookup of the API, Scheduler.Pending a reconciliation between a batch and its
-- handling.
--
-- State. A table is a list of rows, and an identifier is a number, since identifiers are only
-- compared. A query takes effect wholly or not at all, and ends in one of three ways: answered,
-- refused and not done, or done with its answer lost. The ways and the times of the queries to
-- come are a list, the schedule, which every theorem leaves open, or restricts in its statement.
-- The handlers run one query after another, so runs of several workers are sequences of
-- statements, and Worker.Seats.Step has every statement at any time. The counters are a function
-- of the section's id, and a pipeline that fails has run some of its commands. A query that asks for
-- an order gives the rows through a function of lists that is left open. What Redis answers to the
-- reads of one request is given with the request. The broker is a pair of lists; a message that is
-- sent is appended and one that is acknowledged does not come again. How the calls for one group of a
-- run of the notifications end is its Turn. The requests of the authentication run one after another;
-- each makes its reads at once and may stop after any of its writes, and a value in Redis has the time
-- at which it expires.
--
-- Bounds and fuel. deliver_all takes the number of deliveries; as many as the attempts that the
-- messages have left are enough. decimal takes as many rounds as the number that it prints. Every other loop of the code is recursion on its list. A number
-- in a text is exact; the code reads one above 2 ^ 53 to the nearest number that it can represent.
-- A week range that spans more weeks than a set can hold is read as if it could.
--
-- Not modelled: connections, queue declarations, logs to the console, HTTP, the sending of mail,
-- SHA-256 and the signing of tokens, which are input and output or third-party code; a message whose
-- content is JSON but no object, which is not acknowledged by the code; a header of the retry count
-- that is a number but not an integer. Further: the expiry of the cached values in Redis, two
-- requests of the authentication at once, a change of the password of an account that was removed, and a
-- DEL that fails while an unreadable cached text is
-- put away; what JSON.parse makes of a text, which is given; the wrapper of the
-- message broker in libs/shared/src/rabbitmq/; the guard of roles; and the services of
-- class sections, courses, grades and the dashboard, which administer rows or read them for a view and
-- take no part in a registration. In an import the texts of errors are
-- given by their kind, and the mark of UTF-8 is taken off before. The values of the environment that
-- are negative or fractional are left out in the notifications, and the texts of errors are given.
pub mod Api
pub mod Base
pub mod Scheduler
pub mod Shared
pub mod Store
pub mod Worker
