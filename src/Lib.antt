-- ===== src/Lib.antt =====
-- A verification library of the Ark Rides backend (a NestJS service for ride hailing in TypeScript).
--
-- The program's parts and how they interact. Riders book rides (src/rides/rides.service.ts,
-- `createRide`), drivers accept and drive them (`acceptRide`, `markArrived`, `startRide`), and
-- `completeRide` splits the fare (src/common/utils/money.util.ts), credits driver and rider and posts
-- to the ledger (src/ledger/ledger.service.ts) in one database transaction. Drivers draw on their
-- wallet by fuel advances and payouts (src/wallet/wallet.service.ts), which talk to two outside
-- gateways. Sessions are refresh tokens that are exchanged once (src/auth/services/token.service.ts).
-- Redis holds the locks and the idempotency keys. Drivers register, are approved, go online and are
-- suspended (src/drivers/drivers.service.ts); riders register with an account
-- (src/auth/auth.service.ts). Either party of a ride raises an alarm
-- (src/emergency/emergency.service.ts), which reaches sockets through the rooms of
-- src/websocket/gateways/rides.gateway.ts, and rates the other when it is over
-- (src/rides/ratings.service.ts).
--
-- Files.
--   Common   Booleans, options, lists measured by native numbers, integers.
--   Money    `toKobo`, `toNaira`, `splitFareKobo`, `splitFareNaira`; Money/Split and Money/Rounding
--            are about what they promise.
--   Platform the database repository (Platform/Table) and Redis (Platform/Cache) as interfaces:
--            operations with the laws that the services rely on.
--   Entities the tables: Entities/Rides, Entities/Accounts, Entities/LedgerEntries, Entities/Tokens.
--   World    the state (World/State), the services' effects (World/Monad: an async method reads and
--            writes the state and returns or throws; a transaction rolls the database back), handlers
--            that only read (World/Readers), the lock around a handler (World/Locking).
--   Ledger   `LedgerService`; Ledger/Frame and Ledger/Posting are about its writes.
--   Rides    Rides/Matching (src/rides/utils/category-matching.util.ts), Rides/Booking
--            (`estimateRide`, `createRide`, `calculateFare`), Rides/Trip (`findOne`, `acceptRide`,
--            `markArrived`, `startRide`, `cancelRide`), Rides/Settlement (`completeRide`;
--            Rides/Settlement/Outage is the same while Redis may reject its commands),
--            Rides/Breakdown (`getFareBreakdown`).
--            Rides/Lifecycle is about the status of a ride, Rides/Workload about how many rides a
--            driver has, Rides/Requests about histories of requests and about overlapping ones,
--            Rides/Endpoints about the controller: Rides/Endpoints/Contract is an abstract machine of
--            trips, which Rides/Endpoints/Refinement compares with the code.
--   Wallet   `WalletService`: `getBalance`, `getFuelSupportLimit`, `requestFuelSupport`,
--            `requestPayout`, `reverseDriverBalance`; Wallet/Payout and Wallet/Fuel are about them.
--   Ownership who may act on a row (src/common/utils/ownership.util.ts).
--   Locks    the four handlers that work under a Redis lock.
--   Auth     Auth/Tokens is `TokenService`: `issueSession`, `rotate`, `revokeByToken`,
--            `revokeAllForSubject`, `revokeFamily`, `pruneExpired`, `mint`. `rotate` is the
--            composition of its steps, so that two rotations can be interleaved.
--            Auth/Secrets is bcrypt, the random source and the mail queue as an interface.
--            Auth/Sessions is `AuthService.refreshSession`, `AuthResolverService` and `RolesGuard`;
--            Auth/Sessions/Standing is about who a token speaks for. Auth/Accounts is the rest of
--            `AuthService`: `register`, `verifyOtp`, `resendOtp`, `login`, `forgotPassword`,
--            `resetPassword`.
--   Otp      `OtpUtil` (src/common/utils/otp.util.ts); Otp/Codes is about codes and their comparison.
--            Auth/Privy is `PrivyAuthService` and `PrivyService`: Auth/Privy/Linking, Takeover and
--            Onboarding are about whose account a sign-in with Privy gets.
--   Users    `UsersService` (src/users/users.service.ts); Users/Bootstrap is `AdminBootstrapService`.
--   Vehicles `VehiclesService`; Vehicles/Endpoints is its controller, Vehicles/Own about whose rows a
--            call changes, Vehicles/Plates about plate numbers, Vehicles/Retired about acceptances
--            with a vehicle that is switched off.
--   Filters  `AllExceptionsFilter`, for HTTP and for sockets; Filters/Answers is about what a failure
--            tells.
--   Paging   src/common/utils/pagination.util.ts.
--   BookingChannels `BookingChannelsService` over the interfaces of its parser and its geocoder, and
--            `InternalApiKeyGuard`; BookingChannels/Booked is about what a message books,
--            BookingChannels/Guests about numbers that share an e-mail.
--   Drivers  `DriversService`: Drivers/Registration (`create`, `createFromPrivy`), Drivers/Profile
--            (`findOne`, `findForAuth`, `update`), Drivers/Standing (`updateOnlineStatus`,
--            `updateVerificationStatus`, `updateActiveStatus`, `remove`), Drivers/Password (`login`,
--            `forgotPassword`, `resetPassword`). Drivers/Standing/Dispatch and Drivers/Requests are
--            about who may be online, Drivers/Standing/Suspension about what a suspension ends,
--            Drivers/Standing/Deletion about the rides of a deleted driver.
--   DriverLocations `DriverLocationsService` and the checks of its controller.
--   Emergency `EmergencyService` and `WebhookService.dispatchEmergency`.
--   Ratings  `RatingsService`: `create` is the composition of its checks and its write.
--   Gateway  `RidesGateway`: the rooms of a socket (`handleConnection`, `handleJoinRide`,
--            `handleLeaveRide`, `joinPartiesToRideRoom`) and the rooms of an alarm; Gateway/Watchers is
--            about who was let into the room of a ride.
--   Sample   services and databases that run: lists for tables, a function for Redis.
--   Tests    the theorems at concrete inputs.
--
-- How the code is read. Identifiers, dates and coordinates are natural numbers that are only
-- compared or handed on. A number of naira is an integer count of thousandths, so that the rounding
-- of `toKobo` shows; a money column holds kobo, and what is stored there goes through the parameter
-- `column`, which keeps a number of at most two decimals. The shares 0.95 and 0.01 are the rational
-- ones, which give the same floors below 2⁴⁵ kobo. Fares are natural numbers. Every loop is a
-- recursion on a list, so that every handler returns or throws; only two run on fuel: the digits of
-- a code, of which 16 are more than a safe integer has, and the scaling of an amount to 53 bits,
-- for which 63 doublings are enough from a thousandth of a naira on. A text is a number that is
-- only compared, 0 the empty one; where its characters count, a parameter gives them. One `now` serves a whole handler. A Redis key whose time is over
-- is one that Redis does not hold. The product of `toKobo` is that of two doubles; Money says how
-- its rounding is computed. That Redis rejects a command is modelled in Rides/Settlement/Outage
-- only, for `completeRide`; elsewhere its commands answer.
--
-- Parameters (`Env`, `AuthEnv`, `Secrets`, `Privy`, `TextFunctions`, `Channels`): the repositories
-- with their foreign keys, Redis, the gateways, Privy's verification of tokens, `JSON.parse` and
-- the functions of texts, `randomUUID`, the local day's bounds, the configured limit, the JWT
-- signer, SHA-256, bcrypt, the random source, the mail and webhook queues, `AVG`, the great-circle
-- distance, which is trigonometry on doubles, the parser and the geocoder of messages, and the
-- characters of a text. The gateways may answer anything, or reject, and the webhook queue may take
-- either job or not.
--
-- Not modelled: read-only lists and statistics, the sweep of nearby drivers, the rules that parse
-- a message, the fan-out of ride events to sockets, migrations and configuration; log lines,
-- response texts, `metadata` and the columns that no modelled service reads.
pub mod Common
pub mod Platform
pub mod Entities
pub mod Money
pub mod World
pub mod Ledger
pub mod Rides
pub mod Wallet
pub mod Ownership
pub mod Otp
pub mod Drivers
pub mod DriverLocations
pub mod Emergency
pub mod Ratings
pub mod Users
pub mod Vehicles
pub mod Paging
pub mod Filters
pub mod BookingChannels
pub mod Gateway
pub mod Locks
pub mod Sample
pub mod Auth
pub mod Tests
