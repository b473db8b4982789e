-- ===== src/Lib.antt =====
-- Kirby, a server that keeps typed configurations, checks them against a schema of structures and
-- enums, snapshots them, and publishes one snapshot per configuration to its runtime clients.
--
-- Base has the notation, the integers and the results that the other modules share, Keys the hash
-- set (server/internal/util/set/hashset.go) and Dict Go's maps.
--
-- Schema is server/internal/entity/schema.go over the messages of server/api/common.
--   Schema.Types, Texts, Times   the messages, JSON values and errors; validKey, validName and the
--                                patterns; time.Parse at the three layouts that the code uses.
--   Schema.Build                 NewSchema. Its children prove what it accepts: Graph has the
--                                references between structures, Acyclic, Complete and Tables the
--                                loops, WellFormed the invariant and Accepts the theorems.
--   Schema.Values                ValidateConfig, with Conforms, the relation between types and
--                                values that it decides, and Sound, Complete and Exact.
--   Schema.Expand                BuildTree and DefaultValue, which Total shows to return.
--   Schema.Choices               FilterStructureChoices, in Pass one pass of its loop and in Exact
--                                what it keeps.
--
-- Store has the rows (server/internal/model) and the scopes (server/internal/repository/scope.go),
-- and Store.Rows what updates and searches do to rows.
-- Publish is server/internal/logic/publish.go over server/internal/repository/snapshot_publish.go:
-- Data has its records, Checks what is checked on the locked rows, Writes the statements, and
-- Publish itself the composition: authorizedSnapshot, then a transaction of preparePublication and
-- persistPublication, then the result and the cache entry to delete. Of its proofs, Scan is about
-- publicationState, Written and Updates about the statements, Release and Retract about the rows
-- that they leave, and Outcome, Committed and Advance about whole calls.
--
-- Session is server/internal/repository/refresh_token.go and rotateRefresh of
-- server/internal/logic/auth.go: the rotation of refresh tokens, and the revocation of a session
-- whose consumed token comes back (Session.Rotation, Session.Replay).
--
-- Access is server/internal/permission with server/internal/repository/permission.go, role.go and
-- user_environment_role.go.
--   Access.Data, Source          the rows, and the queries of an authorization; each query of a call
--                                sees the tables as the database shows them at that moment.
--   Access.Normalize             normalize of permission.go.
--   Access.Resolver              Resolver. Checked says what an identity shows, Versions what a
--                                generation stands for, Settled and Granted what Resolve and
--                                Require conclude, Attempts when Resolve gives up.
--   Access.Generations           the generations of environments: Ids the sorted IDs, Bumped what an
--                                advance does.
--   Access.Members, Roles        ReplaceRoles, and the writes of roles; Discipline says
--                                when the keys of users may change.
--
-- Snapshots is server/internal/repository/snapshot.go (Current: what SetCurrent selects), with
-- Snapshots.Remove the reads and Delete of server/internal/logic/snapshot.go (Removed).
--
-- Structures is server/internal/repository/structure.go. Structures.Convert is structure.go, enum.go
-- and common.go of server/internal/converter, Edit the update and the deletion of
-- server/internal/logic/structure.go with config_resources.go; Kept and Dropped are about what a
-- deletion leaves, Written, Checked, Changed, Left and Edited about what an update finds, is checked
-- against and leaves.
--
-- Cache is the memory store of server/internal/infra/cache/cache.go, Cache.Live what it promises.
-- Limit is FixedWindowRateLimit of server/internal/middleware/rate_limit.go over it, Limit.Quota how
-- many requests pass and Limit.Recovery that they pass again; Decimal reads and prints its counters.
-- ClientIp is client_ip.go beside it, with Text for the splitting and trimming of headers, and
-- ClientIp.Chain which hop it chooses. SafeInt is server/internal/util/safeint/safeint.go, and Page server/internal/repository/page.go.
--
-- The recursions through structures run on fuel, one more than the schema has structures: each
-- level adds a defined key to the set that the code keeps, so that the set is full before the fuel
-- ends. The passes of FilterStructureChoices run on one more than the number of items, since each
-- pass but the last adds the key of an item.
--
-- Parameters stand for what is not part of the repository or has no fixed answer: `range_keys` for
-- the order in which Go ranges over a map (it lists the same keys), `decode_json` for
-- encoding/json's decoding of a value, `decode_content` for entity.DecodeConfigSnapshot, which is
-- protojson, `require` for the permission check, `transact` for the engine's transaction (it
-- commits what a successful body leaves, or fails and leaves the tables as they were), `fault` for
-- the statement that the database fails, `now` for the clock, `new_id` for the ID of an inserted
-- row, `same_key` and `like_system` for comparisons under the collation of a column, which is exact in
-- the schema of PostgreSQL and not in that of MySQL; other texts are compared exactly. Of an
-- authorization `view` gives the tables that each query sees, `cached` the answers of the
-- cache, `ordered` is the DISTINCT and ORDER BY of the database and `decode_keys` json.Unmarshal. A
-- nil pointer that the code follows is the error `panic`.
--
-- Not modelled: logins, the logic over roles and members, the editing of configurations and
-- enums, the creation and reconciliation of structures in the logic, the creation and the loading of
-- snapshots, imports, Redis; transport, storage and cryptographic clients, generated code, the web
-- front end.
pub mod Base
pub mod Keys
pub mod Dict
pub mod Schema
pub mod Store
pub mod Access
pub mod Publish
pub mod Structures
pub mod Snapshots
pub mod Session
pub mod Decimal
pub mod Text
pub mod SafeInt
pub mod ClientIp
pub mod Cache
pub mod Limit
pub mod Page
pub mod Tests
