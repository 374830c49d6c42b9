-- ===== src/Lib.antt =====
-- cvetool scans a system or an image for known vulnerabilities, offline. It indexes the packages with
-- claircore, matches them against a database in SQLite, and prints a report. For a RHEL system it makes
-- a catalog first: DNF lists the packages of the enabled repositories, a mapping gives the CPEs of each
-- repository, and the index report is enriched with the repositories that the catalog has for a package.
--
-- The files and what they model:
--   Prelude      Boolean tests, lists (Prelude/Lists), errors and results (Prelude/Results)
--   Text         Go strings, and integers with their decimal texts (Text/Decimal), with the functions of strings, sort, bufio and path/filepath that are used
--   Catalog/Nevra           catalog/nevra.go: package identities
--   Catalog/Target          catalog/target.go: Architecture (ResolveTargetArchitecture), Roots (files
--                           below the target's root), RepoDirs (repository directories)
--   Catalog/OsRelease       parseOSRelease and ResolveTargetInfo of catalog/target.go, and
--                           targetHasRHELID of cmd/cvetool/scan_catalog.go
--   Catalog/Mapping         catalog/repository_mapping.go, and SelectMappedRepositories
--   Catalog/Json            catalog/json.go and catalog/catalog.go: the contents of a catalog
--   Catalog/Enrich          catalog/enrich.go: EnrichIndexReport
--   Catalog/HostPaths, Catalog/Dnf, Catalog/DnfOutput
--                           catalog/dnf.go: the checks of directories, the arguments, the output
--   Catalog/Generate        catalog/generate.go: Generate, and Fingerprint of the mapping
--   Cmd/Locks               cmd/cvetool/tmp_locallock.go
--   Cmd/Fetcher             cmd/cvetool/fetcher.go: who closes the layers
--   Cmd/ScanCatalog         cmd/cvetool/scan_catalog.go (with Prepare: the preparation of a catalog and
--                           its target) and the checks of cmd/cvetool/scan.go
--   Cmd/Scan                cmd/cvetool/scan.go: the course of a scan and the status of the process
--   Cmd/Update              cmd/cvetool/update.go
--   Output/Quay             output/quay.go
--   Datastore/Tables        the tables of datastore/sqlite/migrations
--   Datastore/Update        datastore/sqlite/update_vulnerabilities.go
--   Datastore/Ranges        rangefmt of datastore/sqlite/update_vulnerabilities.go
--   Datastore/Versions      intVersion and version_in of datastore/sqlite/matcher_store.go
--   Datastore/Gc            datastore/sqlite/gc.go, and DeleteUpdateOperations
--   Datastore/Operations    GetUpdateOperations of datastore/sqlite/update_operations.go
--   Datastore/Get           datastore/sqlite/query_builder.go, and Get of get.go
--   Datastore/Status        datastore/sqlite/updater.go
--   Datastore/Indexer       datastore/indexer_store.go
--   Image/Archive           parseLocalArchive of image/manifest.go
-- A module Tests below a component has runs on concrete inputs.
--
-- A function of Go with a result and an error returns a Result; where the result counts beside an
-- error, it returns both. A method that changes its receiver takes and returns the state. A map is an
-- association list, in the order in which a range over it meets the entries, of which nothing is
-- assumed. A Go string is the list of its code points. Concurrent calls that hold a mutex are steps of
-- a relation (Cmd/Locks) or of a list of calls (Cmd/Fetcher).
--
-- Every loop is a recursion on the list that it goes over. The only fuel is that of the digits of a
-- number, for which as many rounds as the number are enough (Text/Decimal). resolveDNFPath goes up the
-- elements of a path, for the absolute paths that its callers give.
--
-- Parameters stand for code that is not in the repository: cpe.Unbind and layers of claircore, the
-- system calls on files, the command that runs DNF and RPM, digests, JSON, float64 and the library that
-- compares versions.
--
-- A table of the store is the list of its rows and a statement is a function on tables: statements do
-- not fail, and where SQL leaves an order open, the order of the tables stands for it. Whether foreign
-- keys are enforced is a parameter of the garbage collection. parseLocalArchive is a state monad whose
-- errors keep the state, which the deferred function reads.
--
-- The preparation of a catalog and a scan are state monads of the same kind. Their state has the
-- resources that are acquired and the outer effects in their order; a scan opens the matcher store and
-- Libvuln, and no effect closes them, as in the code. A duration is a whole number of
-- seconds, and a time that was never set is 0.
--
-- Not modelled: the writing of enrichments and their query in datastore/sqlite, LoadRepositoryMapping,
-- remote images and file systems as images (image), the other output formats, the download of the
-- database, and the command line, apart from the parts above: calls of other packages for the most.
pub mod Prelude
pub mod Text
pub mod Catalog
pub mod Cmd
pub mod Output
pub mod Datastore
pub mod Image
