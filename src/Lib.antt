-- ===== src/Lib.antt =====
-- go-slug packs Terraform configuration into archives ("slugs"), addresses the sources of modules, and
-- gathers remote sources into source bundles. This library models what is ignored, what is packed and
-- unpacked, what an address means, and what a source bundle holds.
--
-- Parts, and how they interact:
-- * internal/ignorefiles reads a .terraformignore file into rules and tests paths against them. The
--   packer (slug.go) and the bundle builder (sourcebundle/builder.go) both ask it.
--     Ignore.Rules     terraformignore.go: rule, defaultExclusions, readRules
--     Ignore.Compile   terraformignore.go: rule.compile, from a pattern to a regular expression
--     Ignore.Excludes  ignorerules.go: Excludes, Includes, LoadPackageIgnoreRules; rule.match; and
--                      parseIgnoreFile of the terraformignore.go at the root
--     Ignore.Marks, Flags, Globals, Reading, Matching hold proofs, Ignore.Samples examples.
-- * sourceaddrs parses, prints and resolves the addresses of local, remote and registry sources.
--     Addrs.SubPath    subpath.go
--     Addrs.Local      source_local.go
--     Addrs.Types      the structs, and the packages url, regaddr and versions as records of operations
--     Addrs.Remote     source_remote.go, source_remote_types.go, package_remote.go
--     Addrs.Registry   source_registry.go, source_registry_final.go
--     Addrs.Source     source.go, source_final.go
--     Addrs.SubPath.Join and Valid, Addrs.Tidy, Resolve and Secure hold proofs, Addrs.Samples examples.
-- * internal/unpackinfo decides which entries of an archive may be unpacked, and where to, and restores
--   modes and times.
--     Unpack           unpackinfo.go: UnpackInfo, NewUnpackInfo
--     Unpack.Restore   unpackinfo.go: RestoreInfo; lchtimes_linux64.go: Lchtimes; the record Disk
--     Unpack.Inside holds proofs, Unpack.Samples examples.
-- * slug.go packs directories and unpacks archives. It asks ignorefiles which files to pack, and
--   unpackinfo which entries to unpack.
--     Slug             slug.go: validSymlink
--     Slug.Extract     slug.go: Unpack
--     Slug.Packer      slug.go: the options, NewPacker, checkFileMode, resolveExternalLink
--     Slug.Pack        slug.go: Pack, packWalkFn; terraformignore.go: matchIgnoreRules
--     Slug.Sibling, Kept, Accepted, Account, Packed, Sound, Links and Finish hold proofs, Slug.Samples,
--     ExtractSamples and PackSamples examples.
-- * sourcebundle fetches what addresses name, with all that it depends on, into one directory.
--     Bundle.Types     diagnostics.go, dependency_finder.go, package_meta.go, registry_client.go, and the
--                      record World of all that the builder takes from outside
--     Bundle.Builder   builder.go: the struct Builder, NewBuilder, ensureRemotePackage
--     Bundle.Registry  builder.go: findRegistryPackageSource
--     Bundle.Resolve   builder.go: resolvePending, AddRemoteSource, AddRegistrySource and
--                      AddFinalRegistrySource
--     Bundle.Prepare   builder.go: packagePrepareWalkFn
--     Bundle.Manifest  manifest_json.go; builder.go: writeManifest, to the value that is serialised
--     Bundle.Open      bundle.go: OpenDir, ChecksumV1
--     Bundle.Lookup    bundle.go: LocalPathForSource and its kin, SourceForLocalPath, RemotePackages,
--                      RegistryPackages and the other lists
--     Bundle.Close     builder.go: Close; bundle.go: WriteArchive and ExtractArchive
--     Bundle.Diagnostics  diagnostics.go: Source
--     Proofs: Bundle.Frame, Once and Reach; Measure, Find, Queues, Drain, Idle, Panics, Progress and
--     Finish on termination; Placed, Grown, Covered and Complete on what was asked for; Opening, Digest and Listed on opened
--     bundles; Paths, Confined, Spelled, Chosen and Inverse on their paths; Reopened and Closed on manifests
--     and archives; Prepared, Ignored and Referent on preparing a package. Examples: Bundle.Samples,
--     OpenSamples, CloseSamples and PrepareSamples.
-- * Go models the functions of Go's packages strings, path, path/filepath, sort and io/fs that the code
--   calls (Strings, Path, Relative, Sort, FileWalk), with facts on them (Segments, Walk, Rooted, Sorted,
--   WalkKept, WalkEnds). Go.Action has calls that change a state and may fail. Prelude has what all parts
--   share.
--
-- How the code is written down: a text is the list of its code points. A struct is a record, a map an
-- association list, a queue a list whose head is the end of the slice from which the code takes. A method
-- that changes its receiver returns the new one. An error is a value of the model's own types; the wording
-- of messages is not kept. A panic is a value of its own. The variable defaultExclusions is passed in and
-- out, since readRules writes to it. The separator of paths is a slash, as on Unix.
--
-- What is not under the repository's root is a parameter: Go's regexp (record Regexp), net/url, the parser
-- of registry addresses and go-versions (records of Addrs.Types), and, in the record World, the registry
-- client, the package fetcher, dependency finders, the hash of a directory and the file system calls of the
-- builder; the preparation of a fetched directory, which is the repository's own, enters there as well. os.Lstat is a function in Unpack, for one call, and os.Getwd a value in Slug. Unpack and
-- packagePrepareWalkFn work on a file system that each call may change (records Disk and PackageDisk), Pack
-- on one that does not change (record Tree), with a tar writer that may refuse any call (record Writer).
-- OpenDir gets the decoder of manifests (record Files). In World answers may depend on all that happened
-- before, except those of a dependency finder, which is a function of its package's directory, and those of
-- the hash.
--
-- Fuel: rule.compile loops over the pattern and gets the pattern's length, of which each round takes a
-- character at least. The loop of resolvePending ends only if dependency finders ask for finitely many
-- artifacts; its fuel is an argument, as it is of the methods that call it. The walk of a directory and the
-- chain of symlinks of resolveExternalLink have their depth as an argument, and end as unfinished where it
-- is too small: symlinks may lead to themselves.
--
-- Not modelled: the callbacks of trace.go, of which Bundle.Types keeps the events, the Lchtimes of systems
-- without timestamps of symlinks, and the texts of descriptions of diagnostics. In World the preparation of
-- a fetched directory, which applies the ignore rules, is one function that may fail or panic, as readRules
-- does on a line of spaces; it is not joined with Ignore.Rules and Bundle.Prepare. A map is read in the order of its association list, where Go leaves the order open.
pub mod Prelude
pub mod Go
pub mod Ignore
pub mod Addrs
pub mod Unpack
pub mod Slug
pub mod Bundle
