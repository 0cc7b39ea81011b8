-- ===== src/Lib.antt =====
-- A model of the LUKS/S3 CSI driver: the node-side logic that mounts encrypted S3 volumes through
-- rclone, keeps writes in a local VFS cache until they are uploaded, and decides when a volume may leave
-- the node.
--
-- How the parts interact: the node service (pkg/driver) answers kubelet and holds one mount manager and
-- one drain slot for each volume; a mount manager (pkg/rclone) runs one rclone VFS under a generation's
-- name, and its unmount waits for rclone's write-back queue, shuts the sessions down and removes the
-- cache only when nothing in it is unuploaded. The host's mount table tells both what is mounted where.
--
-- Base: lists, byte strings, decimal numbers, string searches and cuts, sets and maps keyed by strings.
-- Rclone.VfsName: vfsNamesFor, volumeIDOfVFSName, generationOfVFSName (pkg/rclone/syncmanager.go).
-- Rclone.Units: parseDurationToNs, parseSizeToBytes, durationOrDefault (pkg/rclone/syncmanager.go).
-- Rclone.Redact: redactBetween, sanitizeErrorMessage (pkg/rclone/rclone.go).
-- Rclone.Mounts: ParseMountStacks, flattenMountStacks, unescapeMountField and, in Mounts.Cache, the cached
-- table with its single reader (pkg/rclone/mounts.go); `query`, `read_done` and `invalidate` are what the
-- source does between taking mountsMu and releasing it.
-- Rclone.CacheDir: ValidateVFSCache and isCacheItemDirty (pkg/rclone/cachecheck.go), hasDirtyCacheItemsAt,
-- hasUnuploadedDataAt and volumesWithUnuploadedDataAt (pkg/rclone/vfscache.go).
-- Rclone.Drain: waitForPendingUploads, IsUploadQueueEmpty, uploadQueueConfirmedEmpty, unmount
-- (pkg/rclone/syncmanager.go).
-- Rclone.Exclusive: RegisteredVFSNames, countRegisteredVFS, ensureExclusiveVFSName
-- (pkg/rclone/syncmanager.go).
-- Rclone.Rpc: the table of calls in flight and checkStuckRPCs (pkg/rclone/rclone.go).
-- Rclone.Session: the path of a volume's sessions, sessionsOf, ShutdownSessions, SweepDeadSessions
-- (pkg/rclone/session.go).
-- Driver.Drains: the drain slots of S3SyncManager and their markers on disk (pkg/driver/node_s3.go,
-- pkg/rclone/vfscache.go); each event is one critical section of drainMu or one call outside of it, and the
-- markers' file system may fail.
-- Driver.Unstage: cleanupS3Sync, forceCleanupS3Sync, resumeStrandedDrain
-- (pkg/driver/node_s3.go) and NodeUnstageVolume (pkg/driver/node.go).
-- Driver.History: these and the drains' goroutines as events of one node, with driver restarts.
-- Driver.Backoff: reconcileAllowed, consumerRestartAllowed, vfsRegistryMissing (pkg/driver/node_s3.go).
-- Driver.Consumers: parseConsumerBinds, liveMountDevices, strandedInMountInfo (pkg/driver/node_s3.go).
-- Rclone.Config: BuildS3RemoteString, quoteValue, DeriveRcloneCryptConfig (pkg/rclone/config.go).
-- Rclone.Eviction: evictCacheIfNeeded, hasActiveTransfers (pkg/rclone/syncmanager.go).
-- Rclone.Sweep: the persisted name map, CleanupOrphanedVFSCacheDirs and sweepUnmappedVFSCacheDirsAt
-- (pkg/rclone/vfscache.go).
-- Driver.Publish: NodePublishVolume on S3 volumes, bindMount, isAlreadyStaged, ensureVolumeStaged, unmountPath
-- (pkg/driver/node.go), verifyS3StagingLive and unmountHostStack (pkg/driver/node_s3.go).
-- Rclone.Exposure: waitForMountReady, expose, mountUsable, unbindStaging, SessionServing, Reexpose
-- (pkg/rclone/syncmanager.go), mountedDevice (pkg/rclone/session.go).
-- Rclone.Options: VFSCacheConfig, buildVFSOpt and the options of mount/mount (pkg/rclone/syncmanager.go).
-- Rclone.Mounting: NewMountManager, Mount, bumpGeneration (pkg/rclone/syncmanager.go) and DeleteNamedConfigs
-- (pkg/rclone/config.go); a Mount's calls are listed in their order, and `Requested` is what they ask for and
-- do not ask to undo.
-- Driver.Pods: podStuckTerminating, deletePodByUID, sweepStuckTerminatingConsumers, podsUsingPVC; in
-- Pods.Healing recoverConsumerPod, podContainerPIDs, podSelfHealsViaPropagation (pkg/driver/node_s3.go).
-- Driver.Setup: setupS3Sync, mountS3Volume, reexposeLiveSession, getVFSCacheConfig (pkg/driver/node_s3.go).
-- Driver.Reconcile: reconcileS3Mount, restartPodsWithStaleS3Mount, rebindConsumerMount,
-- consumerMountHealthy (pkg/driver/node_s3.go).
-- Driver.Checker: cleanupStaleS3Mounts, mountVFSResponsive, expectedFSName (pkg/driver/node_s3.go).
-- Driver.Stranded: recoverStrandedVolumes, stagedVolumeIDs (pkg/driver/node_s3.go).
-- Driver.Repair: repairStrandedConsumers, stagedVolumesByPV, containerStrandedDevices
-- (pkg/driver/node_s3.go).
-- Driver.Luks: FormatAndOpenLUKS, OpenLUKS, CloseLUKS, runCryptsetup (pkg/luks/luks.go), formatDevice,
-- mountDevice, ensureBackingFileExists (pkg/driver/node_luks.go), CreateBackingFile (pkg/driver/utils.go);
-- Luks.Expand: NodeExpandVolume and performVolumeExpansion. `DeviceCall` lists the commands that change
-- something; a command's effect on the disk is not modelled, only that and when it is run.
-- Driver.Stage: NodeStageVolume, prepareVolumeStaging, extractFsGroup, extractFsMode (pkg/driver/node.go).
-- Driver.Orphans: cleanupOrphanedVolumes, reclaimOrphanedVolume (pkg/driver/node.go), cleanupVolumeStaging
-- (pkg/driver/node_luks.go), detachLoopDevicesFor (pkg/driver/utils.go).
-- Driver.Controller: CreateVolume, ControllerExpandVolume, ValidateVolumeCapabilities
-- (pkg/driver/controller.go).
-- Secrets: ExtractSecretParams, FetchVolumeSecrets, Validate, S3ConfigFromSecrets (pkg/secrets); the API server
-- is a parameter, a function from a namespace and a name to a secret.
-- Tests: the theorems at concrete inputs.
--
-- Conventions. A string is the list of its bytes. Times and durations are nanoseconds, as natural numbers,
-- of one clock; an int64 that is read from text or JSON is an integer whose products and sums wrap. A Go
-- map is an association list or a list of keys. What rclone, the kernel, the API server, the file system
-- and the clock answer is data of the model (a reply, a poll, a turn, a directory walk), errors included,
-- and every theorem speaks of all of it.
--
-- Fuel. The poll loop of the drain runs on the polls that fit into its budget (each one sleeps for two
-- seconds), the search for a free VFS name on its seventeen turns, and the waits of Rclone.Exposure on the
-- half seconds that fit into the time left (each turn sleeps for one); all are shown to be enough. The
-- loop of redactBetween runs on any fuel, since it need not end.
--
-- Not modelled: the Kubernetes and CSI plumbing, what cryptsetup and the other commands do, rclone itself,
-- the FUSE and mount system calls, log output. Of the repository's own code also the set-up of the VFS
-- cache's volume (pkg/rclone/vfscache.go), the asynchronous log (pkg/asynclog), the registration with
-- kubelet and the self-monitor (pkg/driver), which drive commands and goroutines.
pub mod Base
pub mod Driver
pub mod Rclone
pub mod Secrets
pub mod Tests
