-- ===== src/Lib.antt =====
-- The MySQL operator: a Kubernetes operator (Go) that runs MySQL clusters under a StatefulSet and uses
-- orchestrator for failover. This library models the parts that decide: which server version runs,
-- what orchestrator is told, which status the cluster shows, which claims are expanded or deleted and
-- which backups, how MySQL is configured and initialised in a pod, and which statements create and
-- drop users and databases.
--
-- The parts, the files that model them, and the code:
--   Semver                    pkg/util/semver, pkg/util/mysqlversion: versions and version gates
--   Versioning                pkg/mysqlversioning: profiles of server lines (Profiles), versions of specs,
--                             images and containers (Resolution), images (Images), allowed upgrades
--                             (UpgradePath), and the statements of replication (Replication)
--   Cluster                   pkg/apis/mysql/v1alpha1 and pkg/internal/mysqlcluster: the resource, its
--                             conditions (Conditions), its nodes (Nodes), its versions and its validation
--                             (Versions), and the options of MySQL that it gets by default (Defaults)
--   Upgrade                   pkg/controller/mysqlcluster/internal/versionupgrade: the check of an upgrade
--                             (Checker), the version that the StatefulSet runs (Rollout), the versions that
--                             the servers report (Observe), when a rollout is complete (Pods), and the steps
--                             of an upgrade (Steps)
--   Orchestrator              pkg/controller/orchestrator/orchestrator_reconcile.go and pkg/orchestrator:
--                             the master of a topology (Topology), registration (Discovery), read-only and
--                             writable hosts (Writable), removal of nodes (Removal), the status (Status),
--                             recoveries (Recoveries), and the whole reconciliation (Sync)
--   Pvc                       pkg/controller/mysqlcluster/internal/cleaner: deletion of surplus claims
--                             (Cleanup) and expansion of small ones (Resize)
--   PodLabels                 pkg/controller/mysqlcluster/internal/syncer/pod.go: labels of the pods
--   BackupCron                pkg/controller/mysqlbackupcron/job_backup.go: one scheduled run of backups
--   Sql                       pkg/internal/mysql: the statements on users and databases, how MySQL reads
--                             their literals (Literals), their placeholders (Placeholders), when they
--                             panic (Panics), and the database that they name (Database)
--   Accounts                  pkg/controller/mysqluser and mysqldatabase, with pkg/internal/mysqluser,
--                             mysqldatabase and mysql/mysql.go: the passes over a user (Users) and over a
--                             database (Databases), as the requests that they send (Passes)
--   Backups                   pkg/internal/mysqlbackup, pkg/controller/mysqlbackup/internal/syncer/job.go:
--                             where a backup goes (Defaults), the node that it is taken from (Candidate),
--                             and its status (Status)
--   Node                      pkg/controller/node: the statements and the actions that send them
--                             (Requests), what is done on a server (Runner), its initialisation
--                             (Initialize), and a pass over a pod (Reconcile)
--   Controller                pkg/controller/mysqlcluster/mysqlcluster_controller.go: the steps that a pass over
--                             a cluster takes and how they are chained (Steps), the reset of
--                             FailoverInProgress (Failover), the version gate (Gate), and
--                             the syncers, the claims and the whole of a pass (Syncs)
--   Base, Tests               helpers that the parts share; the theorems at concrete inputs
--
-- The cluster controller (Controller) checks an upgrade with Upgrade.Checker, rolls out the version of
-- Upgrade.Rollout, both by the rules of Versioning.UpgradePath, labels the pods by the conditions of
-- the nodes, and expands and cleans up claims. The controller of nodes (Node) reads the
-- FailoverInProgress condition that the reconciliation with orchestrator writes, and makes a replica
-- follow the host that its master conditions name, in the dialect of Versioning.Replication; Backups
-- chooses its node by the same conditions. The orchestrator controller runs Orchestrator.Sync, which
-- writes the conditions that these read. The controllers of Accounts wait for the Ready condition that
-- it writes, and send the statements of Sql.
--
-- A Go function f is the definition of that name in snake_case; a method takes its receiver as an
-- argument, and one that changes the cluster returns it. An error is its kind, or `none`, without its
-- text; in Accounts and Node it has its text, which goes into a condition. A nil pointer is `none`.
-- Numbers of replicas and times are natural numbers, times in nanoseconds; `int32` conversions of
-- ordinals and of counted pods are written out. A Go string is the list of its bytes, and white space
-- is that of ASCII. The walk of Orchestrator.Topology takes fuel, one more than the number of
-- instances, which is enough since it never visits an instance twice, and printing a number takes fuel
-- for its digits, one more than the number, which reading it back shows to be enough. The two loops of
-- Node.Runner that wait take a number of rounds, a parameter: how often they come round before the
-- context of the pass ends, which is an error. All other loops recurse on lists or counts.
--
-- Parameters: the library github.com/blang/semver (Semver.Blang, with laws), the Kubernetes client,
-- the SQL query of a server, the answers of orchestrator, `sort.Sort` (with what its documentation
-- says), and the clock, which is one value for the whole of a reconciliation. For Accounts also:
-- `sql.Open`, the finalizers of the library controller-util (with laws), and what the API server and
-- MySQL answer to each request after those sent before it; an update that succeeds leaves the object
-- in memory as it was sent. The resource options of a user are a list, in the order in which Go yields
-- the map. What MySQL reads from a literal or a quoted identifier is written down in Sql.Literals from
-- its manual. For Node and Pvc.Resize, the answers of the API server and of MySQL are parameters in
-- the same way, each after the requests that were sent before it. In Cluster.Defaults a quantity is
-- its value, and a requested memory is below 2 ^ 50 bytes, where the products of `float64` are the
-- quotients written there. For Controller, what the syncers, the claim resizer and the claim cleaner
-- answer and what they leave in the cluster in memory, and the cluster that the API server answers an
-- update with, are parameters too, each after the steps that were taken before it. A pass there starts
-- at the validation of the cluster, which has its defaults by then; the reset of FailoverInProgress,
-- which comes before, is on its own.
--
-- Not modelled: the objects that the syncers write (with them the config map and the defaults of the
-- pod), the sidecar, the passes of the backup controllers with the deletion of backups from storage,
-- the controller of the orchestrator finalizer, command-line options, watches and their predicates,
-- HTTP and the execution of SQL, logs, events, and negative numbers of replicas.
mod Base
pub mod Semver
pub mod Versioning
pub mod Cluster
pub mod Upgrade
pub mod Orchestrator
pub mod Pvc
pub mod PodLabels
pub mod BackupCron
pub mod Sql
pub mod Accounts
pub mod Node
pub mod Backups
pub mod Controller
mod Tests
