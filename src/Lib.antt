-- ===== src/Lib.antt =====
-- designate: DNS as a service, here with the ZDNS appliance as a backend.
--
-- The program's parts and their models. Paths are from the repository's root.
--
-- - designate/central/service.py keeps the zones, recordsets and records. A change to one of them is
--   written with an action (CREATE, UPDATE, DELETE) and the status PENDING; when the DNS servers have
--   been told, a status report comes back, and central completes the change. Objects.antt has the
--   fields that matter, Central/Store.antt the tables and the storage operations
--   (designate/storage/impl_sqlalchemy/__init__.py), Central/Status.antt the reports: update_status
--   (_update_record_status, _update_zone_status, _update_zone_or_record_status), update_zone_status
--   and update_recordset_status. The code reads rows by a query and then writes or deletes them one
--   by one, with a recordset deleted when its last record is; Central/Status/Settle.antt relates such
--   a loop to one pass over the table, Acknowledged, Reported and Finished say what each report
--   leaves, and Transition follows a zone through any sequence of reports.
-- - Central/Checks.antt and its modules are what designate/central/service.py checks before it writes:
--   ZoneNames has _is_valid_zone_name, _is_blacklisted_zone_name, _is_subzone and _is_superzone;
--   RecordsetNames has _is_valid_recordset_name, _is_valid_recordset_placement,
--   _is_valid_recordset_placement_subzone and _validate_recordset; Quotas has _enforce_zone_quota and
--   its siblings, over Quota.antt; ZoneCreation composes them to create_zone and _create_zone, with the
--   scheduler's answer, the name servers and the backend as parameters.
-- - Central/Transfers.antt is the transfer of a zone to another tenant (create_zone_transfer_request,
--   create_zone_transfer_accept, and the transaction decorator of designate/storage/__init__.py).
-- - Central/Locks.antt is synchronized_zone: a thread runs nested calls that take the locks of zones.
-- - Central/Purge.antt is purge_zones of designate/storage/impl_sqlalchemy/__init__.py, which removes
--   deleted zones for good and gives their children another parent.
-- - designate/scheduler chooses the pool of a new zone: Scheduler.antt has the filters of
--   designate/scheduler/filters and schedule_zone of designate/scheduler/base.py.
-- - designate/worker/tasks/zone.py pushes changes to a pool's target and polls the nameservers.
--   Worker/Threshold.antt is ThresholdMixin; Worker/Poller.antt is PollForZone, parse_query_results and
--   ZonePoller, whose verdict becomes a report to central; Worker/Calls.antt is the little monad of
--   calls that may raise, and Worker/Actions.antt has ZoneActionOnTarget, ZoneAction, RecordSetAction,
--   RecordAction, AclAction and ViewAction in it. Worker/Recovery.antt has RecoverShard and ExportZone.
-- - designate/pool_manager/service.py is the older way from the nameservers to central.
--   PoolManager/Consensus.antt has the percentage of the targets and the consensus and error serials,
--   PoolManager/Statuses.antt the status cache of one zone and update_status, which turns what one
--   nameserver said into reports to central's update_status, PoolManager/Zones.antt the change of a
--   zone on the pool's targets (create_zone, update_zone, delete_zone).
-- - designate/mdns/notify.py asks a nameserver for its serial, with retries: Mdns/Notify.antt has
--   _make_and_send_dns_message and get_serial_number.
-- - designate/coordination.py shares work between processes: Coordination/Partitioner.antt is
--   _partition and _update_partitions, Coordination/Partitioner/Watching.antt the Partitioner with its
--   callbacks, Coordination/Election.antt is LeaderElection, both as step relations.
-- - designate/producer/tasks.py runs periodic tasks, each member of the group on its own shards:
--   Producer/Sharding.antt is the criterion that stands for a member's partitions, Producer/Paging.antt
--   the listing page by page, Producer/Tasks.antt what each task calls.
-- - designate/sqlalchemy/base.py is the ground of the storage layer: Storage/Criteria.antt is how a
--   criterion is read and what it lets through, Storage/Rows.antt creating, finding, updating and
--   deleting rows, with tenants, soft deletion and versions, Storage/Recordsets.antt how the rows of a
--   join become recordsets.
-- - designate/objects/base.py: Objects/Tracking.antt is the setters with their changes and original
--   values, Objects/Wire.antt an object's way over RPC (with designate/rpc.py).
--   designate/objects/recordset.py: Objects/RecordSet.antt.
-- - designate/quota/base.py and designate/quota/impl_storage.py: Quota.antt.
-- - designate/common/memorycache.py: MemoryCache.antt.
-- - designate/utils.py: Utils.antt (increment_serial, get_paging_params, split_host_port, get_proxies).
-- - designate/dnsutils.py: NotifyLimit.antt (ZoneLock, the rate limit of NOTIFYs).
--
-- Prelude.antt passes on the library's names and has Boolean tests on numbers; Prelude/Lists.antt has
-- lists over the native numbers; Prelude/Texts.antt has texts as lists of code points, with Python's
-- split, join, strip and endswith; Prelude/Words.antt has split and strip at any code, and
-- Prelude/Decimal.antt decimal numbers.
--
-- Choices. Identifiers and keys are numbers: the code only compares them; the names of zones and
-- recordsets are texts where their labels matter. A table is the list of its live rows, so a soft delete
-- takes a row out; only Central/Purge.antt has the deleted rows too. In the status updates `none` is the
-- exception that ends the transaction, in the checks an exception is a Refusal. ZonePoller's loop is
-- bounded by the configured number of retries, as in the code, so no fuel is needed;
-- `_iter` and the loop that moves indexes have fuel, and theorems that enough of it ends them;
-- get_serial_number has one round of fuel more than retries, which is enough since every round that
-- has a retry left sends a message; the steps of _walk_up_zones are the code's own bound. What
-- nameservers answer, what other services do, how the database compares values, the clock, regular expressions, the policy and the
-- members that the coordination backend answers are parameters. Percentages are compared on whole
-- numbers.
--
-- Not modelled: the API, the schemas of the objects, the DNS drivers, the agent, the storage layer's
-- joins and migrations, RPC, the sink and the commands, which are I/O or glue; logging, sleeping and notifications.
pub mod Prelude
pub mod Coordination
pub mod MemoryCache
pub mod Storage
pub mod Producer
pub mod Quota
pub mod Scheduler
pub mod Utils
pub mod Objects
pub mod Worker
pub mod Central
pub mod PoolManager
pub mod Mdns
pub mod NotifyLimit
