-- ===== src/Versioning/Replication.antt =====
-- pkg/mysqlversioning/replication.go: the statements that control replication on a line of servers.
use mysql_operator.Base.{Text, [], codes, text_eq, not, if◌then◌else◌}
use mysql_operator.Versioning.Profiles.{Profile, percona57, percona80, percona84, fallback}

pub record ReplicationDialect : Type 0 where
  pub stop_replication : Text
  pub change_source_sql : Text
  pub start_replication : Text
  pub fallback_start_sql : Text
  pub reset_binary_logs_for_gtid : Text
  pub reset_master : Text
  pub show_replica_status_cmd : Text
  pub show_replicas_cmd : Text
  pub log_label_pre_stop : Text

unfoldable pub master_slave_replication : ReplicationDialect
master_slave_replication = record {
  stop_replication = codes "STOP SLAVE;";
  change_source_sql =
      codes
        "\n\t  CHANGE MASTER TO MASTER_AUTO_POSITION=1,\n\t\tMASTER_HOST=?,\n\t\tMASTER_USER=?,\n\t\tMASTER_PASSWORD=?,\n\t\tMASTER_CONNECT_RETRY=?;\n\t";
  start_replication = codes "START SLAVE;";
  fallback_start_sql =
      codes
        "\n\t\t  reset slave;\n\t\t  start slave IO_THREAD;\n\t\t  stop slave IO_THREAD;\n\t\t  reset slave;\n\t\t  start slave;\n\t\t";
  reset_binary_logs_for_gtid = [];
  reset_master = codes "RESET MASTER;";
  show_replica_status_cmd = codes "SHOW SLAVE STATUS\\G";
  show_replicas_cmd = codes "SHOW SLAVE HOSTS\\G";
  log_label_pre_stop = codes "show_slave_status";
}

unfoldable pub source_replica_replication : ReplicationDialect
source_replica_replication = record {
  stop_replication = codes "STOP REPLICA;";
  change_source_sql =
      codes
        "\n\t  CHANGE REPLICATION SOURCE TO SOURCE_AUTO_POSITION=1,\n\t\tSOURCE_HOST=?,\n\t\tSOURCE_USER=?,\n\t\tSOURCE_PASSWORD=?,\n\t\tSOURCE_CONNECT_RETRY=?,\n\t\tGET_SOURCE_PUBLIC_KEY=1;\n\t";
  start_replication = codes "START REPLICA;";
  fallback_start_sql =
      codes
        "\n\t\t  RESET REPLICA;\n\t\t  START REPLICA IO_THREAD;\n\t\t  STOP REPLICA IO_THREAD;\n\t\t  RESET REPLICA;\n\t\t  START REPLICA;\n\t\t";
  reset_binary_logs_for_gtid = codes "RESET BINARY LOGS AND GTIDS;";
  reset_master = [];
  show_replica_status_cmd = codes "SHOW REPLICA STATUS\\G";
  show_replicas_cmd = codes "SHOW REPLICAS\\G";
  log_label_pre_stop = codes "show_replica_status";
}

unfoldable pub reset_binary_logs_statement : ReplicationDialect → Text
unfolding text_eq
reset_binary_logs_statement d =
    if not (text_eq d.reset_binary_logs_for_gtid [])
    then d.reset_binary_logs_for_gtid
    else d.reset_master

-- `Replication` of each profile.
unfoldable pub replication : Profile → ReplicationDialect
unfolding master_slave_replication source_replica_replication
replication percona57 = master_slave_replication
replication percona80 = master_slave_replication
replication percona84 = source_replica_replication
replication fallback = master_slave_replication
