-- ===== src/Tests/Backups.antt =====
-- The theorems on backups and their jobs at concrete inputs.
use mysql_operator.Base.{◌≡◌, ◌⊎◌, ◌||◌, false, none, some, List, [], ◌∷◌, ◌++◌, All, codes}
use mysql_operator.Cluster.{
  MysqlCluster, NodeStatus, ConditionStatus, condition_true, condition_false, master, replicating,
  lagged,
}
use mysql_operator.Node.Initialize.{get_master_host}
use mysql_operator.Backups.{
  MysqlBackup, Job, backup_complete, backup_failed, get_backup_condition, job_condition,
  update_status, get_backup_candidate,
}
use mysql_operator.Backups.Candidate.{IsGoodNode, get_backup_candidate_cases}
use mysql_operator.Backups.Status.{taken_over, has_ended, update_status_lem}
use mysql_operator.Tests.{current}

abbrev node : ConditionStatus → NodeStatus
node is_master = record {
  name = codes "db-mysql-1";
  conditions =
      record { type = master; status = is_master; last_transition_time = 1 }
      ∷ record { type = replicating; status = condition_true; last_transition_time = 1 }
      ∷ record { type = lagged; status = condition_false; last_transition_time = 1 }
      ∷ [];
}

abbrev with_replica : MysqlCluster
with_replica = record current {
  status = record current.status { nodes = node condition_false ∷ [] };
}

get_backup_candidate_cases_example :
    ((ns : NodeStatus) × (before after : List NodeStatus) × (node condition_false ∷ []
        ≡ before ++ ns ∷ after)
      × IsGoodNode (node condition_false ∷ []) ns.name
      × All (λ (x : NodeStatus). ¬ (IsGoodNode (node condition_false ∷ []) x.name)) before
      × (get_backup_candidate with_replica ≡ ns.name))
    ⊎ (All
          (λ (x : NodeStatus). ¬ (IsGoodNode (node condition_false ∷ []) x.name))
          (node condition_false ∷ [])
        × (get_backup_candidate with_replica ≡ get_master_host with_replica))
get_backup_candidate_cases_example = get_backup_candidate_cases with_replica

abbrev backup : MysqlBackup
backup = record {
  name = codes "nightly";
  cluster_name = codes "db";
  backup_url = [];
  backup_secret_name = [];
  completed = false;
  conditions = [];
}

abbrev job : Job
job = record {
  creation_timestamp = some 3;
  conditions =
      record {
        type = codes "Complete";
        status = condition_true;
        reason = codes "Done";
        message = codes "ok";
      }
      ∷ [];
  cluster_label = none;
  args = [];
}

update_status_lem_example :
    (get_backup_condition backup_complete (update_status 9 job backup)
      ≡ taken_over 9 backup_complete
          (job_condition (codes "Complete") job)
          (get_backup_condition backup_complete backup))
    × (get_backup_condition backup_failed (update_status 9 job backup)
        ≡ taken_over 9 backup_failed
            (job_condition (codes "Failed") job)
            (get_backup_condition backup_failed backup))
    × ((update_status 9 job backup).completed ≡ (
        has_ended (job_condition (codes "Failed") job)
        || (has_ended (job_condition (codes "Complete") job) || false)))
update_status_lem_example = update_status_lem 9 job backup
