-- ===== src/Tests.antt =====
-- Concrete inputs: a `Blang` with the three numbers of a version, for which the laws hold, a cluster
-- of two pods, and orchestrator's view of it.
mod Versions
mod Orchestration
mod Storage
mod Statements
mod Accounts
mod Passes
mod Nodes
mod Sizes
mod Backups
use mysql_operator.Base.{
  ℕ, ◌≡◌, refl, Bool, true, false, ◌&&◌, ◌||◌, not, Option, none, some, List, [], ◌∷◌, ◌++◌, arith,
  Text, codes, text_eq, cut, cut-append, ℤ, pos, negsuc,
}
use mysql_operator.Base.Decimal.{decimal, atoi, atoi-decimal, decimal-Absent}
use mysql_operator.Semver.{
  Version, version, Blang, BlangLaws, IsInt64, same_version, precedes, percona_init_expr,
}
use mysql_operator.Cluster.{MysqlCluster, pod_hostname}
use mysql_operator.Versioning.Images.{Options}
use mysql_operator.Orchestrator.{Instance}

natural : Option ℤ → Option ℕ
natural none = none
natural (some (pos n)) = some n
natural (some (negsuc n)) = none

three : Option ℕ → Option ℕ → Option ℕ → Option Version
three (some a) (some b) (some c) = some (version a b c)
three none _ _ = none
three (some a) none _ = none
three (some a) (some b) none = none

-- Three decimal numbers with a dot between them.
parse_numbers : Text → Option Version
unfolding natural three
parse_numbers s = elim (cut b'.' s) [
  | none ↦ none
  | some (a, rest) ↦ elim (cut b'.' rest) [
    | none ↦ none
    | some (b, c) ↦ three (natural (atoi a)) (natural (atoi b)) (natural (atoi c))
  ]
]

print_numbers : Version → Text
print_numbers v = decimal v.major ++ b'.' ∷ (decimal v.minor ++ b'.' ∷ decimal v.patch)

abbrev init_range : Version → Bool
init_range v =
    not (precedes v (version 5 7 26)) && precedes v (version 8 0 0)
    || not (precedes v (version 8 0 15))

instance unfoldable pub numbers : Blang
unfolding parse_numbers print_numbers text_eq
numbers = record {
  eq = same_version;
  lt = precedes;
  gt = λ v w. precedes w v;
  to_string = print_numbers;
  parse_strict = parse_numbers;
  parse_tolerant = parse_numbers;
  in_range = λ expr v. text_eq expr percona_init_expr && init_range v;
}

parse_print : (v : Version) → IsInt64 v → parse_numbers (print_numbers v) ≡ some v
unfolding parse_numbers print_numbers natural three
parse_print v h =
    let first =
      cut-append b'.' (decimal v.major) (decimal v.minor ++ b'.' ∷ decimal v.patch)
        (decimal-Absent b'.' v.major (omega arith)) in
    let second =
      cut-append b'.' (decimal v.minor) (decimal v.patch)
        (decimal-Absent b'.' v.minor (omega arith)) in
    let a = atoi-decimal v.major h.0 in
    let b = atoi-decimal v.minor h.1 in let c = atoi-decimal v.patch h.2 in ground arith

pub numbers_laws : BlangLaws numbers
unfolding numbers cut text_eq parse_numbers
numbers_laws = record {
  eq_lem = λ v w. refl;
  lt_lem = λ v w. refl;
  gt_lem = λ v w. refl;
  parse_string = λ v h. parse_print v h;
  parse_empty = refl;
  range_lem = λ v. refl;
}

-- A cluster of two pods that wants and has applied the given versions.
abbrev pub cluster : Text → Text → MysqlCluster
cluster wanted applied = record {
  name = codes "db";
  namespace = codes "prod";
  annotations = [];
  deletion_timestamp = none;
  spec = record {
    replicas = some 2;
    secret_name = codes "secret";
    backup_url = codes "s3://bucket/";
    backup_secret_name = codes "bucket";
    mysql_version = wanted;
    image = codes "percona:8";
    sidecar_image = [];
    read_only = false;
    max_slave_latency = none;
    volume_spec = record {
      persistent_volume_claim = true;
      host_path = false;
      empty_dir = false;
      storage_request = some 1000;
    };
  };
  status = record { applied_mysql_version = applied; ready_nodes = 2; conditions = []; nodes = [] };
}

abbrev pub options : Options
options = record {
  mysql_version_image_override = [];
  mysql_version_catalog = [];
  sidecar_mysql57_image = codes "sidecar57";
  sidecar_mysql8_image = codes "sidecar80";
  sidecar_mysql84_image = codes "sidecar84";
}

abbrev pub current : MysqlCluster
current = cluster (codes "8.0.20") (codes "8.0.20")

-- The instance of pod `i`, a replica of pod 0 unless it is that.
abbrev pub instance_of_pod : ℕ → Text → Bool → Instance
instance_of_pod i master_host is_read_only = record {
  key = record { hostname = pod_hostname current i; port = 3306 };
  master_key = record { hostname = master_host; port = 3306 };
  uptime = 1000;
  read_only = is_read_only;
  is_co_master = false;
  is_detached_master = false;
  slave_sql_running = true;
  slave_io_running = true;
  slave_lag_seconds = some (pos 1);
  is_last_check_valid = true;
  is_up_to_date = true;
  is_recently_checked = true;
  seconds_since_last_seen = some (pos 1);
}

abbrev pub first_instance : Instance
first_instance = instance_of_pod 0 [] true

abbrev pub second_instance : Instance
second_instance = instance_of_pod 1 (pod_hostname current 0) false

abbrev pub topology : List Instance
topology = first_instance ∷ second_instance ∷ []
