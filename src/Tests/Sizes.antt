-- ===== src/Tests/Sizes.antt =====
-- The theorems on the options of MySQL that are computed at concrete inputs.
use mysql_operator.Base.{ℕ, ◌≡◌, ◌≤◌, ◌+◌, ◌*◌, ◌/◌, arith, some, [], ◌∷◌, codes, lookup}
use mysql_operator.Cluster.Defaults.{Conf, Resources, gb, humanize_size, set_defaults}
use mysql_operator.Cluster.Defaults.Sizes.{read_size, humanize_size_bounds}
use mysql_operator.Cluster.Defaults.Wanted.{defaulted, or_else, wanted_options}
use mysql_operator.Cluster.Defaults.Settings.{set_defaults-lookup}
use mysql_operator.Tests.{numbers, options, current}

humanize_size_bounds_example :
    (v : ℕ) × (read_size (humanize_size 1075000000) ≡ some v)
    × (v ≤ 1075000000)
    × (1075000000 ≤ v + 1075000000 / 1000)
humanize_size_bounds_example = humanize_size_bounds 1075000000 (omega arith)

abbrev resources : Resources
resources = record { memory = 2 * gb; cpu_millis = 1500 }

-- The size of the pool is set before.
abbrev configured : Conf
configured = (codes "innodb-buffer-pool-size", codes "1G") ∷ []

set_defaults-lookup_example :
    ((set_defaults options resources current configured).0 ≡ defaulted current)
    × (lookup (codes "max-binlog-size") (set_defaults options resources current configured).1
        ≡ or_else (lookup (codes "max-binlog-size") configured) (
            lookup
              (codes "max-binlog-size")
              (wanted_options options resources (defaulted current))))
set_defaults-lookup_example =
    set_defaults-lookup options resources current configured (codes "max-binlog-size")
