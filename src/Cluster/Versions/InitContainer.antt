-- ===== src/Cluster/Versions/InitContainer.antt =====
-- When a server gets an init container that prepares its data (`ShouldHaveInitContainerForMysql`).
use mysql_operator.Base.{◌≡◌, ◌∙◌, ap, Bool, ◌&&◌, ◌||◌, not, arith, ◌==◌}
use mysql_operator.Semver.{Version, version, Blang, BlangLaws, precedes}
use mysql_operator.Versioning.Profiles.{
  Profile, percona57, percona80, percona84, fallback, profile_for, profile_for_lem, line_of,
  wants_percona_init_container,
}
use mysql_operator.Versioning.Images.{Options}
use mysql_operator.Cluster.{MysqlCluster}
use mysql_operator.Cluster.Versions.{
  desired_version, is_percona_image, should_have_init_container_for_mysql,
}

-- 5.7.26 and later of the major version 5, and 8.0.15 and later.
abbrev pub initialises : Version → Bool
initialises v =
    v.major == 5 && not (precedes v (version 5 7 26)) || not (precedes v (version 8 0 15))

by_profile :
    ⦃blang : Blang⦄
    → BlangLaws blang
    → (p : Profile) (v : Version) → p ≡ line_of v
    → wants_percona_init_container p v ≡ initialises v
unfolding wants_percona_init_container
by_profile laws percona57 v h = laws.range_lem v ∙ ground arith
by_profile laws percona80 v h = laws.range_lem v ∙ ground arith
by_profile laws percona84 v h = laws.range_lem v ∙ ground arith
by_profile laws fallback v h = ground arith

-- The init container is added exactly for a Percona image of a wanted version 5.7.26 or later of the
-- major version 5, or 8.0.15 or later.
should_have_init_container_for_mysql_lem :
    ⦃blang : Blang⦄
    → BlangLaws blang
    → (opt : Options) (c : MysqlCluster)
    → should_have_init_container_for_mysql opt c
      ≡ (is_percona_image opt c && initialises (desired_version c))
unfolding should_have_init_container_for_mysql
should_have_init_container_for_mysql_lem laws opt c =
    ap (λ b. is_percona_image opt c && b)
      (by_profile laws (profile_for (desired_version c)) (desired_version c)
        (profile_for_lem (desired_version c)))
