-- ===== src/Versioning/Images.antt =====
-- resolver.go and runtime.go: the images of the server and of the sidecar. The process-wide runtime
-- and a fresh resolver hold the same options, so one function stands for both.
use mysql_operator.Base.{Option, none, some, List, [], ◌∷◌, Text, codes, lookup}
use mysql_operator.Semver.{Version, Blang, string}
use mysql_operator.Versioning.Profiles.{
  SidecarKey, sidecar57, sidecar80, sidecar84, sidecar_profile_key, profile_for,
}

pub record Options : Type 0 where
  pub mysql_version_image_override : List (Text × Text)
  pub mysql_version_catalog : List (Text × Text)
  pub sidecar_mysql57_image : Text
  pub sidecar_mysql8_image : Text
  pub sidecar_mysql84_image : Text

abbrev pub mysql_image_versions : List (Text × Text)
mysql_image_versions =
    (
      codes "5.7.35",
      codes "percona@sha256:caab4e854bd75040d07802bf1862bfef1d2b4db0acbc9c4aaf5c21c698fdd393",
    )
    ∷ (
      codes "5.7.31",
      codes "percona@sha256:68dad5e2efeb6893e2d7d116a1eae144f2c641c17d00e7869397395590c91651",
    )
    ∷ (
      codes "5.7.29",
      codes "percona@sha256:d801123bbfaf750924f993f5c59189d144a93feb928b8aef95e541dd61c62881",
    )
    ∷ (
      codes "5.7.26",
      codes "percona@sha256:713c1817615b333b17d0fbd252b0ccc53c48a665d4cfcb42178167435a957322",
    )
    ∷ (
      codes "5.7.24",
      codes "percona@sha256:b3b7fb177b416563c46fe012298e042ec1607cc0539ce6014146380b0d27b08c",
    )
    ∷ (
      codes "8.0.20",
      codes "percona@sha256:6d4524eccd26af7bd7fb623c567159dfbd7f3d9a0e2f7bebd54af1e9ca9903dc",
    )
    ∷ (
      codes "8.4.8",
      codes
          "docker.io/percona/percona-server@sha256:eaa4cf955f8a01a43faa6ef656bf8fb69a17c17c278a3b0514212291ca0448b1",
    )
    ∷ []

abbrev first_found : Option Text → Option Text → Option Text
first_found (some image) next = some image
first_found none next = next

-- `ServerImage` with the spec's own image; `none` is an error.
unfoldable pub server_image : ⦃blang : Blang⦄ → Options → Version → Text → Option Text
server_image ⦃blang⦄ opt ver [] =
    let key = string ver in
    first_found (lookup key opt.mysql_version_image_override)
      (first_found (lookup key opt.mysql_version_catalog) (lookup key mysql_image_versions))
server_image ⦃blang⦄ opt ver (c ∷ image) = some (c ∷ image)

unfoldable pub sidecar_image : Options → SidecarKey → Text
sidecar_image opt sidecar57 = opt.sidecar_mysql57_image
sidecar_image opt sidecar80 = opt.sidecar_mysql8_image
sidecar_image opt sidecar84 = opt.sidecar_mysql84_image

unfoldable pub sidecar_image_for : Options → Version → Text → Text
unfolding sidecar_image
sidecar_image_for opt ver [] = sidecar_image opt (sidecar_profile_key (profile_for ver))
sidecar_image_for opt ver (c ∷ override) = c ∷ override
