-- ===== src/Plugin/Version.antt =====
-- The version of the plugin (internal/plugin/version.go). The three texts are set by the build.
use upcloud_csi.Base.{String, ◌<>◌}

pub record Build : Type 0 where
  pub git_tree_state : String
  pub commit : String
  pub version : String

unfoldable pub get_version : Build → String
get_version b = b.version

-- The current commit hash value, as inserted at build time.
unfoldable pub get_commit : Build → String
get_commit b = b.commit

unfoldable pub get_tree_state : Build → String
get_tree_state b = b.git_tree_state

-- The line that is written to the standard output.
unfoldable pub print_version : Build → String
unfolding get_version get_commit get_tree_state
print_version b = get_version b <> " - " <> get_commit b <> " (" <> get_tree_state b <> ")\n"
