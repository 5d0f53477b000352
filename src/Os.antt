-- ===== src/Os.antt =====
-- The operating system and path/filepath as the program calls them: a record of functions, which the
-- definitions take as an instance argument.
use gmail_visibility_manager.Text.{Text}
use gmail_visibility_manager.Result.{Result}

pub record Os : Type 0 where
  -- os.UserHomeDir, os.TempDir and os.Getenv
  pub user_home_dir : Result Text
  pub temp_dir : Text
  pub getenv : Text → Text
  -- filepath.Join of two elements, filepath.Dir and filepath.Clean
  pub join_path : Text → Text → Text
  pub dir_path : Text → Text
  pub clean_path : Text → Text
