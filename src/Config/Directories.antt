-- ===== src/Config/Directories.antt =====
-- namespace system_settings of include/ra_common/config.hpp. The environment and the calls of mkdir are the
-- system's: `getenv` gives the value of a variable, and `mkdir` maps a state of the file system and a
-- path to what the call returns and the next state.
pub mod Again
use ra_common_cpp.Base.{
  ℕ, not, ◌==◌, Bool, true, false, List, [], ◌∷◌, ◌++◌, Option, none, some, Bytes, codes,
  if◌then◌else◌, Result, ok, err, thrown, ra_exception, file_creation_failed, ◌>>=◌,
}

module _ (getenv : Bytes → Option Bytes) where
  unfoldable pub user_home_dir : Option Bytes
  user_home_dir = getenv (codes "HOME")

  unfoldable pub under_home : Bytes → Option Bytes → Option Bytes
  under_home suffix none = none
  under_home suffix (some home) = some (home ++ b'/' ∷ suffix)

  -- A variable that is set to nothing counts as not set.
  unfoldable pub xdg_dir : Bytes → Bytes → Option Bytes
  unfolding user_home_dir under_home
  xdg_dir env_key default_suffix = elim (getenv env_key) [
    | none ↦ under_home default_suffix user_home_dir
    | some value ↦ elim value [
      | [] ↦ under_home default_suffix user_home_dir
      | c ∷ rest ↦ some (c ∷ rest)
    ]
  ]

  unfoldable pub user_data_dir : Option Bytes
  unfolding xdg_dir
  user_data_dir = xdg_dir (codes "XDG_DATA_HOME") (codes ".local/share")

  unfoldable pub user_config_dir : Option Bytes
  unfolding xdg_dir
  user_config_dir = xdg_dir (codes "XDG_CONFIG_HOME") (codes ".config")

  unfoldable pub user_cache_dir : Option Bytes
  unfolding xdg_dir
  user_cache_dir = xdg_dir (codes "XDG_CACHE_HOME") (codes ".cache")

-- What mkdir returns: 0, or -1 with an errno.
pub data Mkdir : Type 0 where
  zero_returned : Mkdir
  failed_with : ℕ → Mkdir

-- EEXIST of Linux and of macOS.
abbrev pub eexist : ℕ
eexist = 17

-- mkdir(...) != 0 && errno != EEXIST
unfoldable pub is_failure : Mkdir → Bool
is_failure zero_returned = false
is_failure (failed_with errno) = not (errno == eexist)

module _ {Files : Type 0} (mkdir : Files → Bytes → Mkdir × Files) where
  -- One directory for each segment; an exception keeps the directories that were made.
  unfoldable pub make_segments : Bytes → Bytes → List Bytes → Files → Result (Unit {0}) × Files
  unfolding is_failure
  make_segments dir accum [] files = (ok tt, files)
  make_segments dir accum (seg ∷ segs) files =
      let path = accum ++ b'/' ∷ seg in
      let (returned, after) = mkdir files path in
      let rest = make_segments dir path segs after in
      if is_failure returned
      then (
        err (
            thrown
              (ra_exception file_creation_failed (dir ++ (codes ": could not create " ++ path)))),
        after,
      )
      else rest

  unfoldable pub app_dir : Bytes → Bytes → Bytes → Bool → Files → Result Bytes × Files
  unfolding make_segments
  app_dir base group app create files =
      let dir = base ++ b'/' ∷ (group ++ b'/' ∷ app) in
      let (made, after) = make_segments dir base (group ∷ app ∷ []) files in
      if create then (made >>= λ done. ok dir, after) else (ok dir, files)

  -- `if (!base) throw`, of the three functions that follow.
  unfoldable pub app_dir_of :
      Bytes → Option Bytes → Bytes → Bytes → Bool → Files → Result Bytes × Files
  unfolding app_dir
  app_dir_of message none group app create files =
      (err (thrown (ra_exception file_creation_failed message)), files)
  app_dir_of message (some base) group app create files = app_dir base group app create files

  module _ (getenv : Bytes → Option Bytes) where
    unfoldable pub user_app_data_dir : Bytes → Bytes → Bool → Files → Result Bytes × Files
    unfolding app_dir_of user_data_dir
    user_app_data_dir = app_dir_of (codes "no user data dir") (user_data_dir getenv)

    unfoldable pub user_app_config_dir : Bytes → Bytes → Bool → Files → Result Bytes × Files
    unfolding app_dir_of user_config_dir
    user_app_config_dir = app_dir_of (codes "no user config dir") (user_config_dir getenv)

    unfoldable pub user_app_cache_dir : Bytes → Bytes → Bool → Files → Result Bytes × Files
    unfolding app_dir_of user_cache_dir
    user_app_cache_dir = app_dir_of (codes "no user cache dir") (user_cache_dir getenv)
