-- ===== src/Fs/Host.antt =====
-- What the controllers ask of the operating system, and the file access that every controller has
-- (`ControllerInternal` and `CustomizedAttribute` of fs/mod.rs). The kernel is a parameter: its
-- state and the outcome of each call are its own.
use cgroups_rs.Base.{List, ℕ, Bool, false, ◌||◌, [], ◌∷◌, ◌++◌, ◌==◌, if◌then◌else◌, is_empty}
use cgroups_rs.Text.{Text, codes, trim}
use cgroups_rs.Io.{Io, ◌>>=◌, ◌>>◌, pure, map_err}
use cgroups_rs.Fs.Error.{Error, os_error, with_cause, read_failed, write_failed}

-- An error of the operating system is its number.
pub record Host : Type 1 where
  pub State : Type 0
  -- `File::create`, `write_all` on the file that it opened, `File::open`, `read_to_string`
  pub create : Text → Io State ℕ (Unit {0})
  pub write_all : Text → Text → Io State ℕ (Unit {0})
  pub open_file : Text → Io State ℕ (Unit {0})
  pub read_to_string : Text → Io State ℕ Text
  -- The lines that a buffered reader gives before an error or the end.
  pub read_lines : Text → State → List Text × State

abbrev pub starts_with_slash : Text → Bool
starts_with_slash [] = false
starts_with_slash (c ∷ s) = c == b'/'

abbrev pub ends_with_slash : Text → Bool
ends_with_slash [] = false
ends_with_slash (c ∷ s) = if is_empty s then c == b'/' else ends_with_slash s

-- `PathBuf::push`: an absolute path replaces, any other goes behind a separator.
unfoldable pub push : Text → Text → Text
push path p =
    if starts_with_slash p
    then p
    else if is_empty path || ends_with_slash path
    then path ++ p
    else path ++ b'/' ∷ p

-- The fields that every controller has.
pub record Place : Type 0 where
  pub base : Text
  pub path : Text
  pub v2 : Bool

module _ (h : Host) where
  open h use {State, create, write_all, open_file, read_to_string}

  -- `fs::write` and `fs::read_to_string`: the file is opened, then written or read as a whole.
  unfoldable pub fs_write : Text → Text → Io State ℕ (Unit {0})
  fs_write path body = create path >> write_all path body

  unfoldable pub fs_read : Text → Io State ℕ Text
  fs_read path = open_file path >> read_to_string path

  -- `open_path(p, true)`
  unfoldable pub open_for_write : Place → Text → Io State Error (Unit {0})
  open_for_write c p =
      let path = push c.path p in
      map_err (λ e. with_cause (write_failed path (codes "[CREATE FILE]")) (os_error e))
        (create path)

  -- `open_path(p, false)`
  unfoldable pub open_for_read : Place → Text → Io State Error (Unit {0})
  open_for_read c p =
      let path = push c.path p in
      map_err (λ e. with_cause (read_failed path) (os_error e)) (open_file path)

  -- `self.open_path(file, true).and_then(|mut file| file.write_all(value).map_err(..))`, the body
  -- of every setter.
  unfoldable pub write_value : Place → Text → Text → Io State Error (Unit {0})
  unfolding open_for_write
  write_value c file value =
      open_for_write c file
      >> map_err (λ e. with_cause (write_failed file value) (os_error e))
          (write_all (push c.path file) value)

  -- The content of a file, under the name that a failed read reports.
  unfoldable pub read_text : Place → Text → Text → Io State Error Text
  unfolding open_for_read
  read_text c file reported =
      open_for_read c file
      >> map_err (λ e. with_cause (read_failed reported) (os_error e))
          (read_to_string (push c.path file))

  -- `CustomizedAttribute::set` and `get`
  unfoldable pub set : Place → Text → Text → Io State Error (Unit {0})
  unfolding write_value
  set c key value = write_value c key value

  unfoldable pub get : Place → Text → Io State Error Text
  unfolding read_text trim
  get c key = do s ← read_text c key key; pure (trim s)
