-- ===== src/Fs/Directories.antt =====
-- The directories of a control group: what the program asks of the operating system about them, and
-- fs/mod.rs: `remove_dir`, and `exists`, `create` and `delete` of the trait `Controller`.
pub mod Removal
pub mod Tries
mod Tests
use cgroups_rs.Base.{ℕ, zero, suc, Bool, not, ◌&&◌, List, [], ◌∷◌, Result, ok, err, if◌then◌else◌}
use cgroups_rs.Text.{Text}
use cgroups_rs.Io.{Io, panic, ◌>>=◌, ◌>>◌, pure, raise, map_err, or_else}
use cgroups_rs.Fs.Error.{Error, os_error, with_cause, read_failed, remove_failed, fs_error}
use cgroups_rs.Fs.Host.{Host, Place, push}

pub record Directories (h : Host) : Type 0 where
  -- `Path::exists`, `Path::is_dir`
  pub exists : Text → h.State → Bool
  pub is_dir : Text → h.State → Bool
  -- `fs::create_dir_all`, `fs::remove_dir`
  pub create_dir_all : Text → Io h.State ℕ (Unit {0})
  pub remove_dir : Text → Io h.State ℕ (Unit {0})
  -- `fs::read_dir`: the name of each entry, or the error in its place.
  pub read_dir : Text → Io h.State ℕ (List (Result ℕ Text))
  -- `statfs(p)`, for the type of the file system.
  pub statfs : Text → Io h.State ℕ ℕ

module _ {S : Type 0} where
  -- The tries behind the first, each after a pause.
  unfoldable pub tries : ℕ → Io S Error (Unit {0}) → Io S Error (Unit {0})
  tries zero m = m
  tries (suc n) m = or_else m (λ e. tries n m)

module _ (h : Host) (d : Directories h) where
  open h use {State}

  -- The loop over the entries: each that is a directory is removed.
  remove_entries :
      (Text → Io State Error (Unit {0})) → Text → List (Result ℕ Text) → Io State Error (Unit {0})
  remove_entries remove dir [] = pure tt
  remove_entries remove dir (err e ∷ es) = raise (with_cause (read_failed dir) (os_error e))
  remove_entries remove dir (ok name ∷ es) =
      (λ s. (if d.is_dir (push dir name) s then remove (push dir name) else pure tt) s)
      >> remove_entries remove dir es

  remove_tree : (Text → Io State Error (Unit {0})) → Text → Io State Error (Unit {0})
  unfolding remove_entries
  remove_tree remove dir =
      map_err (λ e. with_cause (read_failed dir) (os_error e)) (d.read_dir dir) >>= λ entries.
      remove_entries remove dir entries
      >> map_err (λ e. with_cause remove_failed (os_error e)) (d.remove_dir dir)

  -- The fast path first. The number is how deep the recursion may go, the end of the stack is a
  -- panic.
  unfoldable pub remove_dir : ℕ → Text → Io State Error (Unit {0})
  unfolding remove_tree
  remove_dir zero dir s = (err panic, s)
  remove_dir (suc depth) dir s =
      or_else (d.remove_dir dir)
        (λ e u.
          (if d.exists dir u && d.is_dir dir u then remove_tree (remove_dir depth) dir else pure tt)
            u)
        s

  unfoldable pub exists : Place → State → Bool
  exists c s = d.exists c.path s

  unfoldable pub delete : ℕ → Place → Io State Error (Unit {0})
  unfolding remove_dir tries exists
  delete depth c s = (if not (exists c s) then pure tt else tries 4 (remove_dir depth c.path)) s

  -- With the hook that runs behind the creation.
  unfoldable pub create : (Place → Io State Error (Unit {0})) → Place → Io State Error (Unit {0})
  create post_create c =
      map_err (λ e. with_cause fs_error (os_error e)) (d.create_dir_all c.path) >> post_create c
