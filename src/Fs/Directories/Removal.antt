-- ===== src/Fs/Directories/Removal.antt =====
-- `remove_dir` removes a tree of directories.
use cgroups_rs.Base.{ℕ, ◌≤◌, ◌<◌, ◌≡◌, true, false, List, ok, err, map, All, ◌⊎◌}
use cgroups_rs.Text.{Text}
use cgroups_rs.Io.{error}
use cgroups_rs.Fs.Host.{Host, push}
use cgroups_rs.Fs.Directories.{Directories, remove_entries, remove_dir}

-- A tree of directories that nothing but the program changes. An idle directory, one with no
-- processes, that has no directories in it can be removed; to remove another one may fail, and then
-- changes nothing.
pub record Lawful (h : Host) (d : Directories h) : Type 1 where
  pub Idle : h.State → Text → Type 0
  pub entries : h.State → Text → List Text
  pub height : Text → ℕ
  pub removed : Text → h.State → h.State
  pub is_dir-exists : (s : h.State) (p : Text) → d.is_dir p s ≡ true → d.exists p s ≡ true
  pub reads :
      (s : h.State) (p : Text)
      → d.is_dir p s ≡ true
      → d.read_dir p s ≡ (ok (map (λ n. ok n) (entries s p)), s)
  pub inside :
      (s : h.State) (p : Text)
      → All
          (λ n. (u : h.State) → d.is_dir (push p n) u ≡ true → height (push p n) < height p)
          (entries s p)
  pub removes :
      (s : h.State) (p : Text)
      → (d.remove_dir p s ≡ (ok tt, removed p s))
        ⊎ ((e : ℕ) × (d.remove_dir p s ≡ (err (error e), s)))
  pub leaf :
      (s u : h.State) (p : Text)
      → Idle u p
      → ((q : Text) → d.is_dir q u ≡ true → d.is_dir q s ≡ true)
      → d.is_dir p u ≡ true
      → All (λ n. d.is_dir (push p n) u ≡ false) (entries s p)
      → d.remove_dir p u ≡ (ok tt, removed p u)
  pub Idle-removed : (s : h.State) (p q : Text) → Idle s q → Idle (removed p s) q
  pub gone : (s : h.State) (p : Text) → d.is_dir p (removed p s) ≡ false
  pub no_other : (s : h.State) (p q : Text) → d.is_dir q (removed p s) ≡ true → d.is_dir q s ≡ true
  pub above :
      (s : h.State) (p q : Text)
      → height p < height q
      → d.is_dir q s ≡ true
      → d.is_dir q (removed p s) ≡ true

-- A directory and all below it.
pub data Under (p : Text) : Text → Type 0 where
  itself : Under p p
  below : (n : Text) {q : Text} → Under p q → Under p (push q n)

module _ (h : Host) (d : Directories h) (k : Lawful h d) where
  open h use {State}

  -- No process is in the directory or in one below it.
  abbrev pub AllIdle : Text → State → Type 0
  AllIdle p s = (q : Text) → Under p q → k.Idle s q

  abbrev KeepsIdle : State → State → Type 0
  KeepsIdle s t = (q : Text) → k.Idle s q → k.Idle t q

  -- No directory is new.
  abbrev pub Within : State → State → Type 0
  Within t s = (q : Text) → d.is_dir q t ≡ true → d.is_dir q s ≡ true

  -- The higher directories are all still there.
  abbrev pub KeepsAbove : Text → State → State → Type 0
  KeepsAbove p s t =
      (q : Text) → k.height p < k.height q → d.is_dir q s ≡ true → d.is_dir q t ≡ true

  record Removed (n : ℕ) (p : Text) (s : State) : Type 0 where
    after : State
    runs : remove_dir h d n p s ≡ (ok tt, after)
    gone : d.is_dir p after ≡ false
    within : Within after s
    keeps : KeepsAbove p s after
    idle : KeepsIdle s after

  record Emptied (n : ℕ) (p : Text) (ns : List Text) (s : State) : Type 0 where
    after : State
    runs : remove_entries h d (remove_dir h d n) p (map (λ m. ok m) ns) s ≡ (ok tt, after)
    empty : All (λ m. d.is_dir (push p m) after ≡ false) ns
    within : Within after s
    keeps : (q : Text) → k.height p ≤ k.height q → d.is_dir q s ≡ true → d.is_dir q after ≡ true
    idle : KeepsIdle s after
