-- ===== src/Fs/Stored.antt =====
-- A file of the control group file system that keeps what is written to it: the hypotheses under
-- which the programs that read a file and write it back are judged.
use cgroups_rs.Base.{◌≡◌, refl, [], ◌∷◌, ◌++◌, ok}
use cgroups_rs.Text.{Text}
use cgroups_rs.Fs.Host.{Host, Place, push, read_text, write_value, open_for_read, open_for_write}

-- The file at a path opens, opening it for a write does not change it (the kernel does not
-- truncate its files), it reads as its content, and it takes an accepted text, which reads back
-- with a line feed.
pub record Stored (h : Host) (file : Text) : Type 1 where
  pub content : h.State → Text
  pub Accepted : Text → Type 0
  pub written : Text → h.State → h.State
  pub opens : (s : h.State) → h.open_file file s ≡ (ok tt, s)
  pub reads : (s : h.State) → h.read_to_string file s ≡ (ok (content s), s)
  pub creates : (s : h.State) → h.create file s ≡ (ok tt, s)
  pub writes : (t : Text) (s : h.State) → Accepted t → h.write_all file t s ≡ (ok tt, written t s)
  pub kept : (t : Text) (s : h.State) → Accepted t → content (written t s) ≡ t ++ b'\n' ∷ []

module _ (h : Host) (c : Place) (file : Text) (k : Stored h (push c.path file)) where
  pub read_text-content :
      (reported : Text) (s : h.State) → read_text h c file reported s ≡ (ok (k.content s), s)
  unfolding read_text open_for_read
  read_text-content reported s = rw (k.opens s, k.reads s) refl

  pub write_value-written :
      (t : Text) (s : h.State) → k.Accepted t → write_value h c file t s ≡ (ok tt, k.written t s)
  unfolding write_value open_for_write
  write_value-written t s a = rw (k.creates s, k.writes t s a) refl
