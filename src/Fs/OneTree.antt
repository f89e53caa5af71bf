-- ===== src/Fs/OneTree.antt =====
-- A host that keeps the content of every file by its path, to run operations on.
use cgroups_rs.Base.{ℕ, ◌≡◌, refl, List, [], ◌∷◌, ◌++◌, Option, none, some, Result, ok, err}
use cgroups_rs.Text.{Text}
use cgroups_rs.Text.Lines.{lines}
use cgroups_rs.Dict.{Dict, get, insert}
use cgroups_rs.Io.{Fault, error, proceed}
use cgroups_rs.Fs.Host.{Host, fs_read, fs_write}

-- `ENOENT`
abbrev pub not_found : ℕ
not_found = 2

abbrev opened : Option Text → Result (Fault ℕ) (Unit {0})
opened none = err (error not_found)
opened (some t) = ok tt

abbrev content_of : Option Text → Result (Fault ℕ) Text
content_of none = err (error not_found)
content_of (some t) = ok t

abbrev lines_of : Option Text → List Text
lines_of none = []
lines_of (some t) = lines t

-- A file is there from the start, or not at all. What is written to it reads back with a line feed.
abbrev pub one_tree : Host
one_tree = record {
  State = Dict Text;
  create = λ p s. (opened (get p s), s);
  write_all = λ p t s. (ok tt, insert p (t ++ b'\n' ∷ []) s);
  open_file = λ p s. (opened (get p s), s);
  read_to_string = λ p s. (content_of (get p s), s);
  read_lines = λ p s. (lines_of (get p s), s);
}

pub one_tree_reads :
    (p v : Text) (s : Dict Text) → get p s ≡ some v → fs_read one_tree p s ≡ (ok v, s)
unfolding fs_read
one_tree_reads p v s e = go (get p s) e
  where
    go :
        (o : Option Text)
        → o ≡ some v
        → proceed (λ _. one_tree.read_to_string p) (opened o) s ≡ (ok v, s)
    go none k = cc
    go (some w) k = rw e refl

pub one_tree_writes :
    (p w t : Text) (s : Dict Text)
    → get p s ≡ some w
    → fs_write one_tree p t s ≡ (ok tt, insert p (t ++ b'\n' ∷ []) s)
unfolding fs_write
one_tree_writes p w t s e = rw e refl
