-- ===== src/Fs/OneFile.antt =====
-- A host with one file, to run operations on.
use cgroups_rs.Base.{refl, [], ◌∷◌, ◌++◌, ok}
use cgroups_rs.Text.{Text}
use cgroups_rs.Text.Lines.{lines}
use cgroups_rs.Fs.Host.{Host}
use cgroups_rs.Fs.Stored.{Stored}

-- One file, whatever its path.
abbrev pub one_file : Host
one_file = record {
  State = Text;
  create = λ p s. (ok tt, s);
  write_all = λ p t s. (ok tt, t ++ b'\n' ∷ []);
  open_file = λ p s. (ok tt, s);
  read_to_string = λ p s. (ok s, s);
  read_lines = λ p s. (lines s, s);
}

abbrev pub one_file_stored : (file : Text) → Stored one_file file
one_file_stored file = record {
  content = λ s. s;
  Accepted = λ t. Unit;
  written = λ t s. t ++ b'\n' ∷ [];
  opens = λ s. refl;
  reads = λ s. refl;
  creates = λ s. refl;
  writes = λ t s a. refl;
  kept = λ t s a. refl;
}
