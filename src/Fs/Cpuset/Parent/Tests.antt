-- ===== src/Fs/Cpuset/Parent/Tests.antt =====
-- A new group two levels below one that has processors.
use cgroups_rs.Base.{
  false, is_empty, ◌≡◌, ◌≢◌, refl, sym, ◌∙◌, [], ◌∷◌, ◌++◌, none, some, ok, All, Bool-cases, inl,
  inr,
}
use cgroups_rs.Text.{Text, codes, text_eq, text_eq_iff, text_eq_refl, trim}
use cgroups_rs.Text.Trim.{is_empty-trim, all_white-trim, all_white-append}
use cgroups_rs.Dict.{Dict, get, insert, get-insert}
use cgroups_rs.Fs.Host.{push}
use cgroups_rs.Fs.OneTree.{one_tree, one_tree_reads, one_tree_writes}
use cgroups_rs.Fs.Path.{parent}
use cgroups_rs.Fs.Cpuset.Parent.{find_no_empty_parent, copy_from_parent}
use cgroups_rs.Fs.Cpuset.Parent.Walk.{at_top, below, find_no_empty_parent_terminates}
use cgroups_rs.Fs.Cpuset.Parent.Fill.{Values, copy_from_parent_fills}

abbrev cpus : Text
cpus = codes "cpuset.cpus"

abbrev tree : Dict Text
tree =
    (codes "/c/cpuset.cpus", codes "0-3\n")
    ∷ (codes "/c/a/cpuset.cpus", codes "\n")
    ∷ (codes "/c/a/b/cpuset.cpus", codes "\n")
    ∷ []

values : Values one_tree cpus
values = record {
  content = λ s d. get (push d cpus) s;
  written = λ d v s. insert (push d cpus) (v ++ b'\n' ∷ []) s;
  reported = λ v. v ++ b'\n' ∷ [];
  reads = λ s d v e. one_tree_reads (push d cpus) v s e;
  writes = λ s d p u w v g cu nu cw. one_tree_writes (push d cpus) w v s cw;
  at = λ s d v.
      get-insert (push d cpus) (push d cpus) (v ++ b'\n' ∷ []) s
      ∙ rw (text_eq_refl (push d cpus)) refl;
  elsewhere = λ s d e v n.
      get-insert (push d cpus) (push e cpus) (v ++ b'\n' ∷ []) s
      ∙ elim (Bool-cases (text_eq (push d cpus) (push e cpus))) [
        | inl q ↦ absurd (n (sym ((text_eq_iff (push d cpus) (push e cpus)).0 q)))
        | inr q ↦ rw q refl
      ];
  Allows = λ u v. is_empty (trim u) ≡ false;
  Allows_itself = λ u h. h;
  Allows_reported = λ u h.
      is_empty-trim (trim u ++ b'\n' ∷ [])
      ∙ all_white-append (trim u) (b'\n' ∷ []) (all_white-trim u ∙ sym (is_empty-trim u) ∙ h);
}

find_no_empty_parent_terminates_example :
    find_no_empty_parent one_tree (codes "/c/a/b") cpus tree ≢ (ok none, tree)
find_no_empty_parent_terminates_example =
    find_no_empty_parent_terminates one_tree cpus (codes "/c/a/b") tree tree

copy_from_parent_fills_example :
    (t : Dict Text) × (copy_from_parent one_tree (codes "/c/a/b") cpus tree ≡ (ok tt, t))
    × All (λ d. get (push d cpus) t ≡ some (codes "0-3\n")) (codes "/c/a/b" ∷ codes "/c/a" ∷ [])
unfolding get push trim parent values
copy_from_parent_fills_example =
    copy_from_parent_fills one_tree cpus values refl (codes "/c/a/b") (codes "/c") (codes "0-3\n")
      (codes "/c/a/b" ∷ codes "/c/a" ∷ []) tree
      (below (codes "/c/a/b") refl refl (below (codes "/c/a") refl refl (at_top (codes "/c"))))
      ((codes "\n", refl, refl), ((codes "\n", refl, refl), tt)) refl refl
