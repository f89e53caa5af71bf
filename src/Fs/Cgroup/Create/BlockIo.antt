-- ===== src/Fs/Cgroup/Create/BlockIo.antt =====
-- The controllers that are specified for a new group of version 2 have the kernel's names, and the
-- subsystems of the handle are chosen by the names of version 1.
use cgroups_rs.Base.{
  ◌≡◌, refl, ◌∙◌, Bool, true, false, List, [], ◌∷◌, ok, err, All, arith, is_empty, some, Bool-cases,
  inl, inr,
}
use cgroups_rs.Text.{Text, codes, text_eq_iff, contains_text}
use cgroups_rs.Text.Split.{split}
use cgroups_rs.Io.{error, pure_after}
use cgroups_rs.Fs.Error.{new, specified_controllers}
use cgroups_rs.Fs.Host.{Host, fs_read}
use cgroups_rs.Fs.Subsystem.{Subsystem, blk_io, controller_name, enter}
use cgroups_rs.Fs.Hierarchies.{v2, controllers_file}
use cgroups_rs.Fs.Directories.{Directories}
use cgroups_rs.Fs.Cgroup.{Cgroup}
use cgroups_rs.Fs.Cgroup.Load.{enter_all, keep_specified}
use cgroups_rs.Fs.Cgroup.Create.{
  trim_all, contains_all, create_v2_cgroup, new_with_specified_controllers,
}

abbrev pub is_blk_io : Subsystem → Bool
is_blk_io (blk_io _) = true
is_blk_io _ = false

-- A name that is not supported is not among names that all are.
contains-contains_all :
    (k : Text) (sc cs : List Text)
    → contains_text k sc ≡ false
    → contains_all sc cs ≡ true
    → contains_text k cs ≡ false
unfolding contains_text
contains-contains_all k sc [] n h = refl
contains-contains_all k sc (c ∷ cs) n h =
    ground (arith, text_eq_iff c k, contains-contains_all k sc cs n)

named :
    (names : List Text) (x : Subsystem)
    → contains_text (codes "blkio") names ≡ false
    → contains_text (controller_name x) names ≡ true
    → is_blk_io x ≡ false
named names (blk_io c) n e = cc
named names _ n e = refl

keep_specified-blk_io :
    (names : List Text) (xs : List Subsystem)
    → contains_text (codes "blkio") names ≡ false
    → All (λ x. is_blk_io x ≡ false) (keep_specified names xs)
unfolding keep_specified
keep_specified-blk_io names [] n = tt
keep_specified-blk_io names (x ∷ xs) n =
    elim (Bool-cases (contains_text (controller_name x) names)) [
      | inl e ↦ rw e (named names x n e, keep_specified-blk_io names xs n)
      | inr e ↦ rw e (keep_specified-blk_io names xs n)
    ]

is_blk_io-enter : (path : Text) (x : Subsystem) → is_blk_io (enter path x) ≡ is_blk_io x
unfolding enter
is_blk_io-enter path (blk_io c) = refl
is_blk_io-enter path _ = refl

enter_all-blk_io :
    (path : Text) (xs : List Subsystem)
    → All (λ x. is_blk_io x ≡ false) xs
    → All (λ x. is_blk_io x ≡ false) (enter_all path xs)
unfolding enter_all
enter_all-blk_io path [] n = tt
enter_all-blk_io path (x ∷ xs) (e, n) = (is_blk_io-enter path x ∙ e, enter_all-blk_io path xs n)

module _ (h : Host) (d : Directories h) (sizes : List Text) where
  refused :
      (r path content : Text) (sc : List Text) (s : h.State)
      → fs_read h controllers_file s ≡ (ok content, s)
      → contains_all (trim_all (split b' ' content)) sc ≡ false
      → create_v2_cgroup h d r path (some sc) s ≡ (err (error (new specified_controllers)), s)
  unfolding create_v2_cgroup
  refused r path content sc s read e = rw (read, e) refl

  -- Where the kernel does not list a controller `blkio` (it lists `io`), no group of version 2 that
  -- is created with specified controllers below the root has a block I/O subsystem, whatever is
  -- specified.
  pub new_with_specified_controllers-blk_io :
      (r path content : Text) (sc : List Text) (g : Cgroup) (s t : h.State)
      → fs_read h controllers_file s ≡ (ok content, s)
      → contains_text (codes "blkio") (trim_all (split b' ' content)) ≡ false
      → is_empty path ≡ false
      → new_with_specified_controllers h d sizes (v2 r) path (some sc) s ≡ (ok g, t)
      → All (λ x. is_blk_io x ≡ false) g.subsystems
  unfolding new_with_specified_controllers
  new_with_specified_controllers-blk_io r path content sc g s t read n below =
      elim (Bool-cases (contains_all (trim_all (split b' ' content)) sc)) [
        | inl e ↦
            rw (read, below)
              (λ k. rw (← pure_after (create_v2_cgroup h d r path (some sc)) _ s k) (
                enter_all-blk_io path _ (
                  keep_specified-blk_io sc _ (
                    contains-contains_all (codes "blkio") (trim_all (split b' ' content)) sc n e))))
        | inr e ↦ rw (read, refused r path content sc s read e) (λ k. cc)
      ]
