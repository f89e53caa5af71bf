-- ===== src/Fs/Cpuset/Parent/Fill.antt =====
-- What `copy_from_parent` leaves behind, on a kernel that takes a value only below a directory that
-- has one.
use mathlib.Core.List.{reverse, reverse-cons}
use cgroups_rs.Base.{
  ℕ, zero, suc, ◌+◌, ◌≤◌, ◌<◌, ◌≡◌, ◌≢◌, refl, sym, ◌∙◌, ap, true, false, List, [], ◌∷◌, ◌++◌,
  Option, some, is_empty, length, length-append, ok, arith, append_assoc, append-nil, All, All-map,
}
use cgroups_rs.Text.{Text, trim}
use cgroups_rs.Io.{try_for_each, try_for_each-append}
use cgroups_rs.Fs.Host.{Host, push, starts_with_slash, ends_with_slash, fs_read, fs_write}
use cgroups_rs.Fs.Path.{parent}
use cgroups_rs.Fs.Path.Parent.{length-parent}
use cgroups_rs.Fs.Cpuset.Parent.{
  value_at, find_rounds, find_no_empty_parent, write_at, copy_from_parent,
}
use cgroups_rs.Fs.Cpuset.Parent.Walk.{Line, at_top, below}

-- The file in each directory that has one. The kernel takes a value for a directory where the value
-- of the directory above allows it; a value that is not blank allows itself, as it is written and as
-- it is reported.
pub record Values (h : Host) (file : Text) : Type 1 where
  pub content : h.State → Text → Option Text
  pub written : Text → Text → h.State → h.State
  pub reported : Text → Text
  pub Allows : Text → Text → Type 0
  pub reads :
      (s : h.State) (d v : Text) → content s d ≡ some v → fs_read h (push d file) s ≡ (ok v, s)
  pub writes :
      (s : h.State) (d p u w v : Text)
      → parent d ≡ some p
      → content s p ≡ some u
      → Allows u v
      → content s d ≡ some w
      → fs_write h (push d file) v s ≡ (ok tt, written d v s)
  pub at : (s : h.State) (d v : Text) → content (written d v s) d ≡ some (reported v)
  pub elsewhere :
      (s : h.State) (d e v : Text)
      → push e file ≢ push d file
      → content (written d v s) e ≡ content s e
  pub Allows_itself : (u : Text) → is_empty (trim u) ≡ false → Allows u (trim u)
  pub Allows_reported : (u : Text) → is_empty (trim u) ≡ false → Allows (reported (trim u)) (trim u)

-- A path behind a shorter one, in directories written with no slash at the end of the longer one.
push-ne :
    (file e d : Text)
    → starts_with_slash file ≡ false
    → ends_with_slash d ≡ false
    → length e < length d
    → push e file ≢ push d file
unfolding push
push-ne file e d hf hd lt q = ground (
  arith,
  ap length q,
  length-append e file,
  length-append e (b'/' ∷ file),
  length-append d (b'/' ∷ file),
)

length-Line : {d top : Text} {ds : List Text} → Line d ds top → length top ≤ length d
length-Line (at_top top) = omega arith
length-Line (below d x e l) = omega (arith, length-Line l, length-parent d _ e)

module _ (h : Host) (file : Text) (k : Values h file) (r : starts_with_slash file ≡ false) where
  open h use {State}

  -- The directory has the file, with nothing but white space, or with a value.
  abbrev pub IsBlank : State → Text → Type 0
  IsBlank s d = (w : Text) × (k.content s d ≡ some w) × (is_empty (trim w) ≡ true)

  -- The directory holds something that allows the value below it.
  abbrev pub Allowing : Text → State → Text → Type 0
  Allowing v s d = (w : Text) × (k.content s d ≡ some w) × k.Allows w v

  find_rounds-Line :
      {d top : Text} {ds : List Text} (n : ℕ) (v : List Text) (u : Text) (s : State)
      → Line d ds top
      → length d < n
      → All (IsBlank s) ds
      → k.content s top ≡ some u
      → is_empty (trim u) ≡ false
      → find_rounds h n file d v s ≡ (ok (some (trim u, v ++ ds)), s)
  unfolding find_rounds value_at
  find_rounds-Line zero v u s l lt b cu nu = absurd (omega arith)
  find_rounds-Line (suc n) v u s (at_top top) lt b cu nu =
      rw (k.reads s top u cu, nu, append-nil v) refl
  find_rounds-Line (suc n) v u s (below d {p} {ds} x e l) lt ((w, cw, ew), b) cu nu =
      rw
        (
          k.reads s d w cw,
          ew,
          e,
          find_rounds-Line n (v ++ d ∷ []) u s l (omega (arith, length-parent d p e)) b cu nu,
          append_assoc v (d ∷ []) ds,
        )
        refl

  -- What writing v to the directories of a line, the outermost first, makes of the state.
  filled : List Text → Text → State → State
  filled [] v s = s
  filled (d ∷ ds) v s = k.written d v (filled ds v s)

  -- A directory further down than the start of the line keeps its content.
  filled_elsewhere :
      {d top : Text} {ds : List Text} (v : Text) (s : State) (e : Text)
      → Line d ds top
      → ends_with_slash e ≡ false
      → length d < length e
      → k.content (filled ds v s) e ≡ k.content s e
  unfolding filled
  filled_elsewhere v s e (at_top top) xe lt = refl
  filled_elsewhere v s e (below d {p} {ds} x g l) xe lt =
      k.elsewhere (filled ds v s) d e v (λ q. push-ne file d e r xe lt (sym q))
      ∙ filled_elsewhere v s e l xe (omega (arith, lt, length-parent d p g))

  filled-Allowing :
      {d top : Text} {ds : List Text} (v : Text) (s : State)
      → Line d ds top
      → k.Allows (k.reported v) v
      → Allowing v s top
      → Allowing v (filled ds v s) d
  unfolding filled
  filled-Allowing v s (at_top top) again ht = ht
  filled-Allowing v s (below d {p} {ds} x g l) again ht =
      (k.reported v, k.at (filled ds v s) d v, again)

  -- Every directory of the line holds the value, and none is below its start.
  filled_each :
      {d top : Text} {ds : List Text} (v : Text) (s : State)
      → Line d ds top
      → All (λ e. (k.content (filled ds v s) e ≡ some (k.reported v)) × (length e ≤ length d)) ds
  unfolding filled
  filled_each v s (at_top top) = tt
  filled_each v s (below d {p} {ds} x g l) = (
    (k.at (filled ds v s) d v, omega arith),
    All-map
        (λ e b. (
          k.elsewhere (filled ds v s) d e v
                (push-ne file e d r x (omega (arith, b.1, length-parent d p g)))
              ∙ b.0,
          omega (arith, b.1, length-parent d p g),
        ))
        ds (filled_each v s l),
  )

  try_for_each-reverse :
      {d top : Text} {ds : List Text} (v : Text) (s : State)
      → Line d ds top
      → k.Allows (k.reported v) v
      → Allowing v s top
      → All (IsBlank s) ds
      → try_for_each (write_at h file v) (reverse ds) s ≡ (ok tt, filled ds v s)
  unfolding filled try_for_each write_at
  try_for_each-reverse v s (at_top top) again ht b = refl
  try_for_each-reverse v s (below d {p} {ds} x g l) again ht ((w, cw, ew), b) =
      rw (reverse-cons d ds) (
        try_for_each-append (write_at h file v) (reverse ds) (d ∷ []) s
        ∙ (let (u, cu, nu) = filled-Allowing v s l again ht in
            rw
              (
                try_for_each-reverse v s l again ht b,
                k.writes (filled ds v s) d p u w v g cu nu
                    (filled_elsewhere v s d l x (length-parent d p g) ∙ cw),
              )
              refl))

  -- Where every directory from `current` up to a last one below `top` has a blank file, and `top` has
  -- a value, `copy_from_parent` succeeds and gives each of those directories that value, on a
  -- kernel that takes a value for a directory where the value of the directory above allows it, as
  -- the same value does.
  pub copy_from_parent_fills :
      (current top u : Text) (ds : List Text) (s : State)
      → Line current ds top
      → All (IsBlank s) ds
      → k.content s top ≡ some u
      → is_empty (trim u) ≡ false
      → (t : State) × (copy_from_parent h current file s ≡ (ok tt, t))
        × All (λ d. k.content t d ≡ some (k.reported (trim u))) ds
  unfolding copy_from_parent find_no_empty_parent
  copy_from_parent_fills current top u [] s l b cu nu =
      (s, rw (find_rounds-Line (length current + 1) [] u s l (omega arith) b cu nu, nu) refl, tt)
  copy_from_parent_fills current top u (d ∷ ds) s l b cu nu = (
    filled (d ∷ ds) (trim u) s,
    rw
        (
          find_rounds-Line (length current + 1) [] u s l (omega arith) b cu nu,
          nu,
          try_for_each-reverse (trim u) s l (k.Allows_reported u nu) (u, cu, k.Allows_itself u nu)
              b,
        )
        refl,
    All-map (λ e r. r.0) (d ∷ ds) (filled_each (trim u) s l),
  )
