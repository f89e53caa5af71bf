-- ===== src/Fs/Directories/Tries.antt =====
-- `delete` of the trait `Controller` tries to remove the directory up to five times.
use cgroups_rs.Base.{ℕ, zero, suc, ◌≤◌, ◌≡◌, refl, true, Result, ok, err, arith, ◌⊎◌, inl, inr}
use cgroups_rs.Io.{Io, Fault, error}
use cgroups_rs.Fs.Error.{Error}
use cgroups_rs.Fs.Host.{Host, Place}
use cgroups_rs.Fs.Directories.{Directories, exists, delete, remove_dir, tries}

module _ {S : Type 0} where
  -- A number of runs, each with an error, from one state to another.
  pub data Fails (m : Io S Error (Unit {0})) : ℕ → S → S → Type 0 where
    at_first : (s : S) → Fails m 0 s s
    once_more :
        {n : ℕ} {s u t : S} (e : Error)
        → m s ≡ (err (error e), u)
        → Fails m n u t
        → Fails m (suc n) s t

  tries-Fails :
      (m : Io S Error (Unit {0})) (k : ℕ) {n : ℕ} {s t : S} (r : S)
      (q : Result (Fault Error) (Unit {0}))
      → Fails m n s t
      → n ≤ k
      → m t ≡ (q, r)
      → (q ≡ ok tt) ⊎ (n ≡ k)
      → tries k m s ≡ (q, r)
  unfolding tries
  tries-Fails m zero r q (at_first s) le e o = e
  tries-Fails m (suc k) r q (at_first s) le e (inl ok_q) = rw (e, ok_q) refl
  tries-Fails m (suc k) r q (at_first s) le e (inr o) = absurd (omega arith)
  tries-Fails m zero r q (once_more x g f) le e o = absurd (omega arith)
  tries-Fails m (suc k) r q (once_more {n} {s} {u} x g f) le e o =
      rw g (tries-Fails m k r q f (omega arith) e (ground arith))

module _ (h : Host) (d : Directories h) where
  -- Of a directory that is there, `delete` returns what the first try without an error returns, if
  -- that is one of the first five, and else the error of the fifth.
  pub delete_tries :
      (depth : ℕ) (c : Place) (n : ℕ) (s t r : h.State) (q : Result (Fault Error) (Unit {0}))
      → exists h d c s ≡ true
      → Fails (remove_dir h d depth c.path) n s t
      → n ≤ 4
      → remove_dir h d depth c.path t ≡ (q, r)
      → (q ≡ ok tt) ⊎ (n ≡ 4)
      → delete h d depth c s ≡ (q, r)
  unfolding delete
  delete_tries depth c n s t r q there f le e o =
      rw there (tries-Fails (remove_dir h d depth c.path) 4 r q f le e o)
