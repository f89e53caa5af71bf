-- ===== src/Fs/Cgroup/Pids.antt =====
-- The process numbers of a control group.
use cgroups_rs.Base.{
  ℕ, List, [], ◌∷◌, ◌++◌, ◌≡◌, refl, ok, Bool, true, false, IsAscending, contains,
  dedup-sort-IsAscending, contains-dedup-sort, sort, dedup, if◌then◌else◌, append-nil,
}
use cgroups_rs.Io.{Io}
use cgroups_rs.Fs.Error.{Error}
use cgroups_rs.Fs.Host.{Host, Place}
use cgroups_rs.Fs.Controller as Controller
use cgroups_rs.Fs.Hierarchies.{is_v2}
use cgroups_rs.Fs.Cgroup.{Cgroup, places, first_or_none, gather, collected, procs}

-- The same numbers, each once and in rising order.
abbrev pub IsSetOf : List ℕ → List ℕ → Type 0
IsSetOf v r = IsAscending r × ((p : ℕ) → contains p r ≡ contains p v)

-- The first place, if there is one.
abbrev pub first_place : List Place → List Place
first_place [] = []
first_place (c ∷ cs) = c ∷ []

-- The places whose numbers count: in version 2 the first one, in version 1 all.
abbrev pub counted : Cgroup → List Place
counted g = if is_v2 g.hier then first_place (places g.subsystems) else places g.subsystems

module _ (h : Host) where
  open h use {State}

  -- The places are read one behind the other, and the numbers are those of all.
  pub data Gives (f : Place → Io State Error (List ℕ))
      : List Place → State → List ℕ → State → Type 0 where
    none_left : (s : State) → Gives f [] s [] s
    reads :
        (c : Place) {cs : List Place} {s t u : State} {v vs : List ℕ}
        → f c s ≡ (ok v, t)
        → Gives f cs t vs u
        → Gives f (c ∷ cs) s (v ++ vs) u

  gather-Gives :
      (f : Place → Io State Error (List ℕ)) {cs : List Place} {s t : State} {v : List ℕ}
      → Gives f cs s v t
      → gather h f cs s ≡ (ok v, t)
  unfolding gather
  gather-Gives f (none_left s) = refl
  gather-Gives f (reads c e rest) = rw (e, gather-Gives f rest) refl

  first-Gives :
      (f : Place → Io State Error (List ℕ)) (cs : List Place) {s t : State} {v : List ℕ}
      → Gives f (first_place cs) s v t
      → first_or_none h f cs s ≡ (ok v, t)
  first-Gives f [] (none_left s) = refl
  first-Gives f (c ∷ cs) (reads _ {v} e (none_left _)) = rw (append-nil v) e

  collected-Gives :
      (f : Place → Io State Error (List ℕ)) (g : Cgroup) (v : List ℕ) (s t : State)
      → Gives f (counted g) s v t
      → collected h f g s ≡ (ok v, t)
  unfolding collected
  collected-Gives f g v s t = go (is_v2 g.hier)
    where
      go :
          (b : Bool)
          → Gives f (if b then first_place (places g.subsystems) else places g.subsystems) s v t
          → (if b
                then first_or_none h f (places g.subsystems)
                else gather h f (places g.subsystems))
              s
            ≡ (ok v, t)
      go true k = first-Gives f (places g.subsystems) k
      go false k = gather-Gives f k

  -- Where the files of the subsystems that count (the first one in version 2, all of them in
  -- version 1) are read one behind the other and give the numbers v together, `procs` gives the
  -- same numbers, each once and in rising order.
  pub procs-IsSetOf :
      (g : Cgroup) (v : List ℕ) (s t : State)
      → Gives (Controller.procs h) (counted g) s v t
      → (r : List ℕ) × (procs h g s ≡ (ok r, t)) × IsSetOf v r
  unfolding procs
  procs-IsSetOf g v s t k = (
    dedup (sort v),
    rw (collected-Gives (Controller.procs h) g v s t k) refl,
    (dedup-sort-IsAscending v, λ p. contains-dedup-sort p v),
  )
