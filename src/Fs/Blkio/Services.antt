-- ===== src/Fs/Blkio/Services.antt =====
-- The rows of `io_service` files, six for a device.
use cgroups_rs.Base.{
  ℕ, ℤ, pos, ◌≤◌, ◌≡◌, refl, Bool, true, false, not, List, [], ◌∷◌, ◌++◌, some, ok, All, arith,
  eq_ℤ, append_assoc, eq_of_parts, Bool-cases, ◌∙◌, ap, ◌≢◌, ◌⊎◌, inl, inr, ◌&&◌, ◌||◌,
}
use cgroups_rs.Text.{Text, codes, text_eq}
use cgroups_rs.Number.{max_u64}
use cgroups_rs.Number.Print.{print, parse_uint-print}
use cgroups_rs.Fs.Blkio.{IoService, default_io_service, Row, set_op, is_new_device, services_of}

abbrev pub row : IoService → Text → ℕ → Row
row io op n = (some io.major, some io.minor, op, print n)

abbrev other_rows : IoService → List Row → List Row
other_rows io rest =
    row io (codes "Write") io.write
    ∷ row io (codes "Sync") io.sync
    ∷ row io (codes "Async") io.asynchronous
    ∷ row io (codes "Discard") io.discard
    ∷ row io (codes "Total") io.total
    ∷ rest

-- The six rows that the kernel shows for a device.
abbrev pub service_rows : IoService → List Row → List Row
service_rows io rest = row io (codes "Read") io.read ∷ other_rows io rest

abbrev pub rows_of_services : List IoService → List Row
rows_of_services [] = []
rows_of_services (io ∷ ios) = service_rows io (rows_of_services ios)

abbrev pub Counts : IoService → Type 0
Counts io =
    (io.read ≤ max_u64)
    × (io.write ≤ max_u64)
    × (io.sync ≤ max_u64)
    × (io.asynchronous ≤ max_u64)
    × (io.discard ≤ max_u64)
    × (io.total ≤ max_u64)

same_device : (io : IoService) → is_new_device io.major io.minor io ≡ false
same_device io = ground arith

first_device : (major minor : ℤ) → is_new_device major minor default_io_service ≡ false
first_device major minor = ground arith

-- A row of the device that is being read.
step :
    (op : Text) (n : ℕ) (io : IoService) (rest : List Row) (done : List IoService)
    → n ≤ max_u64
    → services_of ((some io.major, some io.minor, op, print n) ∷ rest) done io
      ≡ services_of rest done (set_op op n io)
unfolding services_of
step op n io rest done h = rw (same_device io, parse_uint-print max_u64 n h) refl

-- The first row of a device behind another one.
enter :
    (op : Text) (n : ℕ) (major minor : ℤ) (io : IoService) (rest : List Row) (done : List IoService)
    → n ≤ max_u64
    → is_new_device major minor io ≡ true
    → services_of ((some major, some minor, op, print n) ∷ rest) done io
      ≡ services_of rest
          (done ++ io ∷ [])
          (set_op op n (record default_io_service { major = major; minor = minor }))
unfolding services_of
enter op n major minor io rest done h e = rw (e, parse_uint-print max_u64 n h) refl

-- The first row of all.
start :
    (op : Text) (n : ℕ) (major minor : ℤ) (rest : List Row) (done : List IoService)
    → n ≤ max_u64
    → services_of ((some major, some minor, op, print n) ∷ rest) done default_io_service
      ≡ services_of rest done
          (set_op op n (record default_io_service { major = major; minor = minor }))
unfolding services_of
start op n major minor rest done h =
    rw (first_device major minor, parse_uint-print max_u64 n h) refl

-- The five rows behind the first one of a device.
behind_first :
    (io : IoService) (rest : List Row) (done : List IoService)
    → Counts io
    → services_of (other_rows io rest) done (
        set_op
          (codes "Read")
          io.read
          (record default_io_service { major = io.major; minor = io.minor }))
      ≡ services_of rest done io
unfolding set_op text_eq
behind_first io rest done (_, h2, h3, h4, h5, h6) =
    let io1 = record default_io_service { major = io.major; minor = io.minor; read = io.read } in
    let io2 = record io1 { write = io.write } in
    let io3 = record io2 { sync = io.sync } in
    let io4 = record io3 { asynchronous = io.asynchronous } in
    let io5 = record io4 { discard = io.discard } in
    step (codes "Write") io.write io1 _ done h2
    ∙ step (codes "Sync") io.sync io2 _ done h3
    ∙ step (codes "Async") io.asynchronous io3 _ done h4
    ∙ step (codes "Discard") io.discard io4 _ done h5
    ∙ step (codes "Total") io.total io5 rest done h6

-- Neighbours are different devices, and no device has the major number 0.
abbrev pub Apart : IoService → List IoService → Type 0
Apart io [] = io.major ≢ pos 0
Apart io (next ∷ ios) =
    (io.major ≢ pos 0) × ((next.major ≢ io.major) ⊎ (next.minor ≢ io.minor)) × Apart next ios

equal_parts : (a b : ℤ) → eq_ℤ a b ≡ true → a ≡ b
equal_parts a b e = eq_of_parts a b (ground arith)

different : (a b : ℤ) → a ≢ b → eq_ℤ a b ≡ false
different a b h = elim (Bool-cases (eq_ℤ a b)) [
  | inl e ↦ elim (h (equal_parts a b e)) [ ]
  | inr e ↦ e
]

any : (b : Bool) → (not b || true) && true ≡ true
any true = refl
any false = refl

new_device :
    (next io : IoService)
    → io.major ≢ pos 0
    → (next.major ≢ io.major) ⊎ (next.minor ≢ io.minor)
    → is_new_device next.major next.minor io ≡ true
new_device next io h (inl d) =
    rw (different io.major (pos 0) h, different next.major io.major d) refl
new_device next io h (inr d) =
    rw (different io.major (pos 0) h, different next.minor io.minor d)
      (any (eq_ℤ next.major io.major))

behind :
    (io : IoService) (ios : List IoService) (done : List IoService)
    → Apart io ios
    → All Counts ios
    → services_of (rows_of_services ios) done io ≡ ok (done ++ io ∷ ios)
unfolding services_of
behind io [] done apart _ = rw (different io.major (pos 0) apart) refl
behind io (next ∷ ios) done (h, d, apart) (counts, all) =
    enter (codes "Read") next.read next.major next.minor io (other_rows next (rows_of_services ios))
      done counts.0 (new_device next io h d)
    ∙ behind_first next (rows_of_services ios) (done ++ io ∷ []) counts
    ∙ behind next ios (done ++ io ∷ []) apart all
    ∙ ap (λ (l : List IoService). ok l) (append_assoc done (io ∷ []) (next ∷ ios))

-- The rows of the devices give the devices.
pub services_of-rows_of_services :
    (io : IoService) (ios : List IoService)
    → Apart io ios
    → All Counts (io ∷ ios)
    → services_of (rows_of_services (io ∷ ios)) [] default_io_service ≡ ok (io ∷ ios)
services_of-rows_of_services io ios apart (counts, all) =
    start (codes "Read") io.read io.major io.minor (other_rows io (rows_of_services ios)) []
      counts.0
    ∙ behind_first io (rows_of_services ios) [] counts
    ∙ behind io ios [] apart all
