-- ===== src/Fs/Memory/Kernel.antt =====
-- The memory controller of version 1 in the kernel, as far as the order of writes to its two limits
-- depends on it, and what the statistics read from it.
use cgroups_rs.Base.{
  IsI64, ℕ, ℤ, pos, minus_one, ◌≤◌, ◌<◌, ◌≤ℤ◌, ◌^◌, ◌≡◌, refl, [], ◌∷◌, ◌++◌, ok, Option, none,
  some, Outcome, returns, arith, inl, inr, false, ap, ◌∙◌, if◌then◌else◌,
}
use cgroups_rs.Text.{Text, codes, trim}
use cgroups_rs.Text.Trim.{trim-word}
use cgroups_rs.Number.{parse_u64}
use cgroups_rs.Number.Print.{print, print-IsDigit}
use cgroups_rs.Number.Signed.{parse_i64, print_int, parse_i64-print_int}
use cgroups_rs.Io.{default_to, lift_outcome, ◌>>=◌}
use cgroups_rs.Io.Answers.{Answers, Yields}
use cgroups_rs.Fs.Error.{with_cause, os_error, read_failed}
use cgroups_rs.Fs.Host.{Host, Place, push, read_text, open_for_read}
use cgroups_rs.Fs.Read.{parsed, read_from, read_string_from}
use cgroups_rs.Fs.MaxValue.RoundTrip.{digits-Visible}
use cgroups_rs.Fs.Memory.Stat.{
  OomControl, parse_oom_control, default_oom_control, parse_memory_stat, default_memory_stat,
}
use cgroups_rs.Fs.Memory.Numa.{NumaStat, parse_numa_stat, default_numa_stat}
use cgroups_rs.Fs.Memory.Usage.{memory_stat, memory_stat_v1, memory_stat_v2}

abbrev limit_name : Place → Text
limit_name c = push c.path (codes "memory.limit_in_bytes")

abbrev memsw_name : Place → Text
memsw_name c = push c.path (codes "memory.memsw.limit_in_bytes")

-- What can be written to a limit: -1 or a number of bytes.
abbrev pub IsLimit : ℤ → Type 0
IsLimit z = (minus_one ≤ℤ z) × IsI64 z

-- Reads change nothing, and two of the files are in a form that the parsers take. Each limit keeps
-- what `stored` makes of a number written to it (a number of pages; the most there is for -1). A
-- write to the limit of memory is taken if the value stays at or below the limit of memory and
-- swap, and a write to that one if the value stays at or above the limit of memory, each where the
-- kernel can bring the use down to the value.
pub record Kernel (h : Host) (c : Place) : Type 1 where
  pub limit : h.State → ℕ
  pub memsw : h.State → ℕ
  pub stored : ℤ → ℕ
  pub Reclaims : ℕ → Type 0
  pub opening : (file : Text) (s : h.State) → Answers (h.open_file file) s
  pub reading : (file : Text) (s : h.State) → Answers (h.read_to_string file) s
  pub numa_form :
      (t : Text) (s : h.State)
      → h.read_to_string (push c.path (codes "memory.numa_stat")) s ≡ (ok t, s)
      → (n : NumaStat) × (parse_numa_stat (trim t) ≡ returns n)
  pub oom_form :
      (t : Text) (s : h.State)
      → h.read_to_string (push c.path (codes "memory.oom_control")) s ≡ (ok t, s)
      → (n : OomControl) × (parse_oom_control (trim t) ≡ returns n)
  pub limit_opens : (s : h.State) → h.open_file (limit_name c) s ≡ (ok tt, s)
  pub limit_reads :
      (s : h.State) → h.read_to_string (limit_name c) s ≡ (ok (print (limit s) ++ b'\n' ∷ []), s)
  pub limit_i64 : (s : h.State) → limit s < 2 ^ 63
  pub stored_limit : (s : h.State) → stored (pos (limit s)) ≡ limit s
  pub stored_monotone : (a b : ℕ) → a ≤ b → stored (pos a) ≤ stored (pos b)
  pub stored_unlimited : (z : ℤ) → stored z ≤ stored minus_one
  pub below_unlimited : (s : h.State) → limit s ≤ stored minus_one
  pub limit_creates : (s : h.State) → h.create (limit_name c) s ≡ (ok tt, s)
  pub memsw_creates : (s : h.State) → h.create (memsw_name c) s ≡ (ok tt, s)
  pub takes_limit :
      (z : ℤ) (s : h.State)
      → IsLimit z
      → Reclaims (stored z)
      → stored z ≤ memsw s
      → (t : h.State) × (h.write_all (limit_name c) (print_int z) s ≡ (ok tt, t))
        × (limit t ≡ stored z)
        × (memsw t ≡ memsw s)
  pub takes_memsw :
      (z : ℤ) (s : h.State)
      → IsLimit z
      → Reclaims (stored z)
      → limit s ≤ stored z
      → (t : h.State) × (h.write_all (memsw_name c) (print_int z) s ≡ (ok tt, t))
        × (limit t ≡ limit s)
        × (memsw t ≡ stored z)

module _ (h : Host) (c : Place) (k : Kernel h c) where
  read_text-Answers : (file reported : Text) (s : h.State) → Answers (read_text h c file reported) s
  unfolding read_text open_for_read
  read_text-Answers file reported s = elim (k.opening (push c.path file) s) [
    | inr (n, e) ↦ inr (with_cause (read_failed (push c.path file)) (os_error n), rw e refl)
    | inl (a, e) ↦ elim (k.reading (push c.path file) s) [
      | inl (t, g) ↦ inl (t, rw (e, g) refl)
      | inr (n, g) ↦ inr (with_cause (read_failed reported) (os_error n), rw (e, g) refl)
    ]
  ]

  parsed-Yields :
      {A : Type 0}
      → (d : A) (o : Option A) (s : h.State) → Yields (default_to d (parsed o)) s (λ a. Unit)
  parsed-Yields d none s = (d, refl, tt)
  parsed-Yields d (some a) s = (a, refl, tt)

  -- A number or its default.
  pub number-Yields :
      {A : Type 0}
      → (parse : Text → Option A) (d : A) (file : Text) (s : h.State)
      → Yields (default_to d (read_from h parse c file)) s (λ a. Unit)
  unfolding read_from
  number-Yields parse d file s =
      elim (read_text-Answers file (codes "FIXME: can't get path in fn read_from") s) [
        | inl (t, e) ↦ rw e (parsed-Yields d (parse (trim t)) s)
        | inr (f, e) ↦ (d, rw e refl, tt)
      ]

  pub limit-Yields :
      (s : h.State)
      → Yields
          (default_to (pos 0) (read_from h parse_i64 c (codes "memory.limit_in_bytes")))
          s
          (λ a. a ≡ pos (k.limit s))
  unfolding read_from read_text open_for_read print_int
  limit-Yields s =
      let (d, t, e, digit, digits) = print-IsDigit (k.limit s) in
      let trimmed = trim-word d t (digits-Visible (d ∷ t) (digit, digits)) in
      (
        pos (k.limit s),
        rw (k.limit_opens s, k.limit_reads s, e, trimmed)
            (rw (← e)
              (rw (parse_i64-print_int (pos (k.limit s)) (k.limit_i64 s, omega arith)) refl)),
        refl,
      )

  -- A text whose parse does not panic, or the default.
  pub text-Yields :
      {A : Type 0}
      → (d : A) (parse : Text → Outcome A) (file : Text) (s : h.State)
      → ((t : Text)
          → h.read_to_string (push c.path file) s ≡ (ok t, s)
          → (a : A) × (parse (trim t) ≡ returns a))
      → Yields
          (default_to d (read_string_from h c file >>= λ t. lift_outcome (parse t)))
          s
          (λ a. Unit)
  unfolding read_string_from read_text open_for_read
  text-Yields d parse file s form = elim (k.opening (push c.path file) s) [
    | inr (n, e) ↦ (d, rw e refl, tt)
    | inl (a, e) ↦ elim (k.reading (push c.path file) s) [
      | inl (t, g) ↦ let (b, f) = form t g in (b, rw (e, g, f) refl, tt)
      | inr (n, g) ↦ (d, rw (e, g) refl, tt)
    ]
  ]

  memory_stat_v1-Yields :
      (s : h.State) → Yields (memory_stat_v1 h c) s (λ m. m.limit_in_bytes ≡ pos (k.limit s))
  unfolding memory_stat_v1
  memory_stat_v1-Yields s =
      let (fail_cnt, e1, _) = number-Yields parse_u64 0 (codes "memory.failcnt") s in
      let (limit, e2, same) = limit-Yields s in
      let (usage, e3, _) = number-Yields parse_u64 0 (codes "memory.usage_in_bytes") s in
      let (max_usage, e4, _) = number-Yields parse_u64 0 (codes "memory.max_usage_in_bytes") s in
      let (move_charge, e5, _) =
        number-Yields parse_u64 0 (codes "memory.move_charge_at_immigrate") s in
      let (numa, e6, _) =
        text-Yields default_numa_stat parse_numa_stat (codes "memory.numa_stat") s
          (λ t e. k.numa_form t s e) in
      let (oom, e7, _) =
        text-Yields default_oom_control parse_oom_control (codes "memory.oom_control") s
          (λ t e. k.oom_form t s e) in
      let (soft, e8, _) = number-Yields parse_i64 (pos 0) (codes "memory.soft_limit_in_bytes") s in
      let (stat, e9, _) =
        text-Yields default_memory_stat (λ t. returns (parse_memory_stat t)) (codes "memory.stat") s
          (λ t e. (parse_memory_stat (trim t), refl)) in
      let (swappiness, e10, _) = number-Yields parse_u64 0 (codes "memory.swappiness") s in
      let (use_hierarchy, e11, _) = number-Yields parse_u64 0 (codes "memory.use_hierarchy") s in
      (
        record {
          fail_cnt = fail_cnt;
          limit_in_bytes = limit;
          usage_in_bytes = usage;
          max_usage_in_bytes = max_usage;
          move_charge_at_immigrate = move_charge;
          numa_stat = numa;
          oom_control = oom;
          soft_limit_in_bytes = soft;
          stat = stat;
          swappiness = swappiness;
          use_hierarchy = use_hierarchy;
        },
        rw (e1, e2, e3, e4, e5, e6, e7, e8, e9, e10, e11) refl,
        same,
      )

  version_one : (s : h.State) → c.v2 ≡ false → memory_stat h c s ≡ memory_stat_v1 h c s
  unfolding memory_stat
  version_one s v = ap (λ b. (if b then memory_stat_v2 h c else memory_stat_v1 h c) s) v

  -- The statistics come back, with the limit.
  pub memory_stat-Yields :
      (s : h.State)
      → c.v2 ≡ false
      → Yields (memory_stat h c) s (λ m. m.limit_in_bytes ≡ pos (k.limit s))
  memory_stat-Yields s v =
      let (m, e, same) = memory_stat_v1-Yields s in (m, version_one s v ∙ e, same)
