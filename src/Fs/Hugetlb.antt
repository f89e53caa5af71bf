-- ===== src/Fs/Hugetlb.antt =====
-- fs/hugetlb.rs: the limits on huge pages, by page size, and the text of a size.
pub mod Size
mod Tests
use cgroups_rs.Base.{
  ℕ, ◌*◌, ◌<◌, ◌^◌, ◌≡◌, Bool, true, false, ◌||◌, not, List, [], ◌∷◌, ◌++◌, Option, none, some,
  Result, ok, err, ok_or, if◌then◌else◌, is_empty, ◌==◌, as_u64, ℤ, ltb, ◌-◌, Outcome, returns,
  panics, refl,
}
use cgroups_rs.Text.{Text, codes, text_eq, contains_char, contains_text, trim}
use cgroups_rs.Text.Affix.{strip_suffix}
use cgroups_rs.Number.{parse_uint}
use cgroups_rs.Number.Print.{print}
use cgroups_rs.Dict.{Dict, get, insert}
use cgroups_rs.Io.{Io, ◌>>=◌, ◌>>◌, pure, raise, ignore, try_for_each}
use cgroups_rs.Fs.Error.{Error, FsResult, new, from_string, other, invalid_bytes_size}
use cgroups_rs.Fs.Host.{Host, Place, write_value}
use cgroups_rs.Fs.Read.{read_from, read_u64_from}
use cgroups_rs.Fs.Keyed.{flat_keyed_to_vec}

pub record HugePageResource : Type 0 where
  pub size : Text
  pub limit : ℕ

pub record HugePageResources : Type 0 where
  pub limits : List HugePageResource

-- `hugetlb.{size}.{suffix}`
abbrev pub page_file : Text → Text → Text
page_file size suffix = codes "hugetlb." ++ (size ++ b'.' ∷ suffix)

-- The sizes that the controller was made with.
unfoldable pub size_supported : List Text → Text → Bool
unfolding contains_text
size_supported sizes hugetlb_size = contains_text hugetlb_size sizes

module _ (h : Host) where
  open h use {State}

  -- The value of the first pair, as `u64`.
  abbrev first_value : Text → List (Text × ℤ) → Io State Error ℕ
  first_value hugetlb_size [] =
      raise (from_string (codes "get empty from " ++ page_file hugetlb_size (codes "events")))
  first_value hugetlb_size ((k, v) ∷ rest) = pure (as_u64 v)

  unfoldable pub failcnt_v2 : Place → Text → Io State Error ℕ
  unfolding flat_keyed_to_vec
  failcnt_v2 c hugetlb_size = do
    x ← flat_keyed_to_vec h c (page_file hugetlb_size (codes "events"))
    first_value hugetlb_size x

  unfoldable pub failcnt : Place → Text → Io State Error ℕ
  unfolding failcnt_v2 read_from
  failcnt c hugetlb_size =
      if c.v2
      then failcnt_v2 c hugetlb_size
      else read_u64_from h c (page_file hugetlb_size (codes "failcnt"))

  abbrev limit_file : Place → Text → Text
  limit_file c hugetlb_size =
      page_file hugetlb_size (if c.v2 then codes "max" else codes "limit_in_bytes")

  unfoldable pub limit_in_bytes : Place → Text → Io State Error ℕ
  unfolding read_from
  limit_in_bytes c hugetlb_size = read_u64_from h c (limit_file c hugetlb_size)

  unfoldable pub usage_in_bytes : Place → Text → Io State Error ℕ
  unfolding read_from
  usage_in_bytes c hugetlb_size =
      read_u64_from h c
        (page_file hugetlb_size (if c.v2 then codes "current" else codes "usage_in_bytes"))

  unfoldable pub max_usage_in_bytes : Place → Text → Io State Error ℕ
  unfolding read_from
  max_usage_in_bytes c hugetlb_size =
      read_u64_from h c (page_file hugetlb_size (codes "max_usage_in_bytes"))

  unfoldable pub set_limit_in_bytes : Place → Text → ℕ → Io State Error (Unit {0})
  unfolding write_value print
  set_limit_in_bytes c hugetlb_size limit =
      write_value h c (limit_file c hugetlb_size) (print limit)

  unfoldable pub apply_limit : Place → HugePageResource → Io State Error (Unit {0})
  unfolding set_limit_in_bytes limit_in_bytes
  apply_limit c i =
      ignore (set_limit_in_bytes c i.size i.limit)
      >> (limit_in_bytes c i.size >>= λ got. if got == i.limit then pure tt else raise (new other))

  unfoldable pub apply : Place → HugePageResources → Io State Error (Unit {0})
  unfolding apply_limit try_for_each
  apply c res = try_for_each (apply_limit c) res.limits

-- The last character and the text in front of it.
unfoldable pub split_last : Text → Option (Text × ℕ)
split_last [] = none
split_last (c ∷ s) = elim (split_last s) [ none ↦ some ([], c) | some (t, d) ↦ some (c ∷ t, d) ]

-- A multiplication of `u128` that overflows panics.
abbrev pub times : ℕ → Option ℕ → Outcome (FsResult ℕ)
times number none = returns (err (new invalid_bytes_size))
times number (some multiplier) =
    if ltb (number * multiplier) (2 ^ 128) then returns (ok (number * multiplier)) else panics

abbrev pub sized : Option ℕ → Option ℕ → Outcome (FsResult ℕ)
sized none multiplier = returns (err (new invalid_bytes_size))
sized (some number) multiplier = times number multiplier

-- The number in front of a letter.
unfoldable pub size_of : Option (Text × ℕ) → Dict ℕ → Outcome (FsResult ℕ)
unfolding contains_char trim parse_uint get
size_of none m = returns (err (new invalid_bytes_size))
size_of (some (num_part, last_char)) m =
    if not (contains_char last_char (codes "kKmMgGtTpP"))
    then returns (err (new invalid_bytes_size))
    else if is_empty (trim num_part)
    then returns (err (new invalid_bytes_size))
    else sized (parse_uint (2 ^ 128 - 1) (trim num_part)) (get (last_char ∷ []) m)

abbrev or_whole : Text → Option Text → Text
or_whole s none = s
or_whole s (some stripped) = stripped

abbrev either : Option Text → Option Text → Option Text
either none b = b
either (some a) b = some a

-- Without the letter `b` or `B` at the end.
unfoldable pub without_b : Text → Text
unfolding strip_suffix
without_b s = or_whole s (either (strip_suffix (codes "b") s) (strip_suffix (codes "B") s))

unfoldable pub parse_size : Text → Dict ℕ → Outcome (FsResult ℕ)
unfolding without_b split_last size_of trim
parse_size s m = size_of (split_last (without_b (trim s))) m

abbrev pub kib : ℕ
kib = 1024

unfoldable pub get_binary_size_map : Dict ℕ
unfolding insert
get_binary_size_map = insert (codes "p") (kib ^ 5) (
    insert (codes "t") (kib ^ 4)
      (insert (codes "g") (kib ^ 3) (insert (codes "m") (kib ^ 2) (insert (codes "k") kib []))))

parse_size_test : parse_size (codes " 2048kB\n") get_binary_size_map ≡ returns (ok 2097152)
unfolding parse_size get_binary_size_map text_eq
parse_size_test = refl
