-- ===== src/Fs/Blkio/IoStat.antt =====
-- The values of `io.stat` lines.
use cgroups_rs.Base.{ℤ, ◌≡◌, false, refl, [], ◌∷◌, some, returns, All, ◌==◌}
use cgroups_rs.Text.{Text, codes, contains_char}
use cgroups_rs.Text.Split.{split_by-Free, contains_char-Free}
use cgroups_rs.Number.{parse_uint}
use cgroups_rs.Number.Signed.{parse_i16}
use cgroups_rs.Fs.Blkio.{get_value, io_stat_of}

zero_value : (s : Text) → contains_char b':' s ≡ false → get_value s ≡ codes "0"
unfolding get_value
zero_value s h = rw (split_by-Free (λ c. c == b':') s (contains_char-Free b':' s h)) refl

-- Items with no colon, as the kernel's `key=value` items are, all count as 0: whatever the six
-- items of a line say, where the two numbers of its device can be read as `i16`, its record holds
-- these numbers and zeros.
pub io_stat_of-zero :
    (a b v1 v2 v3 v4 v5 v6 : Text) (major minor : ℤ)
    → parse_i16 a ≡ some major
    → parse_i16 b ≡ some minor
    → All (λ v. contains_char b':' v ≡ false) (v1 ∷ v2 ∷ v3 ∷ v4 ∷ v5 ∷ v6 ∷ [])
    → io_stat_of (a ∷ b ∷ []) v1 v2 v3 v4 v5 v6
      ≡ returns (record {
        major = major;
        minor = minor;
        rbytes = 0;
        wbytes = 0;
        rios = 0;
        wios = 0;
        dbytes = 0;
        dios = 0;
      })
unfolding io_stat_of parse_uint
io_stat_of-zero a b v1 v2 v3 v4 v5 v6 major minor ha hb (h1, (h2, (h3, (h4, (h5, (h6, _)))))) =
    rw
      (
        ha,
        hb,
        zero_value v1 h1,
        zero_value v2 h2,
        zero_value v3 h3,
        zero_value v4 h4,
        zero_value v5 h5,
        zero_value v6 h6,
      )
      refl
