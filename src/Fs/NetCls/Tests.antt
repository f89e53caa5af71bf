-- ===== src/Fs/NetCls/Tests.antt =====
-- The text of a class, and a class on a host with the file of the class.
use cgroups_rs.Base.{false, ℕ, ◌≡◌, refl, [], ◌∷◌, ◌++◌, Option, none, some, Result, ok, err, arith}
use cgroups_rs.Text.{codes}
use cgroups_rs.Number.Print.{print}
use cgroups_rs.Io.{Fault, error}
use cgroups_rs.Fs.Host.{Host, Place, push}
use cgroups_rs.Fs.NetCls.{hex_text, set_class, get_class}
use cgroups_rs.Fs.NetCls.Hex.{ClassFile, read_hex, get_class-set_class}

abbrev taken : Option ℕ → ℕ → Result (Fault ℕ) (Unit {0}) × ℕ
taken none s = (err (error 22), s)
taken (some n) s = (ok tt, n)

-- The state is the class.
abbrev one_class : Host
one_class = record {
  State = ℕ;
  create = λ p s. (ok tt, s);
  write_all = λ p t s. taken (read_hex t) s;
  open_file = λ p s. (ok tt, s);
  read_to_string = λ p s. (ok (print s ++ b'\n' ∷ []), s);
  read_lines = λ p s. ([], s);
}

abbrev group : Place
group = record { base = codes "/"; path = codes "/n"; v2 = false }

abbrev one_class_file : ClassFile one_class (push group.path (codes "net_cls.classid"))
one_class_file = record {
  class_of = λ s. s;
  classified = λ n s. n;
  opens = λ s. refl;
  creates = λ s. refl;
  shows = λ s. refl;
  takes = λ t n s e _. rw e refl;
  kept = λ n s _. refl;
}

get_class-set_class_example :
    (set_class one_class group 0x10001f 0 ≡ (ok tt, 0x10001f))
    × (get_class one_class group 0x10001f ≡ (ok 0x10001f, 0x10001f))
get_class-set_class_example =
    get_class-set_class one_class group one_class_file 0x10001f 0 (omega arith)

hex_text_test : hex_text 26 ≡ codes "0x00001A"
unfolding hex_text
hex_text_test = refl
