-- ===== src/Fs/MaxValue/RoundTrip.antt =====
-- `MaxValue` printed and read back.
use cgroups_rs.Base.{
  ◌++◌, ◌∙◌, sym, ℕ, ℤ, pos, negsuc, ◌+◌, ◌≤◌, ◌≡◌, refl, false, [], ◌∷◌, All, arith, ok, IsI64,
}
use cgroups_rs.Text.{Text, trim, text_eq, codes, is_whitespace}
use cgroups_rs.Text.Trim.{Visible, trim-word, trim-Visible, graphic-Visible}
use cgroups_rs.Number.{IsDigit}
use cgroups_rs.Number.Print.{print, print-IsDigit}
use cgroups_rs.Number.Signed.{print_int, parse_i64-print_int}
use cgroups_rs.Fs.MaxValue.{MaxValue, max, value, print_max_value, parse_max_value}

abbrev pub IsInRange : MaxValue → Type 0
IsInRange max = Unit
IsInRange (value z) = IsI64 z

pub digits-Visible : (w : Text) → All IsDigit w → Visible w
digits-Visible [] _ = tt
digits-Visible (c ∷ w) (h, hw) =
    (graphic-Visible c (omega arith) (omega arith), digits-Visible w hw)

-- A first character that is no `m`, and no white space.
abbrev IsWord : Text → Type 0
IsWord w = (c : ℕ) × (s : Text) × (w ≡ c ∷ s) × (c ≤ 57) × Visible (c ∷ s)

pub print-Visible : (n : ℕ) → IsWord (print n)
print-Visible n =
    let (c, s, e, d, ds) = print-IsDigit n in (c, s, e, omega arith, digits-Visible (c ∷ s) (d, ds))

print_int-IsWord : (z : ℤ) → IsWord (print_int z)
unfolding print_int
print_int-IsWord (pos n) = print-Visible n
print_int-IsWord (negsuc n) =
    let (c, s, e, d, ds) = print-IsDigit (n + 1) in
    (
      b'-',
      print (n + 1),
      refl,
      omega arith,
      (graphic-Visible b'-' (omega arith) (omega arith), rw e (digits-Visible (c ∷ s) (d, ds))),
    )

not_max : (c : ℕ) (s : Text) → c ≤ 57 → text_eq (c ∷ s) (codes "max") ≡ false
unfolding text_eq
not_max c s h = ground arith

pub parse_max_value-print_max_value :
    (m : MaxValue) → IsInRange m → parse_max_value (print_max_value m) ≡ ok m
unfolding parse_max_value print_max_value
parse_max_value-print_max_value max _ = refl
parse_max_value-print_max_value (value z) r =
    let (c, s, e, low, visible) = print_int-IsWord z in
    rw (trim-Visible (print_int z) (rw e visible))
      (rw e (rw (not_max c s low) (rw (← e) (rw (parse_i64-print_int z r) refl))))

pub print_max_value-Visible :
    (m : MaxValue) → (c : ℕ) × (s : Text) × (print_max_value m ≡ c ∷ s) × Visible (c ∷ s)
unfolding print_max_value is_whitespace
print_max_value-Visible max = (b'm', codes "ax", refl, (refl, (refl, (refl, tt))))
print_max_value-Visible (value z) =
    let (c, s, e, _, visible) = print_int-IsWord z in (c, s, e, visible)

same_trim : (s t : Text) → trim s ≡ trim t → parse_max_value s ≡ parse_max_value t
unfolding parse_max_value
same_trim s t e = rw e refl

-- As the kernel shows it, with a line feed.
pub parse_max_value-line :
    (m : MaxValue) → IsInRange m → parse_max_value (print_max_value m ++ b'\n' ∷ []) ≡ ok m
parse_max_value-line m r =
    let (c, s, e, visible) = print_max_value-Visible m in
    let line : trim (print_max_value m ++ b'\n' ∷ []) ≡ trim (print_max_value m) =
      rw e (trim-word c s visible ∙ sym (trim-Visible (c ∷ s) visible)) in
    same_trim (print_max_value m ++ b'\n' ∷ []) (print_max_value m) line
    ∙ parse_max_value-print_max_value m r
