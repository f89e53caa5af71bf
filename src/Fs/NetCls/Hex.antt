-- ===== src/Fs/NetCls/Hex.antt =====
-- The text of a class (fs/net_cls.rs), and the file that takes it.
use cgroups_rs.Base.{
  false, All, ◌≤◌, ◌^◌, ok, ℕ, zero, suc, ◌+◌, ◌-◌, ◌*◌, ◌/◌, ◌%◌, ◌<◌, ◌≡◌, refl, ◌∙◌, ap, [], ◌∷◌,
  ◌++◌, Option, none, some, arith, ltb, leb, if◌then◌else◌, length, ◌&&◌, Bool-cases, inl, inr,
}
use cgroups_rs.Text.{Text, codes, strip_prefix}
use cgroups_rs.Text.{trim, is_whitespace}
use cgroups_rs.Text.Trim.{Visible, graphic-Visible, trim-word}
use cgroups_rs.Number.{IsDigit, max_u64}
use cgroups_rs.Number.Print.{print, print-IsDigit, parse_uint-print}
use cgroups_rs.Fs.Host.{Host, Place, push, write_value, open_for_write, read_text, open_for_read}
use cgroups_rs.Fs.Read.{read_from}
use cgroups_rs.Fs.NetCls.{hex_digit, emit_hex, zeros, hex_text, set_class, get_class}

-- The value of a hexadecimal digit.
digit_value : ℕ → Option ℕ
digit_value c =
    if leb b'0' c && leb c b'9'
    then some (c - b'0')
    else if leb b'A' c && leb c b'F'
    then some (c - b'A' + 10)
    else none

-- The number that hexadecimal digits write, behind a value read before.
pub hex_value : Text → ℕ → Option ℕ
unfolding digit_value
hex_value [] v = some v
hex_value (c ∷ s) v = elim (digit_value c) [ none ↦ none | some d ↦ hex_value s (v * 16 + d) ]

-- The number of a text with the prefix of hexadecimal numbers.
pub read_hex : Text → Option ℕ
unfolding hex_value strip_prefix
read_hex s = elim (strip_prefix (codes "0x") s) [ none ↦ none | some t ↦ hex_value t 0 ]

digit_value-hex_digit : (d : ℕ) → d < 16 → digit_value (hex_digit d) ≡ some d
unfolding digit_value
digit_value-hex_digit d h = ground arith

hex_value-digit :
    (d : ℕ) (out : Text) (v : ℕ)
    → d < 16
    → hex_value (hex_digit d ∷ out) v ≡ hex_value out (v * 16 + d)
unfolding hex_value
hex_value-digit d out v h = rw (digit_value-hex_digit d h, hex_value) refl

hex_value-emit_hex :
    (rounds n : ℕ) (out : Text) → n < rounds → hex_value (emit_hex rounds n out) 0 ≡ hex_value out n
unfolding emit_hex hex_value
hex_value-emit_hex zero n out h = absurd (omega arith)
hex_value-emit_hex (suc rounds) n out h = elim (Bool-cases (ltb n 16)) [
  | inl e ↦ rw e (hex_value-digit n out 0 (ground arith) ∙ ap (hex_value out) (omega arith))
  | inr e ↦ rw e (
      hex_value-emit_hex rounds (n / 16) (hex_digit (n % 16) ∷ out) (ground arith)
      ∙ hex_value-digit (n % 16) out (n / 16) (omega arith)
      ∙ ap (hex_value out) (omega arith))
]

hex_value-zeros : (n : ℕ) (s : Text) → hex_value (zeros n ++ s) 0 ≡ hex_value s 0
unfolding zeros hex_value
hex_value-zeros zero s = refl
hex_value-zeros (suc n) s = hex_value-zeros n s

pub read_hex-hex_text : (class : ℕ) → read_hex (hex_text class) ≡ some class
unfolding read_hex hex_text strip_prefix
read_hex-hex_text class =
    hex_value-zeros (6 - length (emit_hex (class + 1) class [])) (emit_hex (class + 1) class [])
    ∙ hex_value-emit_hex (class + 1) class [] (omega arith)
    ∙ refl

-- The file of the class: it opens, opening it for a write does not change it, it takes a hexadecimal
-- number of 32 bits, and it shows its number in decimal, with a line feed.
pub record ClassFile (h : Host) (file : Text) : Type 0 where
  pub class_of : h.State → ℕ
  pub classified : ℕ → h.State → h.State
  pub opens : (s : h.State) → h.open_file file s ≡ (ok tt, s)
  pub creates : (s : h.State) → h.create file s ≡ (ok tt, s)
  pub shows : (s : h.State) → h.read_to_string file s ≡ (ok (print (class_of s) ++ b'\n' ∷ []), s)
  pub takes :
      (t : Text) (n : ℕ) (s : h.State)
      → read_hex t ≡ some n
      → n < 2 ^ 32
      → h.write_all file t s ≡ (ok tt, classified n s)
  pub kept : (n : ℕ) (s : h.State) → n < 2 ^ 32 → class_of (classified n s) ≡ n

graphic : (c : ℕ) → IsDigit c → is_whitespace c ≡ false
graphic c h = graphic-Visible c (omega arith) (omega arith)

digits-Visible : (s : Text) → All IsDigit s → Visible s
digits-Visible [] _ = tt
digits-Visible (c ∷ s) (h, hs) = (graphic c h, digits-Visible s hs)

trim-print : (n : ℕ) → trim (print n ++ b'\n' ∷ []) ≡ print n
trim-print n =
    let (c, s, e, d, ds) = print-IsDigit n in
    rw e (trim-word c s (graphic c d, digits-Visible s ds))

module _ (h : Host) (c : Place) (k : ClassFile h (push c.path (codes "net_cls.classid"))) where
  set_class-written :
      (class : ℕ) (s : h.State)
      → class < 2 ^ 32
      → set_class h c class s ≡ (ok tt, k.classified class s)
  unfolding set_class write_value open_for_write
  set_class-written class s le =
      rw (k.creates s, k.takes (hex_text class) class s (read_hex-hex_text class) le) refl

  get_class-shown :
      (s : h.State) → k.class_of s ≤ max_u64 → get_class h c s ≡ (ok (k.class_of s), s)
  unfolding get_class read_from read_text open_for_read
  get_class-shown s le =
      rw
        (
          k.opens s,
          k.shows s,
          trim-print (k.class_of s),
          parse_uint-print max_u64 (k.class_of s) le,
        )
        refl

  -- A class of 32 bits is written as hexadecimal text that a kernel which reads hexadecimal numbers
  -- takes as this number, and `get_class` gives it back from the decimal text that the file shows.
  pub get_class-set_class :
      (class : ℕ) (s : h.State)
      → class < 2 ^ 32
      → (set_class h c class s ≡ (ok tt, k.classified class s))
        × (get_class h c (k.classified class s) ≡ (ok class, k.classified class s))
  get_class-set_class class s le =
      let back = k.kept class s le in
      (
        set_class-written class s le,
        get_class-shown (k.classified class s) (rw back (omega (arith, le))) ∙ rw back refl,
      )
