-- ===== src/Systemd/Cpuset/Tests.antt =====
-- A bit vector that behaves as documented, runs of the conversion, and the theorems at an input.
use cgroups_rs.Base.{
  ℕ, zero, suc, ◌+◌, ◌-◌, ◌*◌, ◌/◌, ◌%◌, ◌^◌, ◌≤◌, ◌<◌, ◌≡◌, refl, Bool, true, false, List, [], ◌∷◌,
  none, some, ap, ◌∙◌, ok, err, returns, arith, ◌==◌, ltb, if◌then◌else◌, get_elem?,
}
use cgroups_rs.Text.{codes}
use cgroups_rs.Fs.Cpuset.{parse_range}
use cgroups_rs.Systemd.Error.{invalid_argument}
use cgroups_rs.Systemd.Cpuset.{convert_list_to_mask}
use cgroups_rs.Systemd.Cpuset.Vectors.{BitVec, test_bit, bit_of}
use cgroups_rs.Systemd.Cpuset.Mask.{Agrees, convert_list_to_mask-parse_range}

abbrev Bits : Type 0
Bits = ℕ × (ℕ → Bool)

abbrev digit : Bool → ℕ
digit x = if x then 1 else 0

byte : (ℕ → Bool) → ℕ → ℕ
byte f i =
    128 * digit (f (8 * i))
    + 64 * digit (f (8 * i + 1))
    + 32 * digit (f (8 * i + 2))
    + 16 * digit (f (8 * i + 3))
    + 8 * digit (f (8 * i + 4))
    + 4 * digit (f (8 * i + 5))
    + 2 * digit (f (8 * i + 6))
    + digit (f (8 * i + 7))

bytes_from : ℕ → ℕ → (ℕ → Bool) → List ℕ
bytes_from zero i f = []
bytes_from (suc n) i f = byte f i ∷ bytes_from n (i + 1) f

-- Bits behind the length read as zero.
abbrev within : Bits → ℕ → Bool
within v i = if ltb i v.0 then v.1 i else false

abbrev bits_to_bytes : Bits → List ℕ
bits_to_bytes v = bytes_from ((v.0 + 7) / 8) 0 (within v)

get_elem?-bytes_from :
    (n i k : ℕ) (f : ℕ → Bool) → k < n → get_elem? (bytes_from n i f) k ≡ some (byte f (i + k))
unfolding bytes_from
get_elem?-bytes_from zero i k f h = elim h [ ]
get_elem?-bytes_from (suc n) i zero f h = ap (λ (j : ℕ). some (byte f j)) (omega arith)
get_elem?-bytes_from (suc n) i (suc k) f h =
    get_elem?-bytes_from n (i + 1) k f (omega arith) ∙ ap (λ (j : ℕ). some (byte f j)) (omega arith)

none-bytes_from : (n i k : ℕ) (f : ℕ → Bool) → n ≤ k → get_elem? (bytes_from n i f) k ≡ none
unfolding bytes_from
none-bytes_from zero i k f h = refl
none-bytes_from (suc n) i zero f h = absurd (omega arith)
none-bytes_from (suc n) i (suc k) f h = none-bytes_from n (i + 1) k f (omega arith)

digit-le : (x : Bool) → digit x ≤ 1
digit-le x = ground arith

digit-eq : (x : Bool) → (digit x == 1) ≡ x
digit-eq true = refl
digit-eq false = refl

-- Each bit of a sum of eight weighted digits.
digits_of :
    (a b c d e f g h : ℕ)
    → a ≤ 1
    → b ≤ 1
    → c ≤ 1
    → d ≤ 1
    → e ≤ 1
    → f ≤ 1
    → g ≤ 1
    → h ≤ 1
    → (n : ℕ) → n ≡ 128 * a + 64 * b + 32 * c + 16 * d + 8 * e + 4 * f + 2 * g + h
    → (n / 128 % 2 ≡ a)
      × (n / 64 % 2 ≡ b)
      × (n / 32 % 2 ≡ c)
      × (n / 16 % 2 ≡ d)
      × (n / 8 % 2 ≡ e)
      × (n / 4 % 2 ≡ f)
      × (n / 2 % 2 ≡ g)
      × (n % 2 ≡ h)
digits_of a b c d e f g h pa pb pc pd pe pf pg ph n q = omega arith

byte_digits :
    (f : ℕ → Bool) (i : ℕ)
    → (byte f i / 128 % 2 ≡ digit (f (8 * i)))
      × (byte f i / 64 % 2 ≡ digit (f (8 * i + 1)))
      × (byte f i / 32 % 2 ≡ digit (f (8 * i + 2)))
      × (byte f i / 16 % 2 ≡ digit (f (8 * i + 3)))
      × (byte f i / 8 % 2 ≡ digit (f (8 * i + 4)))
      × (byte f i / 4 % 2 ≡ digit (f (8 * i + 5)))
      × (byte f i / 2 % 2 ≡ digit (f (8 * i + 6)))
      × (byte f i % 2 ≡ digit (f (8 * i + 7)))
unfolding byte
byte_digits f i =
    digits_of _ _ _ _ _ _ _ _ (digit-le _) (digit-le _) (digit-le _) (digit-le _) (digit-le _)
      (digit-le _) (digit-le _) (digit-le _) _ refl

test_bit-byte : (f : ℕ → Bool) (i m : ℕ) → m < 8 → test_bit (byte f i) (7 - m) ≡ f (8 * i + m)
test_bit-byte f i zero h =
    ap (λ (n : ℕ). n == 1) (byte_digits f i).0 ∙ digit-eq _ ∙ ap f (omega arith)
test_bit-byte f i (suc zero) h = ap (λ (n : ℕ). n == 1) (byte_digits f i).1 ∙ digit-eq _
test_bit-byte f i (suc (suc zero)) h = ap (λ (n : ℕ). n == 1) (byte_digits f i).2 ∙ digit-eq _
test_bit-byte f i (suc (suc (suc zero))) h = ap (λ (n : ℕ). n == 1) (byte_digits f i).3 ∙ digit-eq _
test_bit-byte f i (suc (suc (suc (suc zero)))) h =
    ap (λ (n : ℕ). n == 1) (byte_digits f i).4 ∙ digit-eq _
test_bit-byte f i (suc (suc (suc (suc (suc zero))))) h =
    ap (λ (n : ℕ). n == 1) (byte_digits f i).5 ∙ digit-eq _
test_bit-byte f i (suc (suc (suc (suc (suc (suc zero)))))) h =
    ap (λ (n : ℕ). n == 1) (byte_digits f i).6 ∙ digit-eq _
test_bit-byte f i (suc (suc (suc (suc (suc (suc (suc zero))))))) h =
    ap (λ (n : ℕ). n == 1)
      (let e : byte f i / 2 ^ 0 % 2 ≡ byte f i % 2 = omega arith in e ∙ (byte_digits f i).7)
    ∙ digit-eq _
test_bit-byte f i (suc (suc (suc (suc (suc (suc (suc (suc m)))))))) h = absurd (omega arith)

bit-bits_to_bytes :
    (v : Bits) (i : ℕ) → i < v.0 → bit_of (get_elem? (bits_to_bytes v) (i / 8)) (7 - i % 8) ≡ v.1 i
bit-bits_to_bytes v i h =
    let e : 8 * (0 + i / 8) + i % 8 ≡ i = omega arith in
    rw (get_elem?-bytes_from ((v.0 + 7) / 8) 0 (i / 8) (within v) (omega arith))
      (test_bit-byte (within v) (0 + i / 8) (i % 8) (omega arith) ∙ ap (within v) e ∙ ground arith)

abbrev documented : BitVec
documented = record {
  Vector = Bits;
  from_elem = λ n x. (n, λ _. x);
  len = λ v. v.0;
  get = λ v. v.1;
  grow = λ v n x. (v.0 + n, λ i. if ltb i v.0 then v.1 i else x);
  set = λ v i x. (v.0, λ j. if i == j then x else v.1 j);
  to_bytes = bits_to_bytes;
  len-from_elem = λ n x. refl;
  get-from_elem = λ n x i h. refl;
  len-grow = λ v n x. refl;
  get-grow = λ v n x i h. refl;
  len-set = λ v i x. refl;
  get-set = λ v i x j h. refl;
  bit-to_bytes = bit-bits_to_bytes;
  none-to_bytes = λ v k h. none-bytes_from ((v.0 + 7) / 8) 0 k (within v) (omega arith);
}

-- The examples of the source's own tests.
mask_test :
    (convert_list_to_mask documented (codes "2-4") ≡ returns (ok (0b11100 ∷ [])))
    × (convert_list_to_mask documented (codes "1,7") ≡ returns (ok (0b10000010 ∷ [])))
    × (convert_list_to_mask documented (codes "0-4,9") ≡ returns (ok (0b10 ∷ 0b11111 ∷ [])))
    × (convert_list_to_mask documented (codes "1-3-4") ≡ returns (err invalid_argument))
    × (convert_list_to_mask documented (codes "1-3,") ≡ returns (err invalid_argument))
unfolding convert_list_to_mask byte bytes_from
mask_test = (refl, refl, refl, refl, refl)

-- The empty text is no list for systemd, and the empty list for the cgroup file system.
empty_differs :
    (convert_list_to_mask documented [] ≡ returns (err invalid_argument)) × (parse_range [] ≡ ok [])
unfolding convert_list_to_mask parse_range
empty_differs = (refl, refl)

convert_list_to_mask-parse_range_example :
    Agrees (parse_range (codes "0-4,9")) (convert_list_to_mask documented (codes "0-4,9"))
convert_list_to_mask-parse_range_example =
    convert_list_to_mask-parse_range documented (codes "0-4,9") cc
