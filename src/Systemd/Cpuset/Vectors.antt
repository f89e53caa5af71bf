-- ===== src/Systemd/Cpuset/Vectors.antt =====
-- The bit vector that `convert_list_to_mask` builds: the operations of the crate `bit_vec` that it
-- calls, and what that crate's documentation says of them.
use cgroups_rs.Base.{
  ℕ, ◌+◌, ◌-◌, ◌*◌, ◌/◌, ◌%◌, ◌^◌, ◌≤◌, ◌<◌, ◌≡◌, Bool, false, List, ◌==◌, ltb, if◌then◌else◌,
  get_elem?, Option, none, some,
}

-- Bit `k` of a byte, counted from the least significant one.
abbrev pub test_bit : ℕ → ℕ → Bool
test_bit b k = b / 2 ^ k % 2 == 1

-- Bit `k` of byte `i` of a list; false behind the end.
abbrev pub bit_of : Option ℕ → ℕ → Bool
bit_of none k = false
bit_of (some b) k = test_bit b k

pub record BitVec : Type 1 where
  pub Vector : Type 0
  pub from_elem : ℕ → Bool → Vector
  pub len : Vector → ℕ
  pub get : Vector → ℕ → Bool
  pub grow : Vector → ℕ → Bool → Vector
  pub set : Vector → ℕ → Bool → Vector
  pub to_bytes : Vector → List ℕ
  pub len-from_elem : (n : ℕ) (x : Bool) → len (from_elem n x) ≡ n
  pub get-from_elem : (n : ℕ) (x : Bool) (i : ℕ) → i < n → get (from_elem n x) i ≡ x
  pub len-grow : (v : Vector) (n : ℕ) (x : Bool) → len (grow v n x) ≡ len v + n
  pub get-grow :
      (v : Vector) (n : ℕ) (x : Bool) (i : ℕ)
      → i < len v + n
      → get (grow v n x) i ≡ (if ltb i (len v) then get v i else x)
  pub len-set : (v : Vector) (i : ℕ) (x : Bool) → len (set v i x) ≡ len v
  pub get-set :
      (v : Vector) (i : ℕ) (x : Bool) (j : ℕ)
      → i < len v
      → get (set v i x) j ≡ (if i == j then x else get v j)
  -- Byte `i` holds the bits from `8 * i` on, the first one in its most significant place.
  pub bit-to_bytes :
      (v : Vector) (i : ℕ)
      → i < len v
      → bit_of (get_elem? (to_bytes v) (i / 8)) (7 - i % 8) ≡ get v i
  pub none-to_bytes : (v : Vector) (k : ℕ) → len v ≤ 8 * k → get_elem? (to_bytes v) k ≡ none
