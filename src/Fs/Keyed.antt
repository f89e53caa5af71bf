-- ===== src/Fs/Keyed.antt =====
-- fs/mod.rs: files in the keyed formats, a key and a value in each line, or a key and its subkeys.
use cgroups_rs.Base.{ℕ, ℤ, List, [], ◌∷◌, Option, none, some}
use cgroups_rs.Text.{Text, codes}
use cgroups_rs.Text.Split.{split, split_by}
use cgroups_rs.Text.Lines.{lines}
use cgroups_rs.Number.Signed.{parse_i64, parse_int}
use cgroups_rs.Dict.{Dict, insert}
use cgroups_rs.Io.{Io, ◌>>=◌, pure}
use cgroups_rs.Fs.Error.{Error}
use cgroups_rs.Fs.Host.{Host, Place, read_text}

-- The pair of a line or an item, or nothing if it has not two pieces or the second is no `i64`.
unfoldable pub pair_of : List Text → Option (Text × ℤ)
unfolding parse_int
pair_of (k ∷ v ∷ []) = elim (parse_i64 v) [ none ↦ none | some i ↦ some (k, i) ]
pair_of _ = none

abbrev pushed : Option (Text × ℤ) → List (Text × ℤ) → List (Text × ℤ)
pushed none v = v
pushed (some p) v = p ∷ v

-- The loop of `flat_keyed_to_vec`.
unfoldable pub vec_of_lines : List Text → List (Text × ℤ)
unfolding split_by pair_of
vec_of_lines [] = []
vec_of_lines (l ∷ ls) = pushed (pair_of (split b' ' l)) (vec_of_lines ls)

abbrev inserted : Option (Text × ℤ) → Dict ℤ → Dict ℤ
inserted none m = m
inserted (some (k, i)) m = insert k i m

-- The loops that insert into a map, over the lines of a file or the items of a line.
unfoldable pub map_of_items : ℕ → Dict ℤ → List Text → Dict ℤ
unfolding split_by pair_of insert
map_of_items separator m [] = m
map_of_items separator m (l ∷ ls) =
    map_of_items separator (inserted (pair_of (split separator l)) m) ls

-- One line of the nested format: the first piece is the key.
unfoldable pub nested_line : List Text → Dict (Dict ℤ) → Dict (Dict ℤ)
unfolding map_of_items insert
nested_line [] m = m
nested_line (k ∷ items) m = insert k (map_of_items b'=' [] items) m

unfoldable pub nested_of_lines : Dict (Dict ℤ) → List Text → Dict (Dict ℤ)
unfolding split_by nested_line
nested_of_lines m [] = m
nested_of_lines m (l ∷ ls) = nested_of_lines (nested_line (split b' ' l) m) ls

module _ (h : Host) where
  open h use {State}

  abbrev content_of : Place → Text → Io State Error Text
  content_of c file = read_text h c file (codes "FIXME: read_string_from")

  unfoldable pub flat_keyed_to_vec : Place → Text → Io State Error (List (Text × ℤ))
  unfolding read_text lines vec_of_lines
  flat_keyed_to_vec c file = do s ← content_of c file; pure (vec_of_lines (lines s))

  unfoldable pub flat_keyed_to_hashmap : Place → Text → Io State Error (Dict ℤ)
  unfolding read_text lines map_of_items
  flat_keyed_to_hashmap c file = do s ← content_of c file; pure (map_of_items b' ' [] (lines s))

  unfoldable pub nested_keyed_to_hashmap : Place → Text → Io State Error (Dict (Dict ℤ))
  unfolding read_text lines nested_of_lines
  nested_keyed_to_hashmap c file = do s ← content_of c file; pure (nested_of_lines [] (lines s))
