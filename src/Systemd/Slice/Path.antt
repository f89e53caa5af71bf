-- ===== src/Systemd/Slice/Path.antt =====
-- The path that a slice name stands for.
use cgroups_rs.Base.{
  ℕ, ◌<◌, ◌≡◌, ◌≢◌, refl, sym, ap, ◌∙◌, false, ◌||◌, List, [], ◌∷◌, ◌++◌, map, none, ok, Outcome,
  returns, panics, arith, ltb, ◌==◌, if◌then◌else◌, is_empty, All, All-append, length, Bool-cases,
  inl, inr, length-append,
}
use cgroups_rs.Text.{Text, codes, text_eq, contains_char}
use cgroups_rs.Text.Split.{
  split, Free, split_by-Free, split_by-append, Free-contains_char, length-split_pos,
}
use cgroups_rs.Text.Affix.{
  byte_len, trim_end_text, strip_suffix, trim_end_text-append, trim_end_text_twice,
  ends_with-append, byte_len-append,
}
use cgroups_rs.Systemd.Error.{SystemdResult}
use cgroups_rs.Systemd.Slice.{slice_suffix, expand_pieces, expand_slice, without_first}
use cgroups_rs.Systemd.Slice.Pieces.{
  join, starts, slice_of, IsPart, expand_pieces-behind, behind-join,
}

dash-Free : (p : Text) → Free (λ c. c == b'-' || c == b'/') p → Free (λ c. c == b'-') p
dash-Free [] _ = tt
dash-Free (c ∷ p) (h, hs) = (ground arith, dash-Free p hs)

slash-Free : (p : Text) → Free (λ c. c == b'-' || c == b'/') p → Free (λ c. c == b'/') p
slash-Free [] _ = tt
slash-Free (c ∷ p) (h, hs) = (ground arith, slash-Free p hs)

split-join :
    (p : Text) (ps : List Text) → All IsPart (p ∷ ps) → split b'-' (join b'-' (p ∷ ps)) ≡ p ∷ ps
split-join p [] ((_, h), _) = split_by-Free (λ c. c == b'-') p (dash-Free p h)
split-join p (q ∷ ps) ((_, h), hs) =
    rw (split_by-append (λ c. c == b'-') p b'-' (join b'-' (q ∷ ps)) (dash-Free p h) refl)
      (rw (split-join q ps hs))

join-Free :
    (p : Text) (ps : List Text) → All IsPart (p ∷ ps) → Free (λ c. c == b'/') (join b'-' (p ∷ ps))
join-Free p [] ((_, h), _) = slash-Free p h
join-Free p (q ∷ ps) ((_, h), hs) = All-append _ p _ (slash-Free p h) (refl, join-Free q ps hs)

-- No name made of parts is the root's.
dash_ne : (p : Text) (ps : List Text) → IsPart p → text_eq (join b'-' (p ∷ ps)) (codes "-") ≡ false
unfolding text_eq
dash_ne [] ps (h, _) = cc
dash_ne (c ∷ p) [] (_, (h, _)) = ground arith
dash_ne (c ∷ p) (q ∷ ps) (_, (h, _)) = ground arith

slice_of-Free :
    (p : Text) (ps : List Text) → All IsPart (p ∷ ps) → Free (λ c. c == b'/') (slice_of (p ∷ ps))
slice_of-Free p ps h =
    All-append _ (join b'-' (p ∷ ps)) slice_suffix (join-Free p ps h)
      (refl, (refl, (refl, (refl, (refl, (refl, tt))))))

no_slash :
    (p : Text) (ps : List Text)
    → All IsPart (p ∷ ps)
    → contains_char b'/' (slice_of (p ∷ ps)) ≡ false
no_slash p ps h = Free-contains_char b'/' (slice_of (p ∷ ps)) (slice_of-Free p ps h)

fits : (name : Text) → ltb (byte_len (name ++ slice_suffix)) (byte_len slice_suffix) ≡ false
fits name = rw (byte_len-append name slice_suffix) (ground arith)

-- A text with the suffix and no separator is expanded by what is trimmed to.
abbrev expanded : Text → Outcome (SystemdResult Text)
expanded name =
    if text_eq name (codes "-")
    then returns (ok [])
    else without_first (expand_pieces (split b'-' name) [] [])

expand_slice-trimmed :
    (s name : Text)
    → contains_char b'/' (s ++ slice_suffix) ≡ false
    → trim_end_text slice_suffix (s ++ slice_suffix) ≡ name
    → expand_slice (s ++ slice_suffix) ≡ expanded name
unfolding expand_slice
expand_slice-trimmed s name h e =
    rw (ends_with-append slice_suffix s) (rw (fits s) (rw h (ap expanded e)))

expanded-parts :
    (p : Text) (ps : List Text)
    → All IsPart (p ∷ ps)
    → expanded (join b'-' (p ∷ ps)) ≡ returns (ok (join b'/' (map slice_of (starts (p ∷ ps)))))
expanded-parts p ps h = rw (dash_ne p ps h.0) (
    rw (split-join p ps h) (
      rw (expand_pieces-behind (p ∷ ps) [] [] h)
        (ap (λ (t : Text). without_first (ok t)) (behind-join [] p ps))))

-- A slice named by parts, each one not empty and with no dash or path separator, is the path of its
-- ancestors, first to last, each with the suffix: `a-b.slice` stands for `a.slice/a-b.slice`. The
-- name before the suffix must not end in the suffix itself.
pub expand_slice-slice_of :
    (p : Text) (ps : List Text)
    → All IsPart (p ∷ ps)
    → strip_suffix slice_suffix (join b'-' (p ∷ ps)) ≡ none
    → expand_slice (slice_of (p ∷ ps)) ≡ returns (ok (join b'/' (map slice_of (starts (p ∷ ps)))))
expand_slice-slice_of p ps h e =
    let name = join b'-' (p ∷ ps) in
    expand_slice-trimmed name name (no_slash p ps h)
      (trim_end_text-append slice_suffix name e (omega (arith, length-append name slice_suffix)))
    ∙ expanded-parts p ps h

-- A path that has a first character keeps one.
with_first :
    (ps : List Text) (c : ℕ) (path prefix : Text)
    → without_first (expand_pieces ps (c ∷ path) prefix) ≢ panics
unfolding expand_pieces
with_first [] c path prefix = λ h. cc
with_first (p ∷ ps) c path prefix = elim (Bool-cases (is_empty p)) [
  | inl e ↦ rw e (λ h. cc)
  | inr e ↦ rw e (with_first ps c _ _)
]

some_pieces : (ps : List Text) → 0 < length ps → without_first (expand_pieces ps [] []) ≢ panics
unfolding expand_pieces
some_pieces [] h = elim h [ ]
some_pieces (p ∷ ps) h = elim (Bool-cases (is_empty p)) [
  | inl e ↦ rw e (λ h. cc)
  | inr e ↦ rw e (with_first ps b'/' _ _)
]

-- `expand_slice` never panics, whatever the text: where its `remove(0)` is reached, the path has a
-- first character.
pub expand_slice-ne-panics : (slice : Text) → expand_slice slice ≢ panics
unfolding expand_slice
expand_slice-ne-panics slice =
    let name = trim_end_text slice_suffix slice in
    ground (arith, some_pieces (split b'-' name) (length-split_pos (λ c. c == b'-') name))

no_slash_twice :
    (p : Text) (ps : List Text)
    → All IsPart (p ∷ ps)
    → contains_char b'/' (slice_of (p ∷ ps) ++ slice_suffix) ≡ false
no_slash_twice p ps h = Free-contains_char b'/' (slice_of (p ∷ ps) ++ slice_suffix) (
    All-append _ (slice_of (p ∷ ps)) slice_suffix (slice_of-Free p ps h)
      (refl, (refl, (refl, (refl, (refl, (refl, tt)))))))

-- The suffix is trimmed as often as it is there: two different slices have one path.
pub expand_slice_twice :
    (p : Text) (ps : List Text)
    → All IsPart (p ∷ ps)
    → strip_suffix slice_suffix (join b'-' (p ∷ ps)) ≡ none
    → expand_slice (slice_of (p ∷ ps) ++ slice_suffix) ≡ expand_slice (slice_of (p ∷ ps))
expand_slice_twice p ps h e =
    let name = join b'-' (p ∷ ps) in
    expand_slice-trimmed (name ++ slice_suffix) name (no_slash_twice p ps h) (
      trim_end_text_twice slice_suffix name e
        (omega (arith, length-append (name ++ slice_suffix) slice_suffix)))
    ∙ expanded-parts p ps h
    ∙ sym (expand_slice-slice_of p ps h e)
